-- ===== src/Inventory/Diff/Changes.antt =====
-- Which changes a diff of two snapshots lists.
use mathlib.Core.List.Memᴰ
use aws_explorer.Prelude.{
  ◌≡◌, refl, sym, ap, ◌∙◌, subst, ◌↔◌, ◌⊎◌, inl, inr, ⊎_elim, Option, none, some, List, [], ◌∷◌,
  Memᴰ, arith, List-cases, sort, Memᴰ-sort, Memᴰ-sort_of,
}
use aws_explorer.Go.Text.{Text, less_text}
use aws_explorer.Go.Map.{Dict, get, union_keys, Memᴰ-union_keys}
use aws_explorer.Inventory.Types.{Entry, Snapshot, added, removed, modified, Change}
use aws_explorer.Inventory.Diff.{
  index_entries, change, entry_deltas, modified_change, changes_at, changes, less_change, diff,
}
use aws_explorer.Inventory.Diff.Laws.{latest, IsSame, get-entries, latest-key, entry_deltas_iff}

-- The change from an entry, or none, to an entry, or none.
pub data IsChange : Option Entry → Option Entry → Change → Type 0 where
  appears : (n : Entry) → IsChange none (some n) (change added n [])
  disappears : (o : Entry) → IsChange (some o) none (change removed o [])
  differs :
      (o n : Entry)
      → ¬ IsSame o n
      → IsChange (some o) (some n) (change modified n (entry_deltas o n))

Memᴰ-modified :
    (o n : Entry) (c : Change)
    → Memᴰ c (modified_change n (entry_deltas o n))
    → IsChange (some o) (some n) c
unfolding modified_change
Memᴰ-modified o n c m = elim (List-cases (entry_deltas o n)) [
  | inl e ↦ absurd (Memᴰ.not-nil (rw e at m))
  | inr (d, ds, e) ↦
      let q = Memᴰ.eq_of_singleton (rw e at m) ∙ ap (change modified n) (sym e) in
      subst (IsChange (some o) (some n)) (sym q)
        (IsChange.differs o n (λ s. let z = sym ((entry_deltas_iff o n).1 s) ∙ e in ground arith))
]

Memᴰ-changes_at : (o n : Option Entry) (c : Change) → Memᴰ c (changes_at o n) → IsChange o n c
unfolding changes_at
Memᴰ-changes_at none none c m = absurd (Memᴰ.not-nil m)
Memᴰ-changes_at none (some n) c m =
    subst (IsChange none (some n)) (sym (Memᴰ.eq_of_singleton m)) (IsChange.appears n)
Memᴰ-changes_at (some o) none c m =
    subst (IsChange (some o) none) (sym (Memᴰ.eq_of_singleton m)) (IsChange.disappears o)
Memᴰ-changes_at (some o) (some n) c m = Memᴰ-modified o n c m

modified_listed :
    (o n : Entry)
    → ¬ IsSame o n
    → Memᴰ (change modified n (entry_deltas o n)) (modified_change n (entry_deltas o n))
unfolding modified_change
modified_listed o n d = elim (List-cases (entry_deltas o n)) [
  | inl e ↦ absurd (d ((entry_deltas_iff o n).0 e))
  | inr (x, xs, e) ↦ rw e (Memᴰ.head refl)
]

IsChange-Memᴰ : (o n : Option Entry) (c : Change) → IsChange o n c → Memᴰ c (changes_at o n)
unfolding changes_at
IsChange-Memᴰ o n c (IsChange.appears e) = Memᴰ.head refl
IsChange-Memᴰ o n c (IsChange.disappears e) = Memᴰ.head refl
IsChange-Memᴰ o n c (IsChange.differs a b d) = modified_listed a b d

pub Memᴰ-changes :
    (om nm : Dict Entry) (ks : List Text) (c : Change)
    → Memᴰ c (changes om nm ks)
    → (k : Text) × Memᴰ k ks × Memᴰ c (changes_at (get k om) (get k nm))
unfolding changes
Memᴰ-changes om nm [] c m = absurd (Memᴰ.not-nil m)
Memᴰ-changes om nm (k ∷ ks) c m =
    ⊎_elim (λ t. (k, Memᴰ.head refl, t))
      (λ t. let (j, a, b) = Memᴰ-changes om nm ks c t in (j, Memᴰ.tail a, b))
      (Memᴰ.append_cases (changes_at (get k om) (get k nm)) m)

Memᴰ-changes_of :
    (om nm : Dict Entry) (ks : List Text) (c : Change) (k : Text)
    → Memᴰ k ks
    → Memᴰ c (changes_at (get k om) (get k nm))
    → Memᴰ c (changes om nm ks)
unfolding changes
Memᴰ-changes_of om nm [] c k m h = absurd (Memᴰ.not-nil m)
Memᴰ-changes_of om nm (j ∷ ks) c k m h =
    ⊎_elim (λ q. Memᴰ.append_left _ (subst (λ w. Memᴰ c (changes_at (get w om) (get w nm))) q h))
      (λ t. Memᴰ.append_right _ (Memᴰ-changes_of om nm ks c k t h)) (Memᴰ.cases_cons m)

-- A change carries the key of its entries.
change-key :
    (o n : Option Entry) (c : Change) (k : Text)
    → IsChange o n c
    → ((e : Entry) → o ≡ some e → e.key ≡ k)
    → ((e : Entry) → n ≡ some e → e.key ≡ k)
    → c.key ≡ k
unfolding change
change-key o n c k (IsChange.appears e) old neu = neu e refl
change-key o n c k (IsChange.disappears e) old neu = old e refl
change-key o n c k (IsChange.differs a b d) old neu = neu b refl

-- One of the two entries is there.
IsChange-some :
    (o n : Option Entry) (c : Change) → IsChange o n c → (e : Entry) × ((o ≡ some e) ⊎ (n ≡ some e))
IsChange-some o n c (IsChange.appears e) = (e, inr refl)
IsChange-some o n c (IsChange.disappears e) = (e, inl refl)
IsChange-some o n c (IsChange.differs a b d) = (a, inl refl)

module _ (old neu : Snapshot) where
  abbrev pub Changes : Text → Change → Type 0
  Changes k c = IsChange (latest k old.entries) (latest k neu.entries) c

  pub Changes-key : (k : Text) (c : Change) → Changes k c → c.key ≡ k
  Changes-key k c h =
      change-key _ _ c k h (λ e q. latest-key k old.entries q) (λ e q. latest-key k neu.entries q)

  abbrev old_m : Dict Entry
  old_m = index_entries [] old.entries

  abbrev neu_m : Dict Entry
  neu_m = index_entries [] neu.entries

  pub at_key :
      (k : Text) (c : Change) → Memᴰ c (changes_at (get k old_m) (get k neu_m)) → Changes k c
  at_key k c m =
      Memᴰ-changes_at _ _ c
        (rw (sym (get-entries k old.entries), sym (get-entries k neu.entries)) m)

  of_key : (k : Text) (c : Change) → Changes k c → Memᴰ c (changes_at (get k old_m) (get k neu_m))
  of_key k c h = rw (get-entries k old.entries, get-entries k neu.entries) (IsChange-Memᴰ _ _ c h)

  key_listed : (k : Text) (c : Change) → Changes k c → Memᴰ k (union_keys old_m neu_m)
  key_listed k c h =
      let (e, t) = IsChange-some _ _ c h in
      Memᴰ-union_keys k old_m neu_m (
        ⊎_elim (λ q. inl (get-entries k old.entries ∙ q)) (λ q. inr (get-entries k neu.entries ∙ q))
          t)

  listed_change : (c : Change) → Memᴰ c (diff old neu) → Changes c.key c
  unfolding diff
  listed_change c m =
      let ks = sort less_text (union_keys old_m neu_m) in
      let (k, _, b) = Memᴰ-changes old_m neu_m ks c (Memᴰ-sort less_change _ m) in
      let h = at_key k c b in subst (λ j. Changes j c) (sym (Changes-key k c h)) h

  change_listed : (c : Change) → Changes c.key c → Memᴰ c (diff old neu)
  unfolding diff
  change_listed c h =
      let ks = sort less_text (union_keys old_m neu_m) in
      let m = Memᴰ-sort_of less_text _ (key_listed c.key c h) in
      Memᴰ-sort_of less_change _ (Memᴰ-changes_of old_m neu_m ks c c.key m (of_key c.key c h))

  -- A diff lists exactly the changes from the last entry with the change's key in the old snapshot to
  -- the last one in the new snapshot: added or removed if there is one in only one of them, modified
  -- if there is one in both and they differ in name, state or tags.
  pub diff_iff :
      (c : Change)
      → Memᴰ c (diff old neu) ↔ IsChange (latest c.key old.entries) (latest c.key neu.entries) c
  diff_iff c = (listed_change c, change_listed c)
