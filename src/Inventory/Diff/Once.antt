-- ===== src/Inventory/Diff/Once.antt =====
-- A diff has one change at most for a key.
use mathlib.Core.List.Memᴰ
use aws_explorer.Prelude.{
  ◌≡◌, ◌≢◌, ◌∙◌, sym, inl, inr, Option, none, some, List, [], ◌∷◌, Memᴰ, List-cases, sort,
  IsOrderedBy, append-IsOrderedBy, sort-IsOrderedBy_sym,
}
use aws_explorer.Go.Text.{Text, less_text}
use aws_explorer.Go.Map.{Dict, get, put, keys_of, union_keys}
use aws_explorer.Go.Keys.{IsDistinct, put-IsDistinct, union_keys-IsDistinct}
use aws_explorer.Inventory.Types.{Entry, Snapshot, Change, added, removed, modified}
use aws_explorer.Inventory.Diff.{
  index_entries, change, entry_deltas, modified_change, changes_at, changes, less_change, diff,
}
use aws_explorer.Inventory.Diff.Changes.{Memᴰ-changes, at_key, Changes-key}

abbrev pub DifferInKey : Change → Change → Type 0
DifferInKey a b = a.key ≢ b.key

index_entries-IsDistinct :
    (m : Dict Entry) (es : List Entry)
    → IsDistinct (keys_of m)
    → IsDistinct (keys_of (index_entries m es))
unfolding index_entries
index_entries-IsDistinct m [] d = d
index_entries-IsDistinct m (e ∷ es) d =
    index_entries-IsDistinct (put e.key e m) es (put-IsDistinct e.key e m d)

one : (c : Change) → IsOrderedBy DifferInKey (c ∷ [])
one c = ((λ y m. absurd (Memᴰ.not-nil m)), tt)

changes_at-IsOrderedBy : (o n : Option Entry) → IsOrderedBy DifferInKey (changes_at o n)
unfolding changes_at modified_change
changes_at-IsOrderedBy none none = tt
changes_at-IsOrderedBy none (some n) = one (change added n [])
changes_at-IsOrderedBy (some o) none = one (change removed o [])
changes_at-IsOrderedBy (some o) (some n) = elim (List-cases (entry_deltas o n)) [
  | inl e ↦ rw e tt
  | inr (d, ds, e) ↦ rw e (one (change modified n (d ∷ ds)))
]

module _ (old neu : Snapshot) where
  abbrev old_m : Dict Entry
  old_m = index_entries [] old.entries

  abbrev neu_m : Dict Entry
  neu_m = index_entries [] neu.entries

  key_at : (k : Text) (c : Change) → Memᴰ c (changes_at (get k old_m) (get k neu_m)) → c.key ≡ k
  key_at k c m = Changes-key old neu k c (at_key old neu k c m)

  changes-IsOrderedBy :
      (ks : List Text) → IsDistinct ks → IsOrderedBy DifferInKey (changes old_m neu_m ks)
  unfolding changes
  changes-IsOrderedBy [] d = tt
  changes-IsOrderedBy (k ∷ ks) d =
      append-IsOrderedBy DifferInKey (changes_at (get k old_m) (get k neu_m)) _
        (changes_at-IsOrderedBy _ _) (changes-IsOrderedBy ks d.1)
        (λ a b m n q.
          let (j, t, s) = Memᴰ-changes old_m neu_m ks b n in
          d.0 j t (sym (key_at k a m) ∙ q ∙ key_at j b s))

  -- No two changes of a diff have the same key.
  pub diff_once : IsOrderedBy DifferInKey (diff old neu)
  unfolding diff keys_of
  diff_once =
      let keys = union_keys old_m neu_m in
      sort-IsOrderedBy_sym less_change DifferInKey (λ a b n q. n (sym q)) _
        (changes-IsOrderedBy (sort less_text keys) (
          sort-IsOrderedBy_sym less_text (λ j k. j ≢ k) (λ j k n q. n (sym q)) keys
            (union_keys-IsDistinct old_m neu_m (index_entries-IsDistinct [] old.entries tt)
              (index_entries-IsDistinct [] neu.entries tt))))
