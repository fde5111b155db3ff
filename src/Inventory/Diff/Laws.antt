-- ===== src/Inventory/Diff/Laws.antt =====
-- What a diff of two snapshots reports.
use mathlib.Core.List.Memᴰ
use aws_explorer.Prelude.{
  ◌≡◌, refl, sym, ap, ◌∙◌, subst, ◌↔◌, ◌⊎◌, inl, inr, ⊎_elim, true, Option, none, some, List, [],
  ◌∷◌, Memᴰ, if◌then◌else◌, arith, Bool-cases, Option-cases, sort, Memᴰ-sort, Memᴰ-sort_of,
}
use aws_explorer.Go.Text.{Text, eq_text, eq_text_iff, eq_text_sound, less_text}
use aws_explorer.Go.Map.{Dict, get, put, union_keys, get-put, get-union_keys, Memᴰ-union_keys}
use aws_explorer.Inventory.Types.{Entry}
use aws_explorer.Inventory.Diff.{index_entries, field_delta, is_same_tag, tag_deltas, entry_deltas}

unfoldable pub or_else : Option Entry → Option Entry → Option Entry
or_else (some e) f = some e
or_else none f = f

-- The last entry of a list with a key.
unfoldable pub latest : Text → List Entry → Option Entry
unfolding or_else
latest k [] = none
latest k (e ∷ es) = or_else (latest k es) (if eq_text e.key k then some e else none)

or_else-none : (o : Option Entry) → or_else o none ≡ o
unfolding or_else
or_else-none none = refl
or_else-none (some e) = refl

get-index_entries :
    (k : Text) (m : Dict Entry) (es : List Entry)
    → get k (index_entries m es) ≡ or_else (latest k es) (get k m)
unfolding index_entries latest or_else
get-index_entries k m [] = refl
get-index_entries k m (e ∷ es) =
    let ih = get-index_entries k (put e.key e m) es in
    elim (Option-cases (latest k es)) [
      | inl a ↦ elim (Bool-cases (eq_text e.key k)) [
        | inl b ↦ rw (ih, get-put k e.key e m, a, b) refl
        | inr b ↦ rw (ih, get-put k e.key e m, a, b) refl
      ]
      | inr (f, a) ↦ rw (ih, a) refl
    ]

-- What the map of a snapshot holds under a key.
pub get-entries : (k : Text) (es : List Entry) → get k (index_entries [] es) ≡ latest k es
unfolding get
get-entries k es = get-index_entries k [] es ∙ or_else-none (latest k es)

from_some : Entry → Option Entry → Entry
from_some d none = d
from_some d (some e) = e

some_inj : {f e : Entry} → some f ≡ some e → f ≡ e
unfolding from_some
some_inj {f} h = ap (from_some f) h

pub latest-key : (k : Text) (es : List Entry) {e : Entry} → latest k es ≡ some e → e.key ≡ k
unfolding latest or_else
latest-key k [] h = ground arith
latest-key k (f ∷ es) {e} h = elim (Option-cases (latest k es)) [
  | inl a ↦ elim (Bool-cases (eq_text f.key k)) [
    | inl b ↦
        let q : f ≡ e = some_inj (rw b at rw a at h) in
        ap (λ (x : Entry). x.key) (sym q) ∙ eq_text_sound f.key k b
    | inr b ↦ let h' = rw b at rw a at h in ground arith
  ]
  | inr (g, a) ↦ latest-key k es (a ∙ rw a at h)
]

-- Two entries agree on what the diff compares: name, state, and the value or absence of every tag.
pub record IsSame (o n : Entry) : Type 0 where
  pub name : o.name ≡ n.name
  pub state : o.state ≡ n.state
  pub tags : (k : Text) → get k o.tags ≡ get k n.tags

is_same_tag_iff :
    (o n : Option Text) → (is_same_tag o n ≡ true) ↔ ((v : Text) × (o ≡ some v) × (n ≡ some v))
unfolding is_same_tag
is_same_tag_iff none n = (λ h. ground arith, λ (v, a, b). ground arith)
is_same_tag_iff (some o) none = (λ h. ground arith, λ (v, a, b). ground arith)
is_same_tag_iff (some o) (some n) = (
  λ h. (o, refl, ap some (sym (eq_text_sound o n h))),
  λ (v, a, b). ground (arith, eq_text_iff o n),
)

tag_deltas-Memᴰ :
    (o n : Dict Text) (ks : List Text)
    → tag_deltas o n ks ≡ []
    → (k : Text) → Memᴰ k ks
    → is_same_tag (get k o) (get k n) ≡ true
unfolding tag_deltas
tag_deltas-Memᴰ o n [] h k m = absurd (Memᴰ.not-nil m)
tag_deltas-Memᴰ o n (j ∷ ks) h k m = elim (Bool-cases (is_same_tag (get j o) (get j n))) [
  | inl e ↦
      ⊎_elim (λ q. subst (λ w. is_same_tag (get w o) (get w n) ≡ true) (sym q) e)
        (tag_deltas-Memᴰ o n ks (rw e at h) k) (Memᴰ.cases_cons m)
  | inr e ↦ let h' = rw e at h in ground arith
]

tag_deltas-nil :
    (o n : Dict Text) (ks : List Text)
    → ((k : Text) → Memᴰ k ks → is_same_tag (get k o) (get k n) ≡ true)
    → tag_deltas o n ks ≡ []
unfolding tag_deltas
tag_deltas-nil o n [] h = refl
tag_deltas-nil o n (j ∷ ks) h =
    rw (h j (Memᴰ.head refl), tag_deltas-nil o n ks (λ k m. h k (Memᴰ.tail m))) refl

same_at :
    (o n : Dict Text) (k v : Text)
    → tag_deltas o n (sort less_text (union_keys o n)) ≡ []
    → (get k o ≡ some v) ⊎ (get k n ≡ some v)
    → get k o ≡ get k n
same_at o n k v h t =
    let listed = Memᴰ-sort_of less_text (union_keys o n) (Memᴰ-union_keys k o n t) in
    let (w, a, b) = (is_same_tag_iff (get k o) (get k n)).0 (tag_deltas-Memᴰ o n _ h k listed) in
    a ∙ sym b

same_tags :
    (o n : Dict Text)
    → tag_deltas o n (sort less_text (union_keys o n)) ≡ []
    → (k : Text) → get k o ≡ get k n
same_tags o n h k = elim (Option-cases (get k o)) [
  | inl a ↦ elim (Option-cases (get k n)) [
    | inl b ↦ a ∙ sym b
    | inr (v, b) ↦ same_at o n k v h (inr b)
  ]
  | inr (v, a) ↦ same_at o n k v h (inl a)
]

same_value :
    (o n : Dict Text) (k v : Text)
    → get k o ≡ get k n
    → (get k o ≡ some v) ⊎ (get k n ≡ some v)
    → is_same_tag (get k o) (get k n) ≡ true
same_value o n k v q (inl h) = (is_same_tag_iff (get k o) (get k n)).1 (v, h, sym q ∙ h)
same_value o n k v q (inr h) = (is_same_tag_iff (get k o) (get k n)).1 (v, q ∙ h, h)

no_tag_deltas :
    (o n : Dict Text)
    → ((k : Text) → get k o ≡ get k n)
    → tag_deltas o n (sort less_text (union_keys o n)) ≡ []
no_tag_deltas o n same = tag_deltas-nil o n (sort less_text (union_keys o n)) (λ k m.
    let (v, h) = get-union_keys k o n (Memᴰ-sort less_text (union_keys o n) m) in
    same_value o n k v (same k) h)

-- Two entries have no deltas if and only if they agree on name, state and tags.
pub entry_deltas_iff : (o n : Entry) → (entry_deltas o n ≡ []) ↔ IsSame o n
unfolding entry_deltas field_delta
entry_deltas_iff o n = elim (Bool-cases (eq_text o.name n.name)) [
  | inl a ↦ elim (Bool-cases (eq_text o.state n.state)) [
    | inl b ↦
        rw (a, b)
          (
            λ h. record {
              name = eq_text_sound o.name n.name a;
              state = eq_text_sound o.state n.state b;
              tags = same_tags o.tags n.tags h;
            },
            λ s. no_tag_deltas o.tags n.tags s.tags,
          )
    | inr b ↦
        rw (a, b) (λ h. ground arith, λ s. ground (arith, eq_text_iff o.state n.state, s.state))
  ]
  | inr a ↦ rw a (λ h. ground arith, λ s. ground (arith, eq_text_iff o.name n.name, s.name))
]
