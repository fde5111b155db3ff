-- ===== src/Vpc/SnapshotDiff/Laws.antt =====
-- When `diffSnapshots` reports nothing.
use aws_explorer.Prelude.{
  ◌≡◌, refl, ◌↔◌, inl, inr, not, Option, none, some, List, [], ◌∷◌, Memᴰ, arith, Bool-cases,
  Option-cases, nil_of, nil_not, sort_nil, flat_map_nil, Memᴰ-filter, Memᴰ-filter_of, sort,
  Memᴰ-sort_of,
}
use aws_explorer.Go.Text.{Text, less_text, member, member_iff}
use aws_explorer.Go.Map.{Dict, get, union_keys, Memᴰ-union_keys}
use aws_explorer.Vpc.Types.{Snapshot}
use aws_explorer.Vpc.SnapshotDiff.Facts.{DiffSection, diff_sections}
use aws_explorer.Vpc.SnapshotDiff.{
  modified_change, facts_beyond, fact_diff, diff_resource, diff_one_section, less_change,
  diff_snapshots,
}

-- Both snapshots lack the resource, or both have it with the same facts.
abbrev pub SameFacts : Option (List Text) → Option (List Text) → Type 0
SameFacts none none = Unit
SameFacts none (some _) = ⊥
SameFacts (some _) none = ⊥
SameFacts (some o) (some n) = (f : Text) → Memᴰ f o ↔ Memᴰ f n

beyond_nil :
    (fs known : List Text) → (facts_beyond fs known ≡ []) ↔ ((f : Text) → Memᴰ f fs → Memᴰ f known)
unfolding facts_beyond
beyond_nil fs known = (
  λ e f m. elim (Bool-cases (member f known)) [
    | inl t ↦ (member_iff f known).0 t
    | inr t ↦ absurd (
        nil_not _ ((sort_nil less_text _).0 e)
          (Memᴰ-filter_of (λ f. not (member f known)) fs m (rw t refl)))
  ],
  λ h. (sort_nil less_text _).1 (
      nil_of _ (λ f m.
        let (m', e) = Memᴰ-filter (λ f. not (member f known)) fs m in
        let t = (member_iff f known).1 (h f m') in ground arith)),
)

pair_nil :
    (type id : Text) (a r : List Text)
    → (modified_change type id (a, r) ≡ []) ↔ ((a ≡ []) × (r ≡ []))
unfolding modified_change
pair_nil type id [] [] = (λ e. (refl, refl), λ e. refl)
pair_nil type id (f ∷ fs) r = (λ e. ground arith, λ e. ground (arith, e.0))
pair_nil type id [] (f ∷ fs) = (λ e. ground arith, λ e. ground (arith, e.1))

diff_resource_nil :
    (type id : Text) (o n : Option (List Text)) → (diff_resource type id o n ≡ []) ↔ SameFacts o n
unfolding diff_resource fact_diff
diff_resource_nil type id none none = (λ e. tt, λ e. refl)
diff_resource_nil type id none (some n) = (λ e. ground arith, λ e. absurd e)
diff_resource_nil type id (some o) none = (λ e. ground arith, λ e. absurd e)
diff_resource_nil type id (some o) (some n) =
    let (f, g) = pair_nil type id (facts_beyond n o) (facts_beyond o n) in
    (
      λ e t. ((beyond_nil o n).0 (f e).1 t, (beyond_nil n o).0 (f e).0 t),
      λ h. g ((beyond_nil n o).1 (λ t. (h t).1), (beyond_nil o n).1 (λ t. (h t).0)),
    )

same_or_missing :
    (old neu : Dict (List Text)) (id : Text)
    → (Memᴰ id (union_keys old neu) → SameFacts (get id old) (get id neu))
    → SameFacts (get id old) (get id neu)
same_or_missing old neu id h = elim (Option-cases (get id old)) [
  | inr (o, e) ↦ h (Memᴰ-union_keys id old neu (inl e))
  | inl e ↦ elim (Option-cases (get id neu)) [
    | inr (n, e') ↦ h (Memᴰ-union_keys id old neu (inr e'))
    | inl e' ↦ rw (e, e') tt
  ]
]

section_nil :
    (type : Text) (old neu : Dict (List Text))
    → (diff_one_section type old neu ≡ []) ↔ ((id : Text) → SameFacts (get id old) (get id neu))
unfolding diff_one_section
section_nil type old neu =
    let (f, g) =
      flat_map_nil (λ id. diff_resource type id (get id old) (get id neu))
        (sort less_text (union_keys old neu)) in
    (
      λ e id. same_or_missing old neu id (λ m.
          (diff_resource_nil type id (get id old) (get id neu)).0
            (f e id (Memᴰ-sort_of less_text _ m))),
      λ h. g (λ id m. (diff_resource_nil type id (get id old) (get id neu)).1 (h id)),
    )

-- The change report is empty if and only if for every kind of resource and every ID both snapshots
-- lack the resource, or both have it with the same facts.
pub diff_snapshots_nil :
    (old neu : Snapshot)
    → (diff_snapshots old neu ≡ []) ↔ (
        (sec : DiffSection)
        → Memᴰ sec diff_sections
        → (id : Text) → SameFacts (get id (sec.facts old)) (get id (sec.facts neu)))
unfolding diff_snapshots
diff_snapshots_nil old neu =
    let (f, g) =
      flat_map_nil
        (λ (sec : DiffSection). diff_one_section sec.name (sec.facts old) (sec.facts neu))
        diff_sections in
    let (f', g') = sort_nil less_change _ in
    (
      λ e sec m. (section_nil sec.name (sec.facts old) (sec.facts neu)).0 (f (f' e) sec m),
      λ h. g' (g (λ sec m. (section_nil sec.name (sec.facts old) (sec.facts neu)).1 (h sec m))),
    )
