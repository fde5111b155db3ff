-- ===== src/Inventory/Diff/Same.antt =====
-- When a diff is empty.
use mathlib.Core.List.Memᴰ
use aws_explorer.Prelude.{
  ◌≡◌, refl, sym, ◌∙◌, subst, ◌↔◌, ◌⊎◌, inl, inr, ⊎_elim, Option, none, some, [], Memᴰ, arith,
  List-cases,
}
use aws_explorer.Go.Text.{Text}
use aws_explorer.Inventory.Types.{Entry, Snapshot, Change}
use aws_explorer.Inventory.Diff.{entry_deltas, diff}
use aws_explorer.Inventory.Diff.Laws.{latest, IsSame, entry_deltas_iff}
use aws_explorer.Inventory.Diff.Changes.{IsChange, Changes, Changes-key, diff_iff}

-- Nothing changed: there is no entry, or there are two that agree.
abbrev pub IsUnchanged : Option Entry → Option Entry → Type 0
IsUnchanged none none = Unit
IsUnchanged none (some n) = ⊥
IsUnchanged (some o) none = ⊥
IsUnchanged (some o) (some n) = IsSame o n

changed_or_not : (o n : Option Entry) → IsUnchanged o n ⊎ ((c : Change) × IsChange o n c)
changed_or_not none none = inl tt
changed_or_not none (some n) = inr (_, IsChange.appears n)
changed_or_not (some o) none = inr (_, IsChange.disappears o)
changed_or_not (some o) (some n) = elim (List-cases (entry_deltas o n)) [
  | inl e ↦ inl ((entry_deltas_iff o n).0 e)
  | inr (d, ds, e) ↦
      inr (
        _,
        IsChange.differs o n (λ s. let z = sym ((entry_deltas_iff o n).1 s) ∙ e in ground arith),
      )
]

-- both at once is absurd
not_both : (o n : Option Entry) (c : Change) → IsChange o n c → IsUnchanged o n → ⊥
not_both o n c (IsChange.appears e) u = u
not_both o n c (IsChange.disappears e) u = u
not_both o n c (IsChange.differs a b d) u = d u

-- A diff is empty if and only if, for every key, the last entries of the two snapshots are both
-- missing or agree on name, state and tags.
pub diff-nil_iff :
    (old neu : Snapshot)
    → (diff old neu ≡ []) ↔ ((k : Text) → IsUnchanged (latest k old.entries) (latest k neu.entries))
diff-nil_iff old neu = (
  λ h k.
      ⊎_elim (λ u. u)
        (λ (c, d).
          let d' = subst (λ j. Changes old neu j c) (sym (Changes-key old neu k c d)) d in
          absurd (Memᴰ.not-nil (subst (Memᴰ c) h ((diff_iff old neu c).1 d'))))
        (changed_or_not (latest k old.entries) (latest k neu.entries)),
  λ u.
      ⊎_elim (λ e. e)
        (λ (c, cs, e). absurd (
          not_both _ _ c ((diff_iff old neu c).0 (subst (Memᴰ c) (sym e) (Memᴰ.head refl)))
            (u c.key)))
        (List-cases (diff old neu)),
)

agrees : (o : Option Entry) → IsUnchanged o o
agrees none = tt
agrees (some o) = record { name = refl; state = refl; tags = λ k. refl }

-- A diff of two snapshots of the same entries is empty.
pub diff-same : (s t : Snapshot) → s.entries ≡ t.entries → diff s t ≡ []
diff-same s t e =
    (diff-nil_iff s t).1
      (λ k. subst (λ es. IsUnchanged (latest k s.entries) (latest k es)) e (agrees _))
