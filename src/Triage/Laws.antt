-- ===== src/Triage/Laws.antt =====
-- Whom the triage blames, and the order of its report.
use aws_explorer.Prelude.{
  ltb, ◌==◌, ◌≡◌, refl, ◌⊎◌, inl, inr, Bool, true, false, not, none, some, List, [], ◌∷◌, ◌++◌, ◌<◌,
  Memᴰ, arith, Bool-cases, Option-cases, if◌then◌else◌, find, find-first, find-none, map,
  IsWeakOrder, sort, sort-IsSorted, sort-perm, IsOrderedBy, IsSorted-IsOrderedBy, Perm,
}
use aws_explorer.Go.Text.{Text}
use aws_explorer.Go.Order.{then_by, by_field}
use aws_explorer.Go.Lex.{Lex, by_all, by_all-Lex, by_all-IsWeakOrder}
use aws_explorer.Triage.{
  Container, Task, Record, has_failed, has_reason, or_else, culprit, record_of, less_record,
  classify,
}

-- No container of the list passes the test.
abbrev pub NoneOf : (Container → Bool) → List Container → Type 0
NoneOf p cs = (x : Container) → Memᴰ x cs → p x ≡ false

-- `c` stands after the containers `before`: the first that failed, or with none that failed the
-- first with a reason, or with none of either the first of all.
abbrev pub IsChosen : List Container → List Container → Container → Type 0
IsChosen cs before c =
    ((has_failed c ≡ true) × NoneOf has_failed before)
    ⊎ (NoneOf has_failed cs × (has_reason c ≡ true) × NoneOf has_reason before)
    ⊎ (NoneOf has_failed cs × NoneOf has_reason cs × (before ≡ []))

-- The container to blame, with its place in the list.
abbrev pub IsCulprit : List Container → Container → Type 0
IsCulprit cs c =
    (before : List Container) × (after : List Container) × (cs ≡ before ++ c ∷ after)
    × IsChosen cs before c

-- A task without containers has no culprit. Of every other task the culprit is the first container
-- that failed, or if none failed the first with a reason, or if none has one the first container.
pub culprit-IsCulprit :
    (cs : List Container)
    → ((cs ≡ []) × (culprit cs ≡ none)) ⊎ ((c : Container) × (culprit cs ≡ some c) × IsCulprit cs c)
unfolding culprit or_else
culprit-IsCulprit [] = inl (refl, refl)
culprit-IsCulprit (c ∷ cs) = elim (Option-cases (find has_failed (c ∷ cs))) [
  | inr (x, e) ↦
      let (before, after, q, y, n) = find-first has_failed (c ∷ cs) x e in
      inr (x, rw e refl, (before, after, q, inl (y, n)))
  | inl e ↦
      let none_failed = find-none has_failed (c ∷ cs) e in
      elim (Option-cases (find has_reason (c ∷ cs))) [
        | inr (x, e') ↦
            let (before, after, q, y, n) = find-first has_reason (c ∷ cs) x e' in
            inr (x, rw (e, e') refl, (before, after, q, inr (inl (none_failed, y, n))))
        | inl e' ↦
            let none_explained = find-none has_reason (c ∷ cs) e' in
            inr (c, rw (e, e') refl, ([], cs, refl, inr (inr (none_failed, none_explained, refl))))
      ]
]

abbrev pub place_order : List (Record → Text)
place_order =
    (λ (r : Record). r.region) ∷ (λ (r : Record). r.cluster) ∷ (λ (r : Record). r.task) ∷ []

less_record-place :
    (a b : Record)
    → less_record a b ≡ (
        if not (a.stopped_at == b.stopped_at)
        then ltb b.stopped_at a.stopped_at
        else by_all place_order a b)
unfolding less_record by_all then_by by_field
less_record-place a b = ground arith

less_record-IsWeakOrder : IsWeakOrder less_record
less_record-IsWeakOrder = record {
  asym = λ a b h. ground (
    arith,
    (by_all-IsWeakOrder place_order).asym a b,
    less_record-place a b,
    less_record-place b a,
  );
  trans = λ a b c h k. ground (
    arith,
    (by_all-IsWeakOrder place_order).trans a b c,
    less_record-place b a,
    less_record-place c b,
    less_record-place c a,
  );
}

-- The first stopped later, or at the same time and its region, cluster and task come first or are
-- the same.
abbrev pub IsNewer : Record → Record → Type 0
IsNewer a b = (b.stopped_at < a.stopped_at) ⊎ ((a.stopped_at ≡ b.stopped_at) × Lex place_order a b)

not_less-IsNewer : (a b : Record) → less_record b a ≡ false → IsNewer a b
not_less-IsNewer a b h = elim (Bool-cases (a.stopped_at == b.stopped_at)) [
  | inl e ↦
      let q : a.stopped_at ≡ b.stopped_at = ground arith in
      inr (q, by_all-Lex place_order a b (ground (arith, less_record-place b a)))
  | inr e ↦ inl (ground (arith, less_record-place b a))
]

-- The report is a rearrangement of the records of the tasks, one for each, in which every record
-- stopped later than each one after it, or at the same time and then by region, cluster and task.
pub classify-IsOrderedBy :
    (tasks : List Task)
    → IsOrderedBy IsNewer (classify tasks) × Perm (classify tasks) (map record_of tasks)
unfolding classify
classify-IsOrderedBy tasks =
    let records = map record_of tasks in
    (
      IsSorted-IsOrderedBy less_record IsNewer not_less-IsNewer (sort less_record records)
          (sort-IsSorted less_record less_record-IsWeakOrder records),
      sort-perm less_record records,
    )
