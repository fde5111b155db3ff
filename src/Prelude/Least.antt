-- ===== src/Prelude/Least.antt =====
-- A search in a list that the stable sort has ordered, said of the list before the sort.
use mathlib.Core.Path.{◌≡◌, refl, ap, sym, subst, ◌∙◌}
use mathlib.Core.Logic.{◌⊎◌, inl, inr, ⊎_elim}
use mathlib.Core.Bool.{Bool, true, false}
use mathlib.Core.Option.{none, some}
use mathlib.Core.List.{List, [], ◌∷◌, ◌++◌, Memᴰ}
use mathlib.Core.List.Memᴰ
use native.Mathlib.Omega.{arith}
use aws_explorer.Prelude.Tests.{Bool-cases}
use aws_explorer.Prelude.Lists.{find, find-some, find-none}
use aws_explorer.Prelude.Sort.{IsWeakOrder, IsSorted, insert, sort, sort-IsSorted, Memᴰ-sort}

module _ {ℓ} {A : Type ℓ} (less : A → A → Bool) (p : A → Bool) where
  -- `x` passes and stands in the list where no element that passes is less, nor any before it as
  -- small.
  abbrev pub IsFirstLeast : List A → A → Type ℓ
  IsFirstLeast xs x =
      (before : List A) × (after : List A) × (xs ≡ before ++ x ∷ after)
      × (p x ≡ true)
      × ((y : A) → Memᴰ y before → p y ≡ true → less x y ≡ true)
      × ((y : A) → Memᴰ y after → p y ≡ true → less y x ≡ false)

  module _ (order : IsWeakOrder less) where
    find-insert_fail : (x : A) (ys : List A) → p x ≡ false → find p (insert less x ys) ≡ find p ys
    unfolding insert find
    find-insert_fail x [] h = rw h refl
    find-insert_fail x (y ∷ ys) h = elim (Bool-cases (less y x)) [
      | inl e ↦ rw (e, find-insert_fail x ys h) refl
      | inr e ↦ rw (e, h) refl
    ]

    find-insert_less :
        (x z : A) (ys : List A)
        → find p ys ≡ some z
        → IsSorted less ys
        → less z x ≡ true
        → find p (insert less x ys) ≡ some z
    unfolding insert find
    find-insert_less x z [] f s h = ground arith
    find-insert_less x z (y ∷ ys) f s h = elim (Bool-cases (p y)) [
      | inl e ↦
          let q : some y ≡ some z = rw e at f in
          let yz : y ≡ z = ground arith in rw (subst (λ w. less w x ≡ true) (sym yz) h, e) q
      | inr e ↦
          let f' = rw e at f in
          elim (Bool-cases (less y x)) [
            | inl g ↦ rw (g, e) (find-insert_less x z ys f' s.1 h)
            | inr g ↦
                let m = (find-some p ys f').0 in
                let k = order.trans x y z g (s.0 z m) in absurd (ground arith)
          ]
    ]

    find-insert_keep :
        (x : A) (ys : List A)
        → p x ≡ true
        → ((y : A) → Memᴰ y ys → p y ≡ true → less y x ≡ false)
        → find p (insert less x ys) ≡ some x
    unfolding insert find
    find-insert_keep x [] h n = rw h refl
    find-insert_keep x (y ∷ ys) h n = elim (Bool-cases (less y x)) [
      | inl e ↦ elim (Bool-cases (p y)) [
        | inl g ↦ let k = n y (Memᴰ.head refl) g in absurd (ground arith)
        | inr g ↦ rw (e, g) (find-insert_keep x ys h (λ z m. n z (Memᴰ.tail m)))
      ]
      | inr e ↦ rw (e, h) refl
    ]

    less_irrefl : (z : A) → less z z ≡ false
    less_irrefl z = elim (Bool-cases (less z z)) [ inl e ↦ order.asym z z e | inr e ↦ e ]

    not_less-least :
        (xs : List A) (z : A)
        → IsFirstLeast xs z
        → (w : A) → Memᴰ w xs
        → p w ≡ true
        → less w z ≡ false
    not_less-least xs z (before, after, q, y, b, a) w m h =
        ⊎_elim (λ t. order.asym z w (b w t h))
          (λ t.
            ⊎_elim (λ r. subst (λ v. less v z ≡ false) (sym r) (less_irrefl z)) (λ u. a w u h)
              (Memᴰ.cases_cons t))
          (Memᴰ.append_cases before (subst (Memᴰ w) q m))

    -- An element that passes, put in front of a list.
    least_cons :
        (x : A) (xs : List A)
        → p x ≡ true
        → (((y : A) → Memᴰ y xs → p y ≡ false) × (find p (sort less xs) ≡ none))
          ⊎ ((z : A) × (find p (sort less xs) ≡ some z) × IsFirstLeast xs z)
        → (z : A) × (find p (insert less x (sort less xs)) ≡ some z) × IsFirstLeast (x ∷ xs) z
    least_cons x xs e (inl (n, f)) = (
      x,
      find-insert_keep x (sort less xs) e
          (λ y m g. let k = find-none p (sort less xs) f y m in absurd (ground arith)),
      (
        [],
        xs,
        refl,
        e,
        (λ y m. absurd (Memᴰ.not-nil m)),
        (λ y m g. let k = n y m in absurd (ground arith)),
      ),
    )
    least_cons x xs e (inr (z, f, (before, after, q, y, b, a))) = elim (Bool-cases (less z x)) [
      | inl g ↦ (
        z,
        find-insert_less x z (sort less xs) f (sort-IsSorted less order xs) g,
        (
          x ∷ before,
          after,
          ap (◌∷◌ x) q,
          y,
          (λ w m h.
              ⊎_elim (λ r. subst (λ v. less z v ≡ true) (sym r) g) (λ t. b w t h)
                (Memᴰ.cases_cons m)),
          a,
        ),
      )
      | inr g ↦
          let later : (w : A) → Memᴰ w xs → p w ≡ true → less w x ≡ false =
            λ w m h. order.trans x z w g (not_less-least xs z (before, after, q, y, b, a) w m h) in
          (
            x,
            find-insert_keep x (sort less xs) e (λ w m h. later w (Memᴰ-sort less xs m) h),
            ([], xs, refl, e, (λ w m. absurd (Memᴰ.not-nil m)), later),
          )
    ]

    -- The first element that passes after the sort is the first of the least that pass.
    pub find-sort :
        (xs : List A)
        → (((x : A) → Memᴰ x xs → p x ≡ false) × (find p (sort less xs) ≡ none))
          ⊎ ((x : A) × (find p (sort less xs) ≡ some x) × IsFirstLeast xs x)
    unfolding sort find
    find-sort [] = inl ((λ x m. absurd (Memᴰ.not-nil m)), refl)
    find-sort (x ∷ xs) = elim (Bool-cases (p x)) [
      | inr e ↦
          ⊎_elim
            (λ (n, f). inl (
              (λ y m. ⊎_elim (λ q. ap p q ∙ e) (n y) (Memᴰ.cases_cons m)),
              find-insert_fail x (sort less xs) e ∙ f,
            ))
            (λ (z, f, (before, after, q, y, b, a)). inr (
              z,
              find-insert_fail x (sort less xs) e ∙ f,
              (
                x ∷ before,
                after,
                ap (◌∷◌ x) q,
                y,
                (λ w m g.
                    ⊎_elim (λ r. let g' : p x ≡ true = ap p (sym r) ∙ g in absurd (ground arith))
                      (λ t. b w t g) (Memᴰ.cases_cons m)),
                a,
              ),
            ))
            (find-sort xs)
      | inl e ↦ inr (least_cons x xs e (find-sort xs))
    ]
