-- ===== src/Prelude/Sort.antt =====
-- `sort.SliceStable`: the stable insertion sort by a `less` test.
use mathlib.Core.Path.{◌≡◌, refl, ap, sym, subst, ◌∙◌}
use mathlib.Core.Logic.{◌⊎◌, inl, inr, ⊎_elim, ◌↔◌}
use mathlib.Core.Bool.{Bool, true, false, false≢true}
use mathlib.Core.Option.{some}
use mathlib.Core.List.{List, [], ◌∷◌, Memᴰ, Perm}
use mathlib.Core.List.Memᴰ
use mathlib.Core.List.Perm
use native.Mathlib.Omega.{arith}
use aws_explorer.Prelude.Tests.{if◌then◌else◌, Bool-cases}
use aws_explorer.Prelude.Lists.{find, nil_of, nil_not}

-- What `sort` asks of a `less` test: a strict weak order.
pub record IsWeakOrder {ℓ} {A : Type ℓ} (less : A → A → Bool) : Type ℓ where
  pub asym : (x y : A) → less x y ≡ true → less y x ≡ false
  pub trans : (x y z : A) → less y x ≡ false → less z y ≡ false → less z x ≡ false

module _ {ℓ} {A : Type ℓ} (less : A → A → Bool) where
  unfoldable pub insert : A → List A → List A
  insert x [] = x ∷ []
  insert x (y ∷ ys) = let later = y ∷ insert x ys in if less y x then later else x ∷ y ∷ ys

  unfoldable pub sort : List A → List A
  unfolding insert
  sort [] = []
  sort (x ∷ xs) = insert x (sort xs)

  insert-perm : (x : A) (ys : List A) → Perm (insert x ys) (x ∷ ys)
  unfolding insert
  insert-perm x [] = Perm.refl _
  insert-perm x (y ∷ ys) = elim (Bool-cases (less y x)) [
    | inl e ↦ rw e (Perm.trans (Perm.cons y (insert-perm x ys)) (Perm.swap x y ys))
    | inr e ↦ rw e (Perm.refl _)
  ]

  -- Sorting keeps every element, as often as it stands there.
  pub sort-perm : (xs : List A) → Perm (sort xs) xs
  unfolding sort
  sort-perm [] = Perm.refl _
  sort-perm (x ∷ xs) = Perm.trans (insert-perm x (sort xs)) (Perm.cons x (sort-perm xs))

  pub Memᴰ-insert : {z : A} (x : A) (ys : List A) → Memᴰ z (insert x ys) → (z ≡ x) ⊎ Memᴰ z ys
  unfolding insert
  Memᴰ-insert x [] m = Memᴰ.cases_cons m
  Memᴰ-insert x (y ∷ ys) m = elim (Bool-cases (less y x)) [
    | inl e ↦
        ⊎_elim (λ q. inr (Memᴰ.head q))
          (λ t. ⊎_elim inl (λ t'. inr (Memᴰ.tail t')) (Memᴰ-insert x ys t))
          (Memᴰ.cases_cons (rw e at m))
    | inr e ↦ Memᴰ.cases_cons (rw e at m)
  ]

  Memᴰ-insert_head : (x : A) (ys : List A) → Memᴰ x (insert x ys)
  unfolding insert
  Memᴰ-insert_head x [] = Memᴰ.head refl
  Memᴰ-insert_head x (y ∷ ys) = elim (Bool-cases (less y x)) [
    | inl e ↦ rw e (Memᴰ.tail (Memᴰ-insert_head x ys))
    | inr e ↦ rw e (Memᴰ.head refl)
  ]

  Memᴰ-insert_tail : {z : A} (x : A) (ys : List A) → Memᴰ z ys → Memᴰ z (insert x ys)
  unfolding insert
  Memᴰ-insert_tail x [] m = absurd (Memᴰ.not-nil m)
  Memᴰ-insert_tail x (y ∷ ys) m = elim (Bool-cases (less y x)) [
    | inl e ↦ rw e (⊎_elim Memᴰ.head (λ t. Memᴰ.tail (Memᴰ-insert_tail x ys t)) (Memᴰ.cases_cons m))
    | inr e ↦ rw e (Memᴰ.tail m)
  ]

  pub Memᴰ-sort : {z : A} (xs : List A) → Memᴰ z (sort xs) → Memᴰ z xs
  unfolding sort
  Memᴰ-sort [] m = m
  Memᴰ-sort (x ∷ xs) m =
      ⊎_elim Memᴰ.head (λ t. Memᴰ.tail (Memᴰ-sort xs t)) (Memᴰ-insert x (sort xs) m)

  pub Memᴰ-sort_of : {z : A} (xs : List A) → Memᴰ z xs → Memᴰ z (sort xs)
  unfolding sort
  Memᴰ-sort_of [] m = m
  Memᴰ-sort_of (x ∷ xs) m =
      ⊎_elim (λ q. subst (λ w. Memᴰ w (insert x (sort xs))) (sym q) (Memᴰ-insert_head x (sort xs)))
        (λ t. Memᴰ-insert_tail x (sort xs) (Memᴰ-sort_of xs t)) (Memᴰ.cases_cons m)

  pub sort_nil : (xs : List A) → (sort xs ≡ []) ↔ (xs ≡ [])
  sort_nil xs = (
    λ e. nil_of xs (λ x m. nil_not (sort xs) e (Memᴰ-sort_of xs m)),
    λ e. nil_of (sort xs) (λ x m. nil_not xs e (Memᴰ-sort xs m)),
  )

  -- No later element is less than an earlier one.
  abbrev pub IsSorted : List A → Type ℓ
  IsSorted [] = Unit
  IsSorted (x ∷ xs) = ((y : A) → Memᴰ y xs → less y x ≡ false) × IsSorted xs

  module _ (order : IsWeakOrder less) where
    insert-IsSorted : (x : A) (ys : List A) → IsSorted ys → IsSorted (insert x ys)
    unfolding insert
    insert-IsSorted x [] s = ((λ y m. absurd (Memᴰ.not-nil m)), tt)
    insert-IsSorted x (y ∷ ys) s = elim (Bool-cases (less y x)) [
      | inl e ↦ rw e (
        (λ z m.
            ⊎_elim (λ q. subst (λ w. less w y ≡ false) (sym q) (order.asym y x e)) (s.0 z)
              (Memᴰ-insert x ys m)),
        insert-IsSorted x ys s.1,
      )
      | inr e ↦ rw e (
        (λ z m.
            ⊎_elim (λ q. subst (λ w. less w x ≡ false) (sym q) e)
              (λ t. order.trans x y z e (s.0 z t)) (Memᴰ.cases_cons m)),
        s,
      )
    ]

    pub sort-IsSorted : (xs : List A) → IsSorted (sort xs)
    unfolding sort
    sort-IsSorted [] = tt
    sort-IsSorted (x ∷ xs) = insert-IsSorted x (sort xs) (sort-IsSorted xs)

  -- The first element of a sorted list that passes a test is a least one that passes it.
  pub find-IsSorted :
      (p : A → Bool) (xs : List A) {x : A}
      → IsSorted xs
      → find p xs ≡ some x
      → (y : A) → Memᴰ y xs
      → p y ≡ true
      → (y ≡ x) ⊎ (less y x ≡ false)
  unfolding find
  find-IsSorted p [] s h y m q = absurd (Memᴰ.not-nil m)
  find-IsSorted p (z ∷ xs) {x} s h y m q = elim (Bool-cases (p z)) [
    | inl e ↦
        let zx : z ≡ x = ground arith in
        ⊎_elim (λ w. inl (w ∙ zx)) (λ t. inr (subst (λ w. less y w ≡ false) zx (s.0 y t)))
          (Memᴰ.cases_cons m)
    | inr e ↦
        ⊎_elim (λ w. absurd (false≢true (sym e ∙ sym (ap p w) ∙ q)))
          (λ t. find-IsSorted p xs s.1 (rw e at h) y t q) (Memᴰ.cases_cons m)
  ]
