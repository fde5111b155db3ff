-- ===== src/Prelude/Ordered.antt =====
-- Lists in the order of a relation, and what the stable sort makes of one.
use mathlib.Core.Path.{◌≡◌, refl, sym, ap, subst, ◌∙◌}
use mathlib.Core.Logic.{◌⊎◌, inl, inr, ⊎_elim}
use mathlib.Core.Bool.{Bool, true, false}
use mathlib.Core.List.{List, [], ◌∷◌, ◌++◌, Memᴰ}
use mathlib.Core.List.Memᴰ
use aws_explorer.Prelude.Tests.{Bool-cases}
use aws_explorer.Prelude.Lists.{filter, Memᴰ-filter}
use aws_explorer.Prelude.Sort.{IsWeakOrder, IsSorted, insert, sort, Memᴰ-insert, Memᴰ-sort}

module _ {ℓ} {A : Type ℓ} where
  -- Every element stands in the relation to all that come after it.
  abbrev pub IsOrderedBy : (A → A → Type ℓ) → List A → Type ℓ
  IsOrderedBy R [] = Unit
  IsOrderedBy R (x ∷ xs) = ((y : A) → Memᴰ y xs → R x y) × IsOrderedBy R xs

  pub IsOrderedBy-weaken :
      (R S : A → A → Type ℓ)
      → ((x y : A) → R x y → S x y)
      → (xs : List A) → IsOrderedBy R xs
      → IsOrderedBy S xs
  IsOrderedBy-weaken R S f [] o = tt
  IsOrderedBy-weaken R S f (x ∷ xs) o = ((λ y m. f x y (o.0 y m)), IsOrderedBy-weaken R S f xs o.1)

  pub IsOrderedBy-and :
      (R S T : A → A → Type ℓ)
      → ((x y : A) → R x y → S x y → T x y)
      → (xs : List A) → IsOrderedBy R xs
      → IsOrderedBy S xs
      → IsOrderedBy T xs
  IsOrderedBy-and R S T f [] o p = tt
  IsOrderedBy-and R S T f (x ∷ xs) o p =
      ((λ y m. f x y (o.0 y m) (p.0 y m)), IsOrderedBy-and R S T f xs o.1 p.1)

  pub append-IsOrderedBy :
      (R : A → A → Type ℓ) (xs ys : List A)
      → IsOrderedBy R xs
      → IsOrderedBy R ys
      → ((x y : A) → Memᴰ x xs → Memᴰ y ys → R x y)
      → IsOrderedBy R (xs ++ ys)
  append-IsOrderedBy R [] ys o p c = p
  append-IsOrderedBy R (x ∷ xs) ys o p c = (
    λ y m. ⊎_elim (o.0 y) (c x y (Memᴰ.head refl)) (Memᴰ.append_cases xs m),
    append-IsOrderedBy R xs ys o.1 p (λ z y m. c z y (Memᴰ.tail m)),
  )

  pub filter-IsOrderedBy :
      (R : A → A → Type ℓ) (p : A → Bool) (xs : List A)
      → IsOrderedBy R xs
      → IsOrderedBy R (filter p xs)
  unfolding filter
  filter-IsOrderedBy R p [] o = tt
  filter-IsOrderedBy R p (x ∷ xs) o =
      let rest = filter-IsOrderedBy R p xs o.1 in
      elim (Bool-cases (p x)) [
        | inl e ↦ rw e ((λ y m. o.0 y (Memᴰ-filter p xs m).0), rest)
        | inr e ↦ rw e rest
      ]

-- A relation in both directions does not depend on the order, so sorting by any test keeps it.
module _ {ℓ} {A : Type ℓ} (less : A → A → Bool) (R : A → A → Type ℓ)
    (both : (x y : A) → R x y → R y x) where
  insert-IsOrderedBy_sym :
      (x : A) (ys : List A)
      → ((y : A) → Memᴰ y ys → R x y)
      → IsOrderedBy R ys
      → IsOrderedBy R (insert less x ys)
  unfolding insert
  insert-IsOrderedBy_sym x [] b s = ((λ y m. absurd (Memᴰ.not-nil m)), tt)
  insert-IsOrderedBy_sym x (y ∷ ys) b s = elim (Bool-cases (less y x)) [
    | inl e ↦ rw e (
      (λ z m.
          ⊎_elim (λ q. subst (R y) (sym q) (both x y (b y (Memᴰ.head refl)))) (s.0 z)
            (Memᴰ-insert less x ys m)),
      insert-IsOrderedBy_sym x ys (λ z m. b z (Memᴰ.tail m)) s.1,
    )
    | inr e ↦ rw e (b, s)
  ]

  pub sort-IsOrderedBy_sym : (xs : List A) → IsOrderedBy R xs → IsOrderedBy R (sort less xs)
  unfolding sort
  sort-IsOrderedBy_sym [] b = tt
  sort-IsOrderedBy_sym (x ∷ xs) b =
      insert-IsOrderedBy_sym x (sort less xs) (λ y m. b.0 y (Memᴰ-sort less xs m))
        (sort-IsOrderedBy_sym xs b.1)

module _ {ℓ} {A : Type ℓ} (less : A → A → Bool) (order : IsWeakOrder less)
    (B : A → A → Type ℓ) where
  -- The later one is not less; of two that tie, the first was first before.
  abbrev pub IsStably : A → A → Type ℓ
  IsStably x y = (less y x ≡ false) × ((less x y ≡ true) ⊎ B x y)

  insert-IsOrderedBy :
      (x : A) (ys : List A)
      → ((y : A) → Memᴰ y ys → B x y)
      → IsOrderedBy IsStably ys
      → IsOrderedBy IsStably (insert less x ys)
  unfolding insert
  insert-IsOrderedBy x [] b s = ((λ y m. absurd (Memᴰ.not-nil m)), tt)
  insert-IsOrderedBy x (y ∷ ys) b s = elim (Bool-cases (less y x)) [
    | inl e ↦ rw e (
      (λ z m.
          ⊎_elim (λ q. subst (IsStably y) (sym q) (order.asym y x e, inl e)) (s.0 z)
            (Memᴰ-insert less x ys m)),
      insert-IsOrderedBy x ys (λ z m. b z (Memᴰ.tail m)) s.1,
    )
    | inr e ↦ rw e (
      (λ z m. (
        ⊎_elim (λ q. ap (λ w. less w x) q ∙ e) (λ t. order.trans x y z e (s.0 z t).0)
            (Memᴰ.cases_cons m),
        inr (b z m),
      )),
      s,
    )
  ]

  pub sort-IsOrderedBy : (xs : List A) → IsOrderedBy B xs → IsOrderedBy IsStably (sort less xs)
  unfolding sort
  sort-IsOrderedBy [] b = tt
  sort-IsOrderedBy (x ∷ xs) b =
      insert-IsOrderedBy x (sort less xs) (λ y m. b.0 y (Memᴰ-sort less xs m))
        (sort-IsOrderedBy xs b.1)

module _ {ℓ} {A : Type ℓ} (less : A → A → Bool) where
  -- A list sorted by a test, in the order that the test stands for.
  pub IsSorted-IsOrderedBy :
      (R : A → A → Type ℓ)
      → ((x y : A) → less y x ≡ false → R x y)
      → (xs : List A) → IsSorted less xs
      → IsOrderedBy R xs
  IsSorted-IsOrderedBy R f [] s = tt
  IsSorted-IsOrderedBy R f (x ∷ xs) s = ((λ y m. f x y (s.0 y m)), IsSorted-IsOrderedBy R f xs s.1)
