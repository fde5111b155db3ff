-- ===== src/Prelude/Lists.antt =====
-- Lists measured by native numbers, membership and searches.
use Prim.Native.Nat.{ℕ, zero, suc, ◌+◌}
use mathlib.Core.Path.{◌≡◌, refl, ap, sym, subst, ◌∙◌}
use mathlib.Core.Logic.{◌⊎◌, inl, inr, ⊎_elim, ◌↔◌}
use mathlib.Core.Bool.{Bool, true, false, ◌||◌}
use mathlib.Core.Option.{Option, none, some}
use mathlib.Core.List.{List, [], ◌∷◌, ◌++◌, Memᴰ, map}
use mathlib.Core.List.Memᴰ
use native.Mathlib.Omega.{arith}
use aws_explorer.Prelude.Tests.{if◌then◌else◌, Bool-cases}

module _ {ℓ} {A : Type ℓ} where
  abbrev pub length : List A → ℕ
  length [] = 0
  length (_ ∷ xs) = suc (length xs)

  abbrev pub get_elem? : List A → ℕ → Option A
  get_elem? [] i = none
  get_elem? (x ∷ xs) zero = some x
  get_elem? (x ∷ xs) (suc i) = get_elem? xs i

  abbrev pub take : ℕ → List A → List A
  take zero xs = []
  take (suc n) [] = []
  take (suc n) (x ∷ xs) = x ∷ take n xs

  abbrev pub drop : ℕ → List A → List A
  drop zero xs = xs
  drop (suc n) [] = []
  drop (suc n) (x ∷ xs) = drop n xs

  pub length-append : (xs ys : List A) → length (xs ++ ys) ≡ length xs + length ys
  length-append [] ys = omega arith
  length-append (x ∷ xs) ys = omega (arith, length-append xs ys)

  pub List-cases : (xs : List A) → (xs ≡ []) ⊎ ((x : A) × (rest : List A) × (xs ≡ x ∷ rest))
  List-cases [] = inl refl
  List-cases (x ∷ xs) = inr (x, xs, refl)

  -- a loop that returns true at the first element that passes
  unfoldable pub any : (A → Bool) → List A → Bool
  any p [] = false
  any p (x ∷ xs) = p x || any p xs

  pub any→Memᴰ : (p : A → Bool) (xs : List A) → any p xs ≡ true → (x : A) × Memᴰ x xs × (p x ≡ true)
  unfolding any
  any→Memᴰ p [] h = ground arith
  any→Memᴰ p (x ∷ xs) h = elim (Bool-cases (p x)) [
    | inl e ↦ (x, Memᴰ.head refl, e)
    | inr e ↦ let (y, m, e') = any→Memᴰ p xs (rw e at h) in (y, Memᴰ.tail m, e')
  ]

  pub Memᴰ→any : (p : A → Bool) {x : A} (xs : List A) → Memᴰ x xs → p x ≡ true → any p xs ≡ true
  unfolding any
  Memᴰ→any p [] m h = absurd (Memᴰ.not-nil m)
  Memᴰ→any p (y ∷ xs) (Memᴰ.head e) h = ground (arith, ap p e)
  Memᴰ→any p (y ∷ xs) (Memᴰ.tail m) h = ground (arith, Memᴰ→any p xs m h)

  -- a loop that stops at the first element that passes
  unfoldable pub find : (A → Bool) → List A → Option A
  find p [] = none
  find p (x ∷ xs) = if p x then some x else find p xs

  pub find-some :
      (p : A → Bool) (xs : List A) {x : A} → find p xs ≡ some x → Memᴰ x xs × (p x ≡ true)
  unfolding find
  find-some p [] h = ground arith
  find-some p (y ∷ xs) {x} h = elim (Bool-cases (p y)) [
    | inl e ↦ let q : y ≡ x = ground arith in (Memᴰ.head (sym q), sym (ap p q) ∙ e)
    | inr e ↦ let (m, e') = find-some p xs (rw e at h) in (Memᴰ.tail m, e')
  ]

  -- What `find` returns is the first element that passes.
  pub find-first :
      (p : A → Bool) (xs : List A) (x : A)
      → find p xs ≡ some x
      → (before : List A) × (after : List A) × (xs ≡ before ++ x ∷ after)
        × (p x ≡ true)
        × ((y : A) → Memᴰ y before → p y ≡ false)
  unfolding find
  find-first p [] x h = ground arith
  find-first p (z ∷ xs) x h = elim (Bool-cases (p z)) [
    | inl e ↦
        let q : z ≡ x = ground arith in
        ([], xs, ap (λ w. w ∷ xs) q, sym (ap p q) ∙ e, λ y m. absurd (Memᴰ.not-nil m))
    | inr e ↦
        let (before, after, s, y, none_before) = find-first p xs x (rw e at h) in
        (
          z ∷ before,
          after,
          ap (◌∷◌ z) s,
          y,
          λ w m. ⊎_elim (λ q. ap p q ∙ e) (none_before w) (Memᴰ.cases_cons m),
        )
  ]

  pub find-none :
      (p : A → Bool) (xs : List A) → find p xs ≡ none → (x : A) → Memᴰ x xs → p x ≡ false
  unfolding find
  find-none p [] h x m = absurd (Memᴰ.not-nil m)
  find-none p (y ∷ xs) h x (Memᴰ.head e) = ap p e ∙ ground arith
  find-none p (y ∷ xs) h x (Memᴰ.tail m) = find-none p xs (ground arith) x m

  unfoldable pub filter : (A → Bool) → List A → List A
  filter p [] = []
  filter p (x ∷ xs) = let rest = filter p xs in if p x then x ∷ rest else rest

  pub Memᴰ-filter :
      (p : A → Bool) (xs : List A) {x : A} → Memᴰ x (filter p xs) → Memᴰ x xs × (p x ≡ true)
  unfolding filter
  Memᴰ-filter p [] m = absurd (Memᴰ.not-nil m)
  Memᴰ-filter p (y ∷ xs) m = elim (Bool-cases (p y)) [
    | inl e ↦
        ⊎_elim (λ q. (Memᴰ.head q, ap p q ∙ e))
          (λ t. let (m', e') = Memᴰ-filter p xs t in (Memᴰ.tail m', e'))
          (Memᴰ.cases_cons (rw e at m))
    | inr e ↦ let (m', e') = Memᴰ-filter p xs (rw e at m) in (Memᴰ.tail m', e')
  ]

  pub Memᴰ-filter_of :
      (p : A → Bool) (xs : List A) {x : A} → Memᴰ x xs → p x ≡ true → Memᴰ x (filter p xs)
  unfolding filter
  Memᴰ-filter_of p [] m h = absurd (Memᴰ.not-nil m)
  Memᴰ-filter_of p (y ∷ xs) (Memᴰ.head q) h = rw (sym (ap p q) ∙ h) (Memᴰ.head q)
  Memᴰ-filter_of p (y ∷ xs) (Memᴰ.tail m) h = elim (Bool-cases (p y)) [
    | inl e ↦ rw e (Memᴰ.tail (Memᴰ-filter_of p xs m h))
    | inr e ↦ rw e (Memᴰ-filter_of p xs m h)
  ]

  pub nil_of : (xs : List A) → ((x : A) → Memᴰ x xs → ⊥) → xs ≡ []
  nil_of [] h = refl
  nil_of (x ∷ xs) h = absurd (h x (Memᴰ.head refl))

  pub nil_not : (xs : List A) {x : A} → xs ≡ [] → Memᴰ x xs → ⊥
  nil_not [] e m = Memᴰ.not-nil m
  nil_not (y ∷ ys) e m = ground arith

  pub append_nil : (xs ys : List A) → (xs ++ ys ≡ []) ↔ ((xs ≡ []) × (ys ≡ []))
  append_nil [] ys = (λ e. (refl, e), λ e. e.1)
  append_nil (x ∷ xs) ys = (λ e. ground arith, λ e. ground (arith, e.0))

-- what a loop appends, one element after the other
module _ {ℓ κ} {A : Type ℓ} {B : Type κ} where
  unfoldable pub flat_map : (A → List B) → List A → List B
  flat_map f [] = []
  flat_map f (x ∷ xs) = f x ++ flat_map f xs

  pub Memᴰ-flat_map :
      (f : A → List B) (xs : List A) {y : B}
      → Memᴰ y (flat_map f xs)
      → (x : A) × Memᴰ x xs × Memᴰ y (f x)
  unfolding flat_map
  Memᴰ-flat_map f [] m = absurd (Memᴰ.not-nil m)
  Memᴰ-flat_map f (x ∷ xs) m =
      ⊎_elim (λ t. (x, Memᴰ.head refl, t))
        (λ t. let (z, a, b) = Memᴰ-flat_map f xs t in (z, Memᴰ.tail a, b))
        (Memᴰ.append_cases (f x) m)

  pub Memᴰ-flat_map_of :
      (f : A → List B) (xs : List A) {x : A} {y : B}
      → Memᴰ x xs
      → Memᴰ y (f x)
      → Memᴰ y (flat_map f xs)
  unfolding flat_map
  Memᴰ-flat_map_of f [] m h = absurd (Memᴰ.not-nil m)
  Memᴰ-flat_map_of f (z ∷ xs) {x} {y} m h =
      ⊎_elim (λ q. Memᴰ.append_left _ (subst (λ w. Memᴰ y (f w)) q h))
        (λ t. Memᴰ.append_right (f z) (Memᴰ-flat_map_of f xs t h)) (Memᴰ.cases_cons m)

  pub flat_map_nil :
      (f : A → List B) (xs : List A) → (flat_map f xs ≡ []) ↔ ((x : A) → Memᴰ x xs → f x ≡ [])
  flat_map_nil f xs = (
    λ e x m. nil_of (f x) (λ y t. nil_not (flat_map f xs) e (Memᴰ-flat_map_of f xs m t)),
    λ h.
        nil_of (flat_map f xs)
          (λ y t. let (x, m, t') = Memᴰ-flat_map f xs t in nil_not (f x) (h x m) t'),
  )

  pub map_nil : (f : A → B) (xs : List A) → (map f xs ≡ []) ↔ (xs ≡ [])
  map_nil f [] = (λ e. refl, λ e. refl)
  map_nil f (x ∷ xs) = (λ e. ground arith, λ e. ground arith)
