-- ===== src/Go/Order.antt =====
-- The order of Go strings.
use aws_explorer.Prelude.{
  ◌∙◌, ◌≡◌, refl, sym, subst, Bool, true, false, [], ◌∷◌, arith, if◌then◌else◌, Bool-cases, inl,
  inr, IsWeakOrder,
}
use aws_explorer.Go.Text.{Text, eq_text, eq_text_iff, eq_text_sound, eq_text_refl, less_text}

pub less_text_irrefl : (s : Text) → less_text s s ≡ false
unfolding less_text
less_text_irrefl [] = refl
less_text_irrefl (c ∷ s) = ground (arith, less_text_irrefl s)

pub less_text_asym : (s t : Text) → less_text s t ≡ true → less_text t s ≡ false
unfolding less_text
less_text_asym [] [] h = refl
less_text_asym [] (d ∷ t) h = refl
less_text_asym (c ∷ s) [] h = ground arith
less_text_asym (c ∷ s) (d ∷ t) h = ground (arith, less_text_asym s t)

-- `t ≤ s` and `s ≤ u` give `t ≤ u`, said of the test.
pub less_text_trans :
    (s t u : Text) → less_text t s ≡ false → less_text u t ≡ false → less_text u s ≡ false
unfolding less_text
less_text_trans [] [] u h k = k
less_text_trans [] (d ∷ t) [] h k = refl
less_text_trans [] (d ∷ t) (e ∷ u) h k = refl
less_text_trans (c ∷ s) [] u h k = ground arith
less_text_trans (c ∷ s) (d ∷ t) [] h k = ground arith
less_text_trans (c ∷ s) (d ∷ t) (e ∷ u) h k = ground (arith, less_text_trans s t u)

-- Two strings of which neither is less are the same.
pub less_text_total : (s t : Text) → less_text s t ≡ false → less_text t s ≡ false → s ≡ t
unfolding less_text
less_text_total [] [] h k = refl
less_text_total [] (d ∷ t) h k = ground arith
less_text_total (c ∷ s) [] h k = ground arith
less_text_total (c ∷ s) (d ∷ t) h k = ground (arith, less_text_total s t)

module _ {A : Type 0} (f : A → Text) where
  -- Two elements by a field, and by another test where that is the same.
  unfoldable pub then_by : (A → A → Bool) → A → A → Bool
  then_by less a b = if eq_text (f a) (f b) then less a b else less_text (f a) (f b)

  same_field : (a b : A) → eq_text (f a) (f b) ≡ true → f a ≡ f b
  same_field a b h = eq_text_sound (f a) (f b) h

  then_by_asym :
      (less : A → A → Bool)
      → IsWeakOrder less
      → (x y : A) → then_by less x y ≡ true
      → then_by less y x ≡ false
  unfolding then_by
  then_by_asym less order x y h = ground (
    arith,
    order.asym x y,
    less_text_asym (f x) (f y),
    eq_text_iff (f x) (f y),
    eq_text_iff (f y) (f x),
  )

  both_less :
      (less : A → A → Bool) (x y z : A)
      → eq_text (f y) (f x) ≡ false
      → eq_text (f z) (f y) ≡ false
      → less_text (f y) (f x) ≡ false
      → less_text (f z) (f y) ≡ false
      → then_by less z x ≡ false
  unfolding then_by
  both_less less x y z a b h k = elim (Bool-cases (eq_text (f z) (f x))) [
    | inl c ↦
        let q =
          less_text_total (f z) (f y) k
            (subst (λ w. less_text (f y) w ≡ false) (sym (same_field z x c)) h) in
        ground (arith, eq_text_iff (f z) (f y))
    | inr c ↦ rw c (less_text_trans (f x) (f y) (f z) h k)
  ]

  then_by_trans :
      (less : A → A → Bool)
      → IsWeakOrder less
      → (x y z : A) → then_by less y x ≡ false
      → then_by less z y ≡ false
      → then_by less z x ≡ false
  unfolding then_by
  then_by_trans less order x y z h k = elim (Bool-cases (eq_text (f y) (f x))) [
    | inl a ↦ elim (Bool-cases (eq_text (f z) (f y))) [
      | inl b ↦
          let q : eq_text (f z) (f x) ≡ true =
            rw (eq_text_sound (f z) (f y) b, eq_text_sound (f y) (f x) a) (eq_text_refl (f x)) in
          rw q (order.trans x y z (rw a at h) (rw b at k))
      | inr b ↦
          subst (λ w. (if eq_text (f z) w then less z x else less_text (f z) w) ≡ false)
            (eq_text_sound (f y) (f x) a) (rw b (rw b at k))
    ]
    | inr a ↦ elim (Bool-cases (eq_text (f z) (f y))) [
      | inl b ↦
          subst (λ w. (if eq_text w (f x) then less z x else less_text w (f x)) ≡ false)
            (sym (eq_text_sound (f z) (f y) b)) (rw a (rw a at h))
      | inr b ↦ both_less less x y z a b (rw a at h) (rw b at k)
    ]
  ]

  pub then_by-IsWeakOrder : (less : A → A → Bool) → IsWeakOrder less → IsWeakOrder (then_by less)
  then_by-IsWeakOrder less order = record {
    asym = then_by_asym less order;
    trans = then_by_trans less order;
  }

  unfoldable pub by_field : A → A → Bool
  by_field a b = less_text (f a) (f b)

  pub by_field-IsWeakOrder : IsWeakOrder by_field
  unfolding by_field
  by_field-IsWeakOrder = record {
    asym = λ x y h. less_text_asym (f x) (f y) h;
    trans = λ x y z h k. less_text_trans (f x) (f y) (f z) h k;
  }

pub IsWeakOrder-same :
    {A : Type 0} (less less' : A → A → Bool)
    → ((a b : A) → less a b ≡ less' a b)
    → IsWeakOrder less'
    → IsWeakOrder less
IsWeakOrder-same less less' same order = record {
  asym = λ x y h. same y x ∙ order.asym x y (sym (same x y) ∙ h);
  trans = λ x y z h k. same z x ∙ order.trans x y z (sym (same y x) ∙ h) (sym (same z y) ∙ k);
}
