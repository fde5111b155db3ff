-- ===== src/Go/Lex.antt =====
-- The lexicographic order by fields that are Go strings.
use aws_explorer.Prelude.{
  ◌≡◌, refl, sym, IsWeakOrder, ◌⊎◌, inl, inr, Bool, true, false, List, [], ◌∷◌, arith, Bool-cases,
}
use aws_explorer.Go.Text.{Text, eq_text, eq_text_refl, eq_text_sound, less_text}
use aws_explorer.Go.Order.{
  less_text_total, then_by, by_field, then_by-IsWeakOrder, by_field-IsWeakOrder,
}

module _ {A : Type 0} where
  -- The first field in which the two differ is less in the first one, or they agree in all.
  abbrev pub Lex : List (A → Text) → A → A → Type 0
  Lex [] a b = Unit
  Lex (f ∷ fs) a b = (less_text (f a) (f b) ≡ true) ⊎ ((f a ≡ f b) × Lex fs a b)

  then_by-Lex :
      (f : A → Text) (fs : List (A → Text)) (less : A → A → Bool)
      → ((x y : A) → less y x ≡ false → Lex fs x y)
      → (x y : A) → then_by f less y x ≡ false
      → Lex (f ∷ fs) x y
  unfolding then_by
  then_by-Lex f fs less g x y h = elim (Bool-cases (less_text (f x) (f y))) [
    | inl e ↦ inl e
    | inr e ↦ elim (Bool-cases (eq_text (f y) (f x))) [
      | inl q ↦ inr (sym (eq_text_sound (f y) (f x) q), g x y (rw q at h))
      | inr q ↦
          let p = less_text_total (f y) (f x) (rw q at h) e in
          let r : eq_text (f y) (f x) ≡ true = rw p (eq_text_refl (f x)) in absurd (ground arith)
    ]
  ]

  by_field-Lex : (f : A → Text) (x y : A) → by_field f y x ≡ false → Lex (f ∷ []) x y
  unfolding by_field
  by_field-Lex f x y h = elim (Bool-cases (less_text (f x) (f y))) [
    | inl e ↦ inl e
    | inr e ↦ inr (less_text_total (f x) (f y) e h, tt)
  ]

  -- the comparison of a Go `less` function that goes through the fields
  unfoldable pub by_all : List (A → Text) → A → A → Bool
  unfolding then_by by_field
  by_all [] a b = false
  by_all (f ∷ []) a b = by_field f a b
  by_all (f ∷ g ∷ fs) a b = then_by f (by_all (g ∷ fs)) a b

  pub by_all-Lex : (fs : List (A → Text)) (x y : A) → by_all fs y x ≡ false → Lex fs x y
  unfolding by_all
  by_all-Lex [] x y h = tt
  by_all-Lex (f ∷ []) x y h = by_field-Lex f x y h
  by_all-Lex (f ∷ g ∷ fs) x y h =
      then_by-Lex f (g ∷ fs) (by_all (g ∷ fs)) (by_all-Lex (g ∷ fs)) x y h

  pub by_all-IsWeakOrder : (fs : List (A → Text)) → IsWeakOrder (by_all fs)
  unfolding by_all
  by_all-IsWeakOrder [] = record { asym = λ x y h. refl; trans = λ x y z h k. refl }
  by_all-IsWeakOrder (f ∷ []) = by_field-IsWeakOrder f
  by_all-IsWeakOrder (f ∷ g ∷ fs) =
      then_by-IsWeakOrder f (by_all (g ∷ fs)) (by_all-IsWeakOrder (g ∷ fs))

  -- The first field in which the two differ is less in the first one, and there is such a field.
  abbrev pub StrictLex : List (A → Text) → A → A → Type 0
  StrictLex [] a b = ⊥
  StrictLex (f ∷ fs) a b = (less_text (f a) (f b) ≡ true) ⊎ ((f a ≡ f b) × StrictLex fs a b)

  abbrev pub Agree : List (A → Text) → A → A → Type 0
  Agree [] a b = Unit
  Agree (f ∷ fs) a b = (f a ≡ f b) × Agree fs a b

  pub Lex-StrictLex :
      (fs : List (A → Text)) (a b : A) → Lex fs a b → ¬ Agree fs a b → StrictLex fs a b
  Lex-StrictLex [] a b l n = n tt
  Lex-StrictLex (f ∷ fs) a b (inl h) n = inl h
  Lex-StrictLex (f ∷ fs) a b (inr (q, l)) n = inr (q, Lex-StrictLex fs a b l (λ g. n (q, g)))
