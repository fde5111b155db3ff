-- ===== src/Prelude/Split.antt =====
-- Places in a filtered list, as places in the list.
use mathlib.Core.Path.{◌≡◌, ap, sym, subst, ◌∙◌}
use mathlib.Core.Logic.{inl, inr, ⊎_elim}
use mathlib.Core.Bool.{Bool, true}
use mathlib.Core.List.{List, [], ◌∷◌, ◌++◌, Memᴰ}
use mathlib.Core.List.Memᴰ
use native.Mathlib.Omega.{arith}
use aws_explorer.Prelude.Tests.{Bool-cases}
use aws_explorer.Prelude.Lists.{filter, Memᴰ-filter_of}

module _ {ℓ} {A : Type ℓ} (d : A → Bool) where
  front_of : A → List A → A
  front_of x [] = x
  front_of x (y ∷ ys) = y

  rest_of : List A → List A
  rest_of [] = []
  rest_of (y ∷ ys) = ys

  cons_inj : {x y : A} {xs ys : List A} → x ∷ xs ≡ y ∷ ys → (x ≡ y) × (xs ≡ ys)
  unfolding front_of rest_of
  cons_inj {x} h = (ap (front_of x) h, ap rest_of h)

  not_nil_append : (before : List A) (x : A) (after : List A) → [] ≡ before ++ x ∷ after → ⊥
  not_nil_append [] x after h = ground arith
  not_nil_append (b ∷ before) x after h = ground arith

  abbrev pub HasSplit : List A → List A → List A → A → Type ℓ
  HasSplit xs before after x =
      (front : List A) × (back : List A) × (xs ≡ front ++ x ∷ back)
      × (d x ≡ true)
      × ((y : A) → Memᴰ y front → d y ≡ true → Memᴰ y before)
      × ((y : A) → Memᴰ y back → d y ≡ true → Memᴰ y after)

  -- an element that the filter keeps, in front of a list that has its splits
  split_kept :
      (z : A) (xs before after : List A) (x : A)
      → d z ≡ true
      → z ∷ filter d xs ≡ before ++ x ∷ after
      → ((bs : List A) → filter d xs ≡ bs ++ x ∷ after → HasSplit xs bs after x)
      → HasSplit (z ∷ xs) before after x
  split_kept z xs [] after x e h ih =
      let (q, t) = cons_inj h in
      (
        [],
        xs,
        ap (λ w. w ∷ xs) q,
        sym (ap d q) ∙ e,
        (λ y m. absurd (Memᴰ.not-nil m)),
        (λ y m g. subst (Memᴰ y) t (Memᴰ-filter_of d xs m g)),
      )
  split_kept z xs (b ∷ bs) after x e h ih =
      let (q, t) = cons_inj h in
      let (front, back, s, y, f, k) = ih bs t in
      (
        z ∷ front,
        back,
        ap (◌∷◌ z) s,
        y,
        (λ w m g. ⊎_elim (λ r. Memᴰ.head (r ∙ q)) (λ u. Memᴰ.tail (f w u g)) (Memᴰ.cases_cons m)),
        k,
      )

  -- A place in a filtered list is one in the list, with nothing new on either side that passes.
  pub filter-split :
      (xs before after : List A) (x : A)
      → filter d xs ≡ before ++ x ∷ after
      → HasSplit xs before after x
  unfolding filter
  filter-split [] before after x h = absurd (not_nil_append before x after h)
  filter-split (z ∷ xs) before after x h = elim (Bool-cases (d z)) [
    | inl e ↦ split_kept z xs before after x e (rw e at h) (λ bs. filter-split xs bs after x)
    | inr e ↦
        let (front, back, q, y, f, b) = filter-split xs before after x (rw e at h) in
        (
          z ∷ front,
          back,
          ap (◌∷◌ z) q,
          y,
          (λ w m g.
              ⊎_elim (λ r. let g' : d z ≡ true = ap d (sym r) ∙ g in absurd (ground arith))
                (λ t. f w t g) (Memᴰ.cases_cons m)),
          b,
        )
  ]
