-- ===== src/Inventory/Dedupe/Unique.antt =====
-- What deduplication leaves out: nothing without an ARN, and all but one resource of an ARN.
use mathlib.Core.List.Memᴰ
use aws_explorer.Prelude.{
  ◌≡◌, ◌≢◌, refl, sym, ap, ◌∙◌, subst, ◌⊎◌, inl, inr, ⊎_elim, Bool, true, false, List, [], ◌∷◌,
  ◌++◌, Memᴰ, filter, arith, ltb, Bool-cases, append_assoc, append-nil,
}
use aws_explorer.Go.Text.{eq_text, eq_text_iff, eq_text_sound}
use aws_explorer.Inventory.Types.{Resource}
use aws_explorer.Inventory.Dedupe.{richness, dedupe_resources}
use aws_explorer.Inventory.Dedupe.Merge.{
  richer, richer-arn, place, merge, merge_all, dedupe_resources-merge,
}

-- No two resources share an ARN that is not empty.
abbrev pub IsUnique : List Resource → Type 0
IsUnique [] = Unit
IsUnique (x ∷ xs) = (x.arn ≢ [] → (s : Resource) → Memᴰ s xs → s.arn ≢ x.arn) × IsUnique xs

richer-cases : (x r : Resource) → (richer x r ≡ x) ⊎ (richer x r ≡ r)
unfolding richer
richer-cases x r = elim (Bool-cases (ltb (richness x) (richness r))) [
  | inl e ↦ rw e (inr refl)
  | inr e ↦ rw e (inl refl)
]

Memᴰ-place : (s r : Resource) (out : List Resource) → Memᴰ s (place r out) → Memᴰ s out ⊎ (s ≡ r)
unfolding place
Memᴰ-place s r [] m = inr (Memᴰ.eq_of_singleton m)
Memᴰ-place s r (x ∷ xs) m = elim (Bool-cases (eq_text x.arn r.arn)) [
  | inl e ↦
      ⊎_elim (λ p. ⊎_elim (λ q. inl (Memᴰ.head (p ∙ q))) (λ q. inr (p ∙ q)) (richer-cases x r))
        (λ t. inl (Memᴰ.tail t)) (Memᴰ.cases_cons (rw e at m))
  | inr e ↦
      ⊎_elim (λ p. inl (Memᴰ.head p))
        (λ t. ⊎_elim (λ u. inl (Memᴰ.tail u)) inr (Memᴰ-place s r xs t))
        (Memᴰ.cases_cons (rw e at m))
]

Memᴰ-merge : (s r : Resource) (out : List Resource) → Memᴰ s (merge r out) → Memᴰ s out ⊎ (s ≡ r)
unfolding merge
Memᴰ-merge s r out m = elim (Bool-cases (eq_text r.arn [])) [
  | inl e ↦ ⊎_elim inl (λ t. inr (Memᴰ.eq_of_singleton t)) (Memᴰ.append_cases out (rw e at m))
  | inr e ↦ Memᴰ-place s r out (rw e at m)
]

Memᴰ-merge_all :
    (s : Resource) (out rs : List Resource) → Memᴰ s (merge_all out rs) → Memᴰ s out ⊎ Memᴰ s rs
unfolding merge_all
Memᴰ-merge_all s out [] m = inl m
Memᴰ-merge_all s out (r ∷ rs) m =
    ⊎_elim (λ t. ⊎_elim inl (λ q. inr (Memᴰ.head q)) (Memᴰ-merge s r out t))
      (λ t. inr (Memᴰ.tail t)) (Memᴰ-merge_all s (merge r out) rs m)

differ : (x r : Resource) → eq_text x.arn r.arn ≡ false → r.arn ≢ x.arn
differ x r e q = ground (arith, eq_text_iff x.arn r.arn, sym q)

place-IsUnique : (r : Resource) (out : List Resource) → IsUnique out → IsUnique (place r out)
unfolding place
place-IsUnique r [] u = (λ n s m. absurd (Memᴰ.not-nil m), tt)
place-IsUnique r (x ∷ xs) u = elim (Bool-cases (eq_text x.arn r.arn)) [
  | inl e ↦
      let q = richer-arn x r (eq_text_sound x.arn r.arn e) in
      rw e (λ n s m p. u.0 (λ z. n (q ∙ z)) s m (p ∙ q), u.1)
  | inr e ↦ rw e (
    λ n s m p.
        ⊎_elim (λ t. u.0 n s t p) (λ w. differ x r e (ap (λ (y : Resource). y.arn) (sym w) ∙ p))
          (Memᴰ-place s r xs m),
    place-IsUnique r xs u.1,
  )
]

append-IsUnique :
    (r : Resource) (out : List Resource) → r.arn ≡ [] → IsUnique out → IsUnique (out ++ r ∷ [])
append-IsUnique r [] e u = (λ n s m. absurd (Memᴰ.not-nil m), tt)
append-IsUnique r (x ∷ xs) e u = (
  λ n s m p.
      ⊎_elim (λ t. u.0 n s t p)
        (λ t. n (sym p ∙ ap (λ (y : Resource). y.arn) (Memᴰ.eq_of_singleton t) ∙ e))
        (Memᴰ.append_cases xs m),
  append-IsUnique r xs e u.1,
)

merge_all-IsUnique : (out rs : List Resource) → IsUnique out → IsUnique (merge_all out rs)
unfolding merge_all merge
merge_all-IsUnique out [] u = u
merge_all-IsUnique out (r ∷ rs) u = elim (Bool-cases (eq_text r.arn [])) [
  | inl e ↦
      rw e
        (merge_all-IsUnique (out ++ r ∷ []) rs (append-IsUnique r out (eq_text_sound r.arn [] e) u))
  | inr e ↦ rw e (merge_all-IsUnique (place r out) rs (place-IsUnique r out u))
]

-- No two deduplicated resources share an ARN that is not empty.
pub dedupe_resources-IsUnique : (rs : List Resource) → IsUnique (dedupe_resources rs)
dedupe_resources-IsUnique rs = rw (dedupe_resources-merge rs) (merge_all-IsUnique [] rs tt)

-- Every deduplicated resource is one of the resources.
pub Memᴰ-dedupe_resources :
    (rs : List Resource) (s : Resource) → Memᴰ s (dedupe_resources rs) → Memᴰ s rs
Memᴰ-dedupe_resources rs s m =
    ⊎_elim (λ t. absurd (Memᴰ.not-nil t)) (λ t. t)
      (Memᴰ-merge_all s [] rs (subst (Memᴰ s) (dedupe_resources-merge rs) m))

unfoldable pub is_bare : Resource → Bool
is_bare r = eq_text r.arn []

filter-snoc :
    (out : List Resource) (r : Resource)
    → is_bare r ≡ true
    → filter is_bare (out ++ r ∷ []) ≡ filter is_bare out ++ r ∷ []
unfolding filter
filter-snoc [] r e = rw e refl
filter-snoc (x ∷ xs) r e = elim (Bool-cases (is_bare x)) [
  | inl b ↦ rw b (ap (◌∷◌ x) (filter-snoc xs r e))
  | inr b ↦ rw b (filter-snoc xs r e)
]

same_arn : (x r : Resource) → x.arn ≡ r.arn → is_bare r ≡ false → is_bare x ≡ false
unfolding is_bare
same_arn x r q e = ap (λ w. eq_text w []) q ∙ e

filter-place :
    (out : List Resource) (r : Resource)
    → is_bare r ≡ false
    → filter is_bare (place r out) ≡ filter is_bare out
unfolding filter place
filter-place [] r e = rw e refl
filter-place (x ∷ xs) r e = elim (Bool-cases (eq_text x.arn r.arn)) [
  | inl b ↦
      let q = eq_text_sound x.arn r.arn b in
      rw (b, same_arn x r q e, same_arn (richer x r) r (richer-arn x r q ∙ q) e) refl
  | inr b ↦ elim (Bool-cases (is_bare x)) [
    | inl c ↦ rw (b, c) (ap (◌∷◌ x) (filter-place xs r e))
    | inr c ↦ rw (b, c) (filter-place xs r e)
  ]
]

merge_bare : (r : Resource) (out : List Resource) → is_bare r ≡ true → merge r out ≡ out ++ r ∷ []
unfolding merge is_bare
merge_bare r out e = rw e refl

merge_named : (r : Resource) (out : List Resource) → is_bare r ≡ false → merge r out ≡ place r out
unfolding merge is_bare
merge_named r out e = rw e refl

filter-merge_all :
    (out rs : List Resource)
    → filter is_bare (merge_all out rs) ≡ filter is_bare out ++ filter is_bare rs
unfolding filter merge_all
filter-merge_all out [] = sym (append-nil _)
filter-merge_all out (r ∷ rs) =
    let ih = filter-merge_all (merge r out) rs in
    elim (Bool-cases (is_bare r)) [
      | inl e ↦ rw e (
          ih
          ∙ ap (λ ys. ys ++ filter is_bare rs)
              (ap (filter is_bare) (merge_bare r out e) ∙ filter-snoc out r e)
          ∙ append_assoc (filter is_bare out) (r ∷ []) (filter is_bare rs))
      | inr e ↦ rw e (
          ih
          ∙ ap (λ ys. ys ++ filter is_bare rs)
              (ap (filter is_bare) (merge_named r out e) ∙ filter-place out r e))
    ]

-- Resources without an ARN all stay, in their order.
filter-dedupe_resources :
    (rs : List Resource) → filter is_bare (dedupe_resources rs) ≡ filter is_bare rs
unfolding filter
filter-dedupe_resources rs =
    ap (filter is_bare) (dedupe_resources-merge rs) ∙ filter-merge_all [] rs
