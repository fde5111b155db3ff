-- ===== src/Xref/Scan/Laws.antt =====
-- The tokens of `ParseScan`: errors, and the collectors they name.
use mathlib.Core.List.Memᴰ
use aws_explorer.Prelude.{
  ◌≡◌, ◌≢◌, refl, sym, subst, ◌↔◌, ◌⊎◌, inl, inr, ⊎_elim, Bool, false, not, none, some, List, [],
  ◌∷◌, Memᴰ, arith, Bool-cases, Option-cases, any, Memᴰ→any,
}
use aws_explorer.Go.Text.{Text, str, eq_text, eq_text_iff, trim_space, member, member_iff}
use aws_explorer.Go.Map.{Dict, get, Memᴰ-get}
use aws_explorer.Xref.Scan.{
  valid_services, service_aliases, scan_profiles, valid_token, or_alias, resolve_token, both,
  resolve_tokens,
}

-- a token that names no collector
abbrev pub IsUnknown : Text → Type 0
IsUnknown part = (part ≢ []) × (get part service_aliases ≡ none) × (Memᴰ part valid_services → ⊥)

token_error : (part : Text) → ((e : Text) × (resolve_token part ≡ inl e)) ↔ IsUnknown part
unfolding resolve_token or_alias valid_token
token_error part = elim (Bool-cases (eq_text part [])) [
  | inl a ↦ rw a (λ (e, h). ground arith, λ x. absurd (x.0 ((eq_text_iff part []).0 a)))
  | inr a ↦ elim (Option-cases (get part service_aliases)) [
    | inr (services, b) ↦ rw (a, b) (λ (e, h). ground arith, λ x. ground (arith, x.1))
    | inl b ↦ elim (Bool-cases (member part valid_services)) [
      | inl c ↦
          rw (a, b, c)
            (λ (e, h). ground arith, λ x. absurd (x.2 ((member_iff part valid_services).0 c)))
      | inr c ↦
          rw (a, b, c)
            (
              λ h. (
                λ z. ground (arith, (eq_text_iff part []).1 z),
                refl,
                λ m. ground (arith, (member_iff part valid_services).1 m),
              ),
              λ x. (_, refl),
            )
    ]
  ]
]

both_error :
    (a b : Text ⊎ List Text)
    → ((e : Text) × (both a b ≡ inl e)) ↔ (((e : Text) × (a ≡ inl e)) ⊎ ((e : Text) × (b ≡ inl e)))
unfolding both
both_error (inl e) b = (λ h. inl (e, refl), λ h. (e, refl))
both_error (inr x) (inl e) = (λ h. inr (e, refl), λ h. (e, refl))
both_error (inr x) (inr y) =
    (λ (e, h). ground arith, ⊎_elim (λ (e, h). ground arith) (λ (e, h). ground arith))

-- A list of tokens is an error if and only if one of them, without the spaces around it, is not
-- empty, no alias and no valid service.
pub resolve_tokens_error :
    (parts : List Text)
    → ((e : Text) × (resolve_tokens parts ≡ inl e))
      ↔ ((part : Text) × Memᴰ part parts × IsUnknown (trim_space part))
unfolding resolve_tokens
resolve_tokens_error [] = (λ (e, h). ground arith, λ (p, m, x). absurd (Memᴰ.not-nil m))
resolve_tokens_error (part ∷ parts) =
    let (f, g) = both_error (resolve_token (trim_space part)) (resolve_tokens parts) in
    let (f', g') = token_error (trim_space part) in
    let (f'', g'') = resolve_tokens_error parts in
    (
      λ h.
          ⊎_elim (λ x. (part, Memᴰ.head refl, f' x))
            (λ x. let (p, m, u) = f'' x in (p, Memᴰ.tail m, u)) (f h),
      λ (p, m, x).
          ⊎_elim (λ q. g (inl (g' (subst (λ w. IsUnknown (trim_space w)) q x))))
            (λ t. g (inr (g'' (p, t, x)))) (Memᴰ.cases_cons m),
    )

-- Every service of the list is valid.
abbrev pub AllValid : List Text → Type 0
AllValid xs = (v : Text) → Memᴰ v xs → Memᴰ v valid_services

pub has_invalid : List Text → Bool
unfolding any
has_invalid xs = any (λ x. not (member x valid_services)) xs

has_invalid-AllValid : (xs : List Text) → has_invalid xs ≡ false → AllValid xs
unfolding has_invalid
has_invalid-AllValid xs h v m = elim (Bool-cases (member v valid_services)) [
  | inl e ↦ (member_iff v valid_services).0 e
  | inr e ↦
      let z = Memᴰ→any (λ x. not (member x valid_services)) xs m (rw e refl) in
      absurd (ground arith)
]

pub get-AllValid :
    (k : Text) (d : Dict (List Text))
    → any (λ (p : Text × List Text). has_invalid p.1) d ≡ false
    → (xs : List Text) → get k d ≡ some xs
    → AllValid xs
get-AllValid k d h xs e = has_invalid-AllValid xs (elim (Bool-cases (has_invalid xs)) [
  | inr q ↦ q
  | inl q ↦
      let z = Memᴰ→any (λ (p : Text × List Text). has_invalid p.1) d (Memᴰ-get k d e) q in
      absurd (ground arith)
])

aliases_valid : any (λ (p : Text × List Text). has_invalid p.1) service_aliases ≡ false
unfolding any has_invalid service_aliases member eq_text str valid_services
aliases_valid = refl

pub profiles_valid : any (λ (p : Text × List Text). has_invalid p.1) scan_profiles ≡ false
unfolding any has_invalid scan_profiles member eq_text str valid_services
profiles_valid = refl

pub token-AllValid : (part : Text) (out : List Text) → resolve_token part ≡ inr out → AllValid out
unfolding resolve_token or_alias valid_token
token-AllValid part out h v m = elim (Bool-cases (eq_text part [])) [
  | inl a ↦
      let q : [] ≡ out = let h' = rw a at h in ground arith in
      absurd (Memᴰ.not-nil (subst (Memᴰ v) (sym q) m))
  | inr a ↦ elim (Option-cases (get part service_aliases)) [
    | inr (services, b) ↦
        let q : services ≡ out = let h' = rw (a, b) at h in ground arith in
        get-AllValid part service_aliases aliases_valid services b v (subst (Memᴰ v) (sym q) m)
    | inl b ↦ elim (Bool-cases (member part valid_services)) [
      | inr c ↦ let h' = rw (a, b, c) at h in absurd (ground arith)
      | inl c ↦
          let q : part ∷ [] ≡ out = let h' = rw (a, b, c) at h in ground arith in
          let e = Memᴰ.eq_of_singleton (subst (Memᴰ v) (sym q) m) in
          subst (λ w. Memᴰ w valid_services) (sym e) ((member_iff part valid_services).0 c)
    ]
  ]
]
