-- ===== src/Xref/Scan/Valid.antt =====
-- Which collectors `ParseScan` can name.
use mathlib.Core.List.Memᴰ
use aws_explorer.Prelude.{
  ◌≡◌, refl, sym, ap, subst, ◌∙◌, ◌⊎◌, inl, inr, ⊎_elim, ◌||◌, not, Option, none, some, List, [],
  ◌∷◌, ◌++◌, Memᴰ, arith, Bool-cases, filter, Memᴰ-filter,
}
use aws_explorer.Go.Text.{Text, str, eq_text, trim_space, to_lower, split, member}
use aws_explorer.Go.Map.{get}
use aws_explorer.Xref.Scan.{
  valid_services, scan_profiles, resolve_token, both, resolve_tokens, resolve_service_tokens,
  cut_prefix, all_but, listed, or_profile, or_excluded, parse_scan,
}
use aws_explorer.Xref.Scan.Laws.{AllValid, get-AllValid, profiles_valid, token-AllValid}

both-some :
    (a b : Text ⊎ List Text) (out : List Text)
    → both a b ≡ inr out
    → (x : List Text) × (y : List Text) × (a ≡ inr x) × (b ≡ inr y) × (x ++ y ≡ out)
unfolding both
both-some (inl e) b out h = ground arith
both-some (inr x) (inl e) out h = ground arith
both-some (inr x) (inr y) out h = (x, y, refl, refl, ground arith)

tokens-AllValid :
    (parts : List Text) (out : List Text) → resolve_tokens parts ≡ inr out → AllValid out
unfolding resolve_tokens
tokens-AllValid [] out h v m =
    let q : [] ≡ out = ground arith in absurd (Memᴰ.not-nil (subst (Memᴰ v) (sym q) m))
tokens-AllValid (part ∷ parts) out h v m =
    let (x, y, a, b, q) =
      both-some (resolve_token (trim_space part)) (resolve_tokens parts) out h in
    ⊎_elim (token-AllValid (trim_space part) x a v) (tokens-AllValid parts y b v)
      (Memᴰ.append_cases x (subst (Memᴰ v) (sym q) m))

rest-AllValid : (r : Text ⊎ List Text) (set : List Text) → all_but r ≡ inr (some set) → AllValid set
unfolding all_but
rest-AllValid (inl e) set h v m = absurd (ground arith)
rest-AllValid (inr []) set h v m = absurd (ground arith)
rest-AllValid (inr (x ∷ xs)) set h v m =
    let q : filter (λ svc. not (member svc (x ∷ xs))) valid_services ≡ set = ground arith in
    (Memᴰ-filter (λ svc. not (member svc (x ∷ xs))) valid_services (subst (Memᴰ v) (sym q) m)).0

listed-some : (r : Text ⊎ List Text) (set : List Text) → listed r ≡ inr (some set) → r ≡ inr set
unfolding listed
listed-some (inl e) set h = ground arith
listed-some (inr []) set h = ground arith
listed-some (inr (x ∷ xs)) set h = ground arith

profile-AllValid :
    (o : Option (List Text)) (s : Text) (set : List Text)
    → get s scan_profiles ≡ o
    → or_profile o s ≡ inr (some set)
    → AllValid set
unfolding or_profile resolve_service_tokens
profile-AllValid none s set e h =
    tokens-AllValid (split b',' s) set (listed-some (resolve_tokens (split b',' s)) set h)
profile-AllValid (some xs) s set e h =
    let q : xs ≡ set = ground arith in
    get-AllValid s scan_profiles profiles_valid set (e ∙ ap some q)

excluded-AllValid :
    (o : Option Text) (s : Text) (set : List Text) → or_excluded o s ≡ inr (some set) → AllValid set
unfolding or_excluded
excluded-AllValid none s set h = profile-AllValid (get s scan_profiles) s set refl h
excluded-AllValid (some rest) s set h = rest-AllValid (resolve_service_tokens rest) set h

-- Whatever the value of the flag, a scan that is restricted to a set of services names valid ones only.
pub parse_scan-AllValid :
    (value : Text) (set : List Text) → parse_scan value ≡ inr (some set) → AllValid set
unfolding parse_scan
parse_scan-AllValid value set h =
    let s = to_lower (trim_space value) in
    elim (Bool-cases (eq_text s [] || eq_text s (str "full"))) [
      | inl a ↦ let h' = rw a at h in absurd (ground arith)
      | inr a ↦ excluded-AllValid (cut_prefix s (str "exclude:")) s set (rw a at h)
    ]
