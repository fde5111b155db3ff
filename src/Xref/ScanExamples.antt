-- ===== src/Xref/ScanExamples.antt =====
-- Scan profiles and ambiguous queries at concrete inputs.
use aws_explorer.Prelude.{◌≡◌, ◌≢◌, refl, ◌↔◌, inl, inr, false, some, List, [], ◌∷◌, Memᴰ}
use aws_explorer.Go.Text.{Text, str, eq_text, trim_space, to_lower, has_prefix}
use aws_explorer.Go.Map.{get}
use aws_explorer.Xref.Types.{Edge}
use aws_explorer.Xref.Scan.{scan_profiles, resolve_tokens, parse_scan}
use aws_explorer.Xref.Scan.Laws.{IsUnknown, resolve_tokens_error, AllValid}
use aws_explorer.Xref.Scan.Valid.{parse_scan-AllValid}
use aws_explorer.Xref.Advice.{ambiguous_candidates}
use aws_explorer.Xref.Advice.Laws.{IsMatch, ambiguous_candidates_iff}

abbrev network : List Text
network = str "ec2" ∷ str "elbv2" ∷ str "apigateway" ∷ str "networking" ∷ str "ec2-endpoints" ∷ []

network_profile : parse_scan (str " Network") ≡ inr (some network)
unfolding parse_scan get scan_profiles eq_text trim_space to_lower str
network_profile = refl

parse_scan-AllValid_example : AllValid network
parse_scan-AllValid_example = parse_scan-AllValid (str " Network") network network_profile

resolve_tokens_error_example :
    ((e : Text) × (resolve_tokens (str "ec2" ∷ str "ec3" ∷ []) ≡ inl e))
    ↔ ((part : Text) × Memᴰ part (str "ec2" ∷ str "ec3" ∷ []) × IsUnknown (trim_space part))
resolve_tokens_error_example = resolve_tokens_error (str "ec2" ∷ str "ec3" ∷ [])

abbrev app_role : Text → Edge
app_role role = record {
  source = record {
    service = str "lambda";
    type = str "function";
    id = str "fn";
    name = [];
    region = [];
    via = str "role";
  };
  target = role;
}

abbrev two_apps : List Edge
two_apps =
    app_role (str "arn:aws:iam::1:role/team-a/app")
    ∷ app_role (str "arn:aws:iam::1:role/team-b/app")
    ∷ []

ambiguous_candidates_iff_example :
    Memᴰ (str "arn:aws:iam::1:role/team-a/app") (ambiguous_candidates (str "app") two_apps) ↔ (
      (trim_space (str "app") ≢ [])
      × (has_prefix (trim_space (str "app")) (str "arn:") ≡ false)
      × IsMatch (str "app") two_apps (str "arn:aws:iam::1:role/team-a/app")
      × ((other : Text) × IsMatch (str "app") two_apps other
          × (str "arn:aws:iam::1:role/team-a/app" ≢ other)))
ambiguous_candidates_iff_example =
    ambiguous_candidates_iff (str "app") two_apps (str "arn:aws:iam::1:role/team-a/app")
