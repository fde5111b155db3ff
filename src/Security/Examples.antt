-- ===== src/Security/Examples.antt =====
-- The security checks at a concrete snapshot.
use aws_explorer.Prelude.{
  ◌*◌, ◌≤◌, ◌≡◌, ◌≢◌, Memᴰ, inl, inr, refl, ◌↔◌, true, false, none, some, [], ◌∷◌,
}
use aws_explorer.Go.Text.{Text, str, eq_text, to_lower, trim_space}
use aws_explorer.Go.Number.{pos, is_neg, leb_int}
use aws_explorer.Security.Types.{
  Severity, warning, critical, Finding, SecSgRule, SecGroup, SecQueue, SecAlarm, SecuritySnapshot,
}
use aws_explorer.Security.Policy.{Json}
use aws_explorer.Security.Groups.{covers_port, open_sensitive_ports, sensitive_ports}
use aws_explorer.Security.Checks.{day, analyze_security}
use aws_explorer.Security.Gate.{
  severity_rank, severity_text, parse_severity, drop_ignored, any_at_or_above,
  any_at_or_above-drop_ignored, parse_severity_iff,
}
use aws_explorer.Security.Clean.{IsClean}
use aws_explorer.Security.Report.{analyze_security_nil}

-- A decoder that takes a policy for the principal of its only statement.
abbrev principal_only : Json
principal_only = record {
  statement_field = λ d. some d;
  as_array = λ _. none;
  as_statement = λ raw. some (str "Allow", raw, []);
  as_string = λ raw. some raw;
  as_map = λ _. none;
  as_strings = λ _. none;
}

abbrev shell_rule : SecSgRule
shell_rule = record {
  protocol = str "tcp";
  from_port = pos 20;
  to_port = pos 25;
  source = str "0.0.0.0/0";
}

abbrev shell_group : SecGroup
shell_group = record { id = str "sg-9"; name = str "shell"; rules = shell_rule ∷ [] }

abbrev open_queue : SecQueue
open_queue = record { name = str "jobs"; policy = str "*" }

abbrev old_alarm : SecAlarm
old_alarm = record { name = str "cpu"; state_updated = day }

abbrev account : SecuritySnapshot
account = record {
  region = str "eu-west-1";
  now = 30 * day;
  s3_scanned = false;
  buckets = [];
  volumes = [];
  ebs_default_encryption = none;
  public_ebs_snapshots = [];
  instances = [];
  security_groups = shell_group ∷ [];
  db_instances = [];
  public_rds_snapshots = [];
  functions = [];
  queues = open_queue ∷ [];
  topics = [];
  alarms = old_alarm ∷ [];
}

opened_ports : open_sensitive_ports shell_rule ≡ 22 ∷ []
unfolding open_sensitive_ports to_lower eq_text str covers_port sensitive_ports is_neg leb_int
opened_ports = refl

analyze_security_nil_example :
    (analyze_security principal_only account ≡ []) ↔ IsClean principal_only account
analyze_security_nil_example = analyze_security_nil principal_only account

abbrev open_port : Finding
open_port = record {
  id = str "SEC-SG-001";
  severity = critical;
  service = str "ec2";
  region = str "eu-west-1";
  resource = str "sg-9";
  title = [];
  detail = [];
  fix = [];
}

any_at_or_above-drop_ignored_example :
    (any_at_or_above (drop_ignored (open_port ∷ []) (str "SEC-SG-001" ∷ [])) warning ≡ true) ↔ (
      (f : Finding) × Memᴰ f (open_port ∷ [])
      × (Memᴰ f.id (str "SEC-SG-001" ∷ []) → ⊥)
      × (severity_rank warning ≤ severity_rank f.severity))
any_at_or_above-drop_ignored_example =
    any_at_or_above-drop_ignored (open_port ∷ []) (str "SEC-SG-001" ∷ []) warning

parse_severity_iff_example :
    ((s : Severity)
      → (parse_severity (str " Critical ") ≡ inr s)
        ↔ (to_lower (trim_space (str " Critical ")) ≡ to_lower (severity_text s)))
    × (((e : Text) × (parse_severity (str " Critical ") ≡ inl e))
        ↔ ((s : Severity) → to_lower (trim_space (str " Critical ")) ≢ to_lower (severity_text s)))
parse_severity_iff_example = parse_severity_iff (str " Critical ")
