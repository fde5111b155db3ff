-- ===== src/Security/Groups.antt =====
-- `checkSecGroups` of internal/findings/security.go.
use aws_explorer.Prelude.{
  ℕ, ◌==◌, ltb, Bool, ◌&&◌, ◌||◌, not, List, [], ◌∷◌, if◌then◌else◌, any, filter, flat_map, map,
  sort,
}
use aws_explorer.Go.Text.{Text, str, eq_text, to_lower, cat}
use aws_explorer.Go.Number.{pos, is_neg, leb_int, itoa}
use aws_explorer.Security.Types.{critical, Finding, SecSgRule, SecGroup, SecuritySnapshot}

-- a map, which the code ranges over in any order and then sorts
unfoldable pub sensitive_ports : List (ℕ × Text)
sensitive_ports =
    (22, str "SSH")
    ∷ (3389, str "RDP")
    ∷ (3306, str "MySQL")
    ∷ (5432, str "PostgreSQL")
    ∷ (1433, str "SQL Server")
    ∷ (27017, str "MongoDB")
    ∷ (6379, str "Redis")
    ∷ (9200, str "Elasticsearch")
    ∷ (11211, str "memcached")
    ∷ []

-- `sensitivePorts[port]`
unfoldable pub port_name : ℕ → List (ℕ × Text) → Text
port_name port [] = []
port_name port ((p, name) ∷ ps) = if p == port then name else port_name port ps

unfoldable pub covers_port : Text → SecSgRule → ℕ → Bool
covers_port proto r port =
    eq_text proto (str "-1")
    || (is_neg r.from_port && is_neg r.to_port)
    || (leb_int r.from_port (pos port) && leb_int (pos port) r.to_port)

unfoldable pub open_sensitive_ports : SecSgRule → List ℕ
unfolding covers_port sort filter sensitive_ports
open_sensitive_ports r =
    let proto = to_lower r.protocol in
    if not (eq_text proto (str "tcp")) && not (eq_text proto (str "-1")) && not (eq_text proto [])
    then []
    else sort ltb (filter (covers_port proto r) (map (λ p. p.0) sensitive_ports))

unfoldable pub port_label : ℕ → Text
unfolding port_name
port_label port = cat (port_name port sensitive_ports ∷ str "/" ∷ itoa port ∷ [])

unfoldable pub group_label : SecGroup → Text
group_label sg =
    if not (eq_text sg.name []) && not (eq_text sg.name sg.id)
    then cat (sg.id ∷ str " (" ∷ sg.name ∷ str ")" ∷ [])
    else sg.id

unfoldable pub open_port_finding : Text → SecGroup → SecSgRule → ℕ → Finding
unfolding port_name port_label group_label
open_port_finding region sg r port = record {
  id = str "SEC-SG-001";
  severity = critical;
  service = str "ec2";
  region = region;
  resource = sg.id;
  title = cat (
      str "Security group opens "
      ∷ port_name port sensitive_ports
      ∷ str " (port "
      ∷ itoa port
      ∷ str ") to the internet"
      ∷ []);
  detail = cat (
      group_label sg
      ∷ str " allows inbound "
      ∷ port_label port
      ∷ str " from "
      ∷ r.source
      ∷ str "."
      ∷ []);
  fix =
      str
        "Restrict the source to specific CIDRs or a security group instead of the whole internet.";
}

-- the two inner loops: each rule with each port it opens
unfoldable pub opened_by : List SecSgRule → List (SecSgRule × ℕ)
unfolding flat_map open_sensitive_ports
opened_by rs = flat_map (λ r. map (λ p. (r, p)) (open_sensitive_ports r)) rs

-- the ports reported so far are skipped
unfoldable pub report_ports : Text → SecGroup → List ℕ → List (SecSgRule × ℕ) → List Finding
unfolding any open_port_finding
report_ports region sg reported [] = []
report_ports region sg reported ((r, port) ∷ rs) =
    let skipped = report_ports region sg reported rs in
    let kept = open_port_finding region sg r port ∷ report_ports region sg (port ∷ reported) rs in
    if any (λ p. p == port) reported then skipped else kept

unfoldable pub check_sec_groups : SecuritySnapshot → List Finding
unfolding flat_map report_ports opened_by
check_sec_groups snap =
    flat_map (λ sg. report_ports snap.region sg [] (opened_by sg.rules)) snap.security_groups
