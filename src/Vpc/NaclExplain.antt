-- ===== src/Vpc/NaclExplain.antt =====
-- The explanations of ACL rules: internal/vpctui/naclexplain.go.
use aws_explorer.Prelude.{ℕ, ◌&&◌, not, List, [], ◌∷◌, ◌++◌, ◌==◌, if◌then◌else◌, flat_map}
use aws_explorer.Go.Text.{Text, str, eq_text, equal_fold, cat}
use aws_explorer.Go.Number.{itoa}
use aws_explorer.Vpc.Types.{NaclRule}
use aws_explorer.Vpc.Explain.{describe_proto_ports, describe_source, exposure_risk}

abbrev pub nacl_default_rule_number : ℕ
nacl_default_rule_number = 32767

unfoldable pub explain_nacl_rule : NaclRule → Text
explain_nacl_rule r =
    let denied = equal_fold r.action (str "deny") in
    let outbound = equal_fold r.direction (str "Outbound") in
    let label =
      if r.rule_number == nacl_default_rule_number
      then str "Rule * (default)"
      else str "Rule " ++ itoa r.rule_number in
    let sentence = cat (
      label
      ∷ str ": "
      ∷ (if denied then str "Deny" else str "Allow")
      ∷ str " "
      ∷ (if outbound then str "outbound" else str "inbound")
      ∷ str " "
      ∷ describe_proto_ports r.protocol r.port_range
      ∷ str " "
      ∷ (if outbound then str "to" else str "from")
      ∷ str " "
      ∷ describe_source r.cidr
      ∷ []) in
    let note = exposure_risk r.protocol r.port_range r.cidr in
    if not denied && not (eq_text note []) then cat (sentence ∷ str "  " ∷ note ∷ []) else sentence

rules_section : Text → List NaclRule → Text
rules_section missing [] = missing
rules_section missing (r ∷ rs) = flat_map (λ r. str "\n  • " ++ explain_nacl_rule r) (r ∷ rs)

unfoldable pub encode_nacl_explanations : List NaclRule → List NaclRule → Text
unfolding rules_section explain_nacl_rule flat_map
encode_nacl_explanations inbound outbound = cat (
    str
      "\n\n  In plain English (rules evaluated low→high number, first match wins; NACLs are stateless):"
    ∷ str "\n  Inbound:"
    ∷ rules_section (str "\n  • (no inbound rules)") inbound
    ∷ str "\n  Outbound:"
    ∷ rules_section (str "\n  • (no outbound rules)") outbound
    ∷ [])
