-- ===== src/Vpc/Findings/Groups.antt =====
-- `checkSecurityGroups`, `checkEndpoints` and `checkOrphans` of internal/vpctui/findings.go.
use aws_explorer.Prelude.{
  Bool, true, false, ◌&&◌, ◌||◌, not, Option, none, some, List, [], ◌∷◌, ◌++◌, if◌then◌else◌, any,
  map, filter, flat_map,
}
use aws_explorer.Go.Text.{
  quoted, Text, str, eq_text, equal_fold, has_prefix, contains, to_lower, cat, member,
}
use aws_explorer.Go.Number.{pos}
use aws_explorer.Vpc.Types.{Snapshot, SgRule, SgInfo, EndpointInfo, SubnetInfo, EniInfo}
use aws_explorer.Vpc.Explain.{exposure_risk, explain_sg_rule}
use aws_explorer.Vpc.Match.{proto_match, port_match}
use aws_explorer.Vpc.Lookup.{find_sg}
use aws_explorer.Vpc.Findings.Types.{
  Severity, info, warning, critical, Finding, sg_label, subnet_label, when,
}

unfoldable pub risk_severity : Text → Severity
unfolding contains
risk_severity note =
    if contains note (str "ALL ports")
      || contains note (str "remote admin")
      || contains note (str "database")
      || contains note (str "sensitive ports")
    then critical
    else warning

unfoldable pub is_inbound : SgRule → Bool
is_inbound r = equal_fold r.direction (str "Inbound")

-- the note that the code computes for inbound rules only
unfoldable pub rule_note : SgRule → Text
unfolding is_inbound
rule_note r = if is_inbound r then exposure_risk r.protocol r.port_range r.source else []

unfoldable pub exposure_finding : SgInfo → SgRule → Finding
unfolding rule_note
exposure_finding sg r = record {
  severity = risk_severity (rule_note r);
  resource = sg.id;
  title = str "Security group exposes a sensitive port to the internet";
  detail = cat (sg_label sg ∷ str ": " ∷ explain_sg_rule r ∷ []);
  fix = str "Restrict the source to specific CIDRs or a security group instead of 0.0.0.0/0.";
}

unfoldable pub unknown_group_finding : SgInfo → SgRule → Finding
unknown_group_finding sg r = record {
  severity = info;
  resource = sg.id;
  title = str "Rule references a security group not found in this VPC";
  detail = cat (
      sg_label sg
      ∷ str ": "
      ∷ to_lower r.direction
      ∷ str " rule references "
      ∷ r.source
      ∷ str ", which is not in this VPC (it may be cross-account or deleted)."
      ∷ []);
  fix = str "Confirm the referenced security group still exists and is intended.";
}

-- `known`
unfoldable pub known_groups : Snapshot → List Text
known_groups snap = map (λ sg. sg.id) snap.security_groups

unfoldable pub check_rule : List Text → SgInfo → SgRule → List Finding
unfolding exposure_finding unknown_group_finding when
check_rule known sg r =
    when (not (eq_text (rule_note r) [])) (exposure_finding sg r)
    ++ when (has_prefix r.source (str "sg-") && not (member r.source known))
        (unknown_group_finding sg r)

unfoldable pub check_security_groups : Snapshot → List Finding
unfolding check_rule known_groups flat_map
check_security_groups snap =
    flat_map (λ sg. flat_map (check_rule (known_groups snap) sg) sg.rules) snap.security_groups

unfoldable pub allows_https : SgRule → Bool
unfolding is_inbound
allows_https r =
    is_inbound r && (proto_match r.protocol (str "tcp") && port_match r.port_range (pos 443))

group_allows_https : Option SgInfo → Bool
unfolding any allows_https
group_allows_https none = false
group_allows_https (some sg) = any allows_https sg.rules

unfoldable pub endpoint_sgs_allow_https : Snapshot → EndpointInfo → Bool
unfolding any group_allows_https
endpoint_sgs_allow_https snap ep =
    any (λ id. group_allows_https (find_sg snap id)) ep.security_groups

gateway_finding : EndpointInfo → Finding
gateway_finding ep = record {
  severity = warning;
  resource = ep.id;
  title = str "Gateway endpoint is not associated with any route table";
  detail = cat (
      ep.id
      ∷ str " ("
      ∷ ep.service_name
      ∷ str ") has no route-table association, so no subnet can route to the service through it."
      ∷ []);
  fix = str "Associate the gateway endpoint with the route tables of the subnets that need it.";
}

https_finding : EndpointInfo → Finding
https_finding ep = record {
  severity = warning;
  resource = ep.id;
  title = str "Interface endpoint's security groups do not allow inbound HTTPS";
  detail = cat (
      ep.id
      ∷ str " ("
      ∷ ep.service_name
      ∷ str
          ") has no security-group rule allowing inbound TCP 443, so clients in the VPC cannot reach it."
      ∷ []);
  fix =
      str
        "Add an inbound TCP 443 rule from the VPC CIDR (or client security groups) to the endpoint's security group.";
}

private_dns_finding : EndpointInfo → Finding
private_dns_finding ep = record {
  severity = info;
  resource = ep.id;
  title = str "Interface endpoint has private DNS disabled";
  detail = cat (
      ep.id
      ∷ str " ("
      ∷ ep.service_name
      ∷ str
          ") has private DNS disabled; clients must use the endpoint-specific DNS name rather than the standard service name."
      ∷ []);
  fix =
      str
        "Enable private DNS on the endpoint (requires the VPC's DNS support and hostnames to be on).";
}

endpoint_state_finding : EndpointInfo → Finding
endpoint_state_finding ep = record {
  severity = info;
  resource = ep.id;
  title = str "VPC endpoint is not in the available state";
  detail =
      cat (
        ep.id ∷ str " (" ∷ ep.service_name ∷ str ") is in state " ∷ quoted ep.state ∷ str "." ∷ []);
  fix = str "Investigate the endpoint status if workloads depend on it.";
}

has_none : List Text → Bool
has_none [] = true
has_none (_ ∷ _) = false

unfoldable pub check_endpoint : Snapshot → EndpointInfo → List Finding
unfolding gateway_finding https_finding private_dns_finding endpoint_state_finding has_none
    endpoint_sgs_allow_https when
check_endpoint snap ep =
    (if equal_fold ep.type (str "Gateway")
      then when (has_none ep.route_table_ids) (gateway_finding ep)
      else if equal_fold ep.type (str "Interface")
      then when (not (endpoint_sgs_allow_https snap ep)) (https_finding ep)
        ++ when (not ep.private_dns_enabled) (private_dns_finding ep)
      else [])
    ++ when (not (eq_text ep.state []) && not (equal_fold ep.state (str "available")))
        (endpoint_state_finding ep)

unfoldable pub check_endpoints : Snapshot → List Finding
unfolding check_endpoint flat_map
check_endpoints snap = flat_map (check_endpoint snap) snap.endpoints

-- `sgUsed` and `subnetUsed`
unfoldable pub used_groups : Snapshot → List Text
unfolding flat_map filter
used_groups snap =
    flat_map (λ e. e.security_groups) snap.network_interfaces
    ++ flat_map (λ sg. filter (λ s. has_prefix s (str "sg-")) (map (λ r. r.source) sg.rules))
        snap.security_groups

unfoldable pub used_subnets : Snapshot → List Text
used_subnets snap = map (λ e. e.subnet_id) snap.network_interfaces

unfoldable pub unused_group_finding : SgInfo → Finding
unused_group_finding sg = record {
  severity = info;
  resource = sg.id;
  title = str "Security group appears unused";
  detail = cat (
      sg_label sg
      ∷ str
          " is not attached to any network interface and is not referenced by other security groups."
      ∷ []);
  fix = str "Delete the security group if it is no longer needed.";
}

unfoldable pub empty_subnet_finding : SubnetInfo → Finding
empty_subnet_finding s = record {
  severity = info;
  resource = s.id;
  title = str "Subnet has no network interfaces";
  detail = cat (subnet_label s ∷ str " contains no network interfaces (it may be unused)." ∷ []);
  fix = str "Reclaim the subnet's CIDR or remove it if it is no longer needed.";
}

unfoldable pub is_orphan_group : List Text → SgInfo → Bool
is_orphan_group used sg = not (equal_fold sg.name (str "default")) && not (member sg.id used)

unfoldable pub orphans_in : List EniInfo → Snapshot → List Finding
unfolding flat_map used_groups used_subnets unused_group_finding empty_subnet_finding
    is_orphan_group when
orphans_in [] snap = []
orphans_in (_ ∷ _) snap =
    flat_map (λ sg. when (is_orphan_group (used_groups snap) sg) (unused_group_finding sg))
      snap.security_groups
    ++ flat_map (λ s. when (not (member s.id (used_subnets snap))) (empty_subnet_finding s))
        snap.subnets

-- Without data on the interfaces the checks are skipped.
unfoldable pub check_orphans : Snapshot → List Finding
unfolding orphans_in
check_orphans snap = orphans_in snap.network_interfaces snap
