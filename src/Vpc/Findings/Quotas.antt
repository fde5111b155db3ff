-- ===== src/Vpc/Findings/Quotas.antt =====
-- `checkQuotas` of internal/vpctui/findings.go.
use aws_explorer.Prelude.{
  ℕ, suc, ◌*◌, ◌/◌, Bool, false, List, [], ◌∷◌, ◌++◌, if◌then◌else◌, ltb, leb, length, flat_map,
}
use aws_explorer.Go.Text.{Text, str, eq_text, equal_fold, cat}
use aws_explorer.Go.Number.{itoa}
use aws_explorer.Vpc.Types.{Snapshot, SgRule, SgInfo, RouteTableInfo, NaclRule, NaclInfo, EniInfo}
use aws_explorer.Vpc.NaclExplain.{nacl_default_rule_number}
use aws_explorer.Vpc.Findings.Types.{
  Severity, info, warning, critical, Finding, sg_label, rt_label_name, nacl_label, when,
}

abbrev pub quota_rules_per_sg_dir : ℕ
quota_rules_per_sg_dir = 60

abbrev pub quota_routes_per_table : ℕ
quota_routes_per_table = 50

abbrev pub quota_sgs_per_eni : ℕ
quota_sgs_per_eni = 5

abbrev pub quota_subnets_per_vpc : ℕ
quota_subnets_per_vpc = 200

abbrev pub quota_rules_per_nacl_dir : ℕ
quota_rules_per_nacl_dir = 20

-- `int(float64(limit) * 0.8)`, which is exact at the five limits
unfoldable pub warn_at : ℕ → ℕ
warn_at limit = limit * 8 / 10

-- A count of at least the warning threshold is a finding, and a critical one at the limit.
unfoldable pub over_quota : ℕ → ℕ → (Severity → Finding) → List Finding
unfolding warn_at
over_quota limit count finding =
    if ltb count (warn_at limit)
    then []
    else if leb limit count
    then finding critical ∷ []
    else finding warning ∷ []

-- `in` and `eg`: the rules counted so far, inbound and others
unfoldable pub count_directions : {R : Type 0} → (R → Text) → (R → Bool) → ℕ × ℕ → List R → ℕ × ℕ
count_directions direction skipped n [] = n
count_directions direction skipped n (r ∷ rs) =
    count_directions direction skipped
      (if skipped r
        then n
        else if equal_fold (direction r) (str "Inbound")
        then (suc n.0, n.1)
        else (n.0, suc n.1))
      rs

sg_rules_finding : SgInfo → Text → ℕ → Severity → Finding
sg_rules_finding sg name count sev = record {
  severity = sev;
  resource = sg.id;
  title = str "Security group is approaching its rule limit";
  detail = cat (
      sg_label sg
      ∷ str " has "
      ∷ itoa count
      ∷ str " "
      ∷ name
      ∷ str " rules (default limit "
      ∷ itoa quota_rules_per_sg_dir
      ∷ str " per direction)."
      ∷ []);
  fix =
      str
        "Consolidate rules (e.g. use prefix lists or referenced security groups) or request a quota increase.";
}

unfoldable pub check_sg_quota : SgInfo → List Finding
unfolding over_quota count_directions sg_rules_finding
check_sg_quota sg =
    let n = count_directions (λ (r : SgRule). r.direction) (λ _. false) (0, 0) sg.rules in
    over_quota quota_rules_per_sg_dir n.0 (sg_rules_finding sg (str "inbound") n.0)
    ++ over_quota quota_rules_per_sg_dir n.1 (sg_rules_finding sg (str "outbound") n.1)

routes_finding : RouteTableInfo → ℕ → Severity → Finding
routes_finding rt count sev = record {
  severity = sev;
  resource = rt.id;
  title = str "Route table is approaching its route limit";
  detail = cat (
      rt_label_name rt
      ∷ str " has "
      ∷ itoa count
      ∷ str " routes (default limit "
      ∷ itoa quota_routes_per_table
      ∷ str ")."
      ∷ []);
  fix = str "Consolidate CIDRs, use prefix lists, or request a route-table quota increase.";
}

unfoldable pub check_route_quota : RouteTableInfo → List Finding
unfolding over_quota routes_finding
check_route_quota rt =
    over_quota quota_routes_per_table (length rt.routes) (routes_finding rt (length rt.routes))

nacl_rules_finding : NaclInfo → Text → ℕ → Severity → Finding
nacl_rules_finding nacl name count sev = record {
  severity = sev;
  resource = nacl.id;
  title = str "Network ACL is approaching its rule limit";
  detail = cat (
      nacl_label nacl
      ∷ str " has "
      ∷ itoa count
      ∷ str " "
      ∷ name
      ∷ str " rules (default limit "
      ∷ itoa quota_rules_per_nacl_dir
      ∷ str " per direction, raisable to 40)."
      ∷ []);
  fix = str "Consolidate CIDRs into broader rules or request a network-ACL rule quota increase.";
}

-- the default rule does not count
unfoldable pub check_nacl_quota : NaclInfo → List Finding
unfolding over_quota count_directions nacl_rules_finding
check_nacl_quota nacl =
    let n =
      count_directions (λ (r : NaclRule). r.direction)
        (λ r. leb nacl_default_rule_number r.rule_number) (0, 0) nacl.rules in
    over_quota quota_rules_per_nacl_dir n.0 (nacl_rules_finding nacl (str "inbound") n.0)
    ++ over_quota quota_rules_per_nacl_dir n.1 (nacl_rules_finding nacl (str "outbound") n.1)

eni_groups_finding : EniInfo → Finding
eni_groups_finding e = record {
  severity = info;
  resource = e.id;
  title = str "Network interface is at the default security-group limit";
  detail = cat (
      e.id
      ∷ str " uses "
      ∷ itoa (length e.security_groups)
      ∷ str " security groups (default limit "
      ∷ itoa quota_sgs_per_eni
      ∷ str ", raisable to 16)."
      ∷ []);
  fix =
      str
        "Request a quota increase if more groups are needed, or consolidate rules into fewer groups.";
}

subnets_finding : Snapshot → ℕ → Severity → Finding
subnets_finding snap count sev = record {
  severity = sev;
  resource = if eq_text snap.vpc_id [] then str "-" else snap.vpc_id;
  title = str "VPC is approaching its subnet limit";
  detail = cat (
      str "this VPC has "
      ∷ itoa count
      ∷ str " subnets (default limit "
      ∷ itoa quota_subnets_per_vpc
      ∷ str ")."
      ∷ []);
  fix = str "Request a subnets-per-VPC quota increase, or split workloads across VPCs.";
}

unfoldable pub check_quotas : Snapshot → List Finding
unfolding check_sg_quota check_route_quota check_nacl_quota eni_groups_finding over_quota
    subnets_finding flat_map when
check_quotas snap =
    flat_map check_sg_quota snap.security_groups
    ++ (flat_map check_route_quota snap.route_tables
        ++ (flat_map check_nacl_quota snap.network_acls
            ++ (flat_map
                  (λ e.
                    when (leb quota_sgs_per_eni (length e.security_groups)) (eni_groups_finding e))
                  snap.network_interfaces
                ++ over_quota quota_subnets_per_vpc (length snap.subnets)
                    (subnets_finding snap (length snap.subnets)))))
