-- ===== src/Vpc/Findings/Nacls.antt =====
-- `checkNACLs` and `checkPeerings` of internal/vpctui/findings.go.
use aws_explorer.Prelude.{
  ℕ, ◌+◌, Bool, true, false, ◌&&◌, ◌||◌, not, Option, none, some, List, [], ◌∷◌, ◌++◌,
  if◌then◌else◌, any, flat_map,
}
use aws_explorer.Go.Text.{quoted, Text, str, eq_text, equal_fold, trim_space, cat, member}
use aws_explorer.Go.Number.{ℤ, pos, leb_int}
use aws_explorer.Go.Net.{Ip, IpNet, v4_prefix, parse_cidr, net_contains}
use aws_explorer.Vpc.Types.{Snapshot, NaclRule, NaclInfo, PeeringInfo}
use aws_explorer.Vpc.Match.{parse_port_range, proto_match, port_match}
use aws_explorer.Vpc.Nacl.{is_allow, has_direction, rules_for_dir}
use aws_explorer.Vpc.Findings.Types.{info, warning, Finding, nacl_label, when}

spans_ephemeral : Option (ℤ × ℤ) → Bool
spans_ephemeral none = false
spans_ephemeral (some (from, to)) = leb_int from (pos 1024) && leb_int (pos 65535) to

unfoldable pub is_ephemeral_return_range : Text → Bool
unfolding spans_ephemeral
is_ephemeral_return_range port_range =
    let ports = trim_space port_range in
    if equal_fold ports (str "All") then false else spans_ephemeral (parse_port_range ports)

unfoldable pub is_service_allow : Text → NaclRule → Bool
is_service_allow dir r =
    not (not (is_allow r) || not (has_direction dir r))
    && not (is_ephemeral_return_range r.port_range)

unfoldable pub nacl_has_service_allow : NaclInfo → Text → Bool
unfolding is_service_allow any
nacl_has_service_allow nacl dir = any (is_service_allow dir) nacl.rules

unfoldable pub ephemeral_probe_ports : List ℕ
ephemeral_probe_ports = 32768 ∷ 60999 ∷ 65535 ∷ []

-- `r.CIDR == "0.0.0.0/0" || r.CIDR == "::/0"`
unfoldable pub covers_every_source : NaclRule → Bool
covers_every_source r = eq_text r.cidr (str "0.0.0.0/0") || eq_text r.cidr (str "::/0")

unfoldable pub matches_probe : ℕ → NaclRule → Bool
matches_probe port r =
    not (not (proto_match r.protocol (str "tcp")) || not (port_match r.port_range (pos port)))

-- the loop over the ordered rules
unfoldable pub probe : ℕ → List NaclRule → Bool
unfolding matches_probe covers_every_source
probe port [] = false
probe port (r ∷ rs) =
    let rest = probe port rs in
    if not (matches_probe port r)
    then rest
    else if is_allow r
    then true
    else if covers_every_source r
    then false
    else rest

unfoldable pub nacl_allows_port : NaclInfo → Text → ℕ → Bool
unfolding probe
nacl_allows_port nacl dir port = probe port (rules_for_dir nacl dir)

unfoldable pub all_probes : NaclInfo → Text → List ℕ → Bool
unfolding nacl_allows_port
all_probes nacl dir [] = true
all_probes nacl dir (p ∷ ps) =
    if not (nacl_allows_port nacl dir p) then false else all_probes nacl dir ps

unfoldable pub nacl_allows_ephemeral : NaclInfo → Text → Bool
unfolding all_probes ephemeral_probe_ports
nacl_allows_ephemeral nacl dir = all_probes nacl dir ephemeral_probe_ports

unfoldable pub blocked_replies_finding : NaclInfo → Text → Text → Finding
blocked_replies_finding nacl detail fix = record {
  severity = warning;
  resource = nacl.id;
  title = str "Network ACL may block return traffic";
  detail = cat (nacl_label nacl ∷ detail ∷ []);
  fix = fix;
}

unfoldable pub check_nacl : NaclInfo → List Finding
unfolding nacl_has_service_allow nacl_allows_ephemeral blocked_replies_finding when
check_nacl nacl =
    when
      (nacl_has_service_allow nacl (str "Inbound")
        && not (nacl_allows_ephemeral nacl (str "Outbound")))
      (blocked_replies_finding nacl
        (str
          " allows inbound service traffic but has no outbound allow covering ephemeral ports 1024-65535. NACLs are stateless, so replies to inbound connections will be dropped.")
        (str
          "Add an outbound allow rule for TCP/UDP ports 1024-65535 to the appropriate destinations."))
    ++ when
        (nacl_has_service_allow nacl (str "Outbound")
          && not (nacl_allows_ephemeral nacl (str "Inbound")))
        (blocked_replies_finding nacl
          (str
            " allows outbound service traffic but has no inbound allow covering ephemeral ports 1024-65535. NACLs are stateless, so replies to outbound connections will be dropped.")
          (str
            "Add an inbound allow rule for TCP/UDP ports 1024-65535 from the appropriate sources."))

unfoldable pub check_nacls : Snapshot → List Finding
unfolding check_nacl flat_map
check_nacls snap = flat_map check_nacl snap.network_acls

-- `nb.IP`, in 16 bytes
unfoldable pub base_ip : IpNet → Ip
base_ip net = if net.wide then net.base else v4_prefix + net.base

unfoldable pub nets_overlap : Option IpNet → Option IpNet → Bool
unfolding base_ip
nets_overlap none b = false
nets_overlap (some a) none = false
nets_overlap (some a) (some b) = net_contains a (base_ip b) || net_contains b (base_ip a)

unfoldable pub cidrs_overlap : Text → Text → Bool
unfolding nets_overlap
cidrs_overlap a b = nets_overlap (parse_cidr (trim_space a)) (parse_cidr (trim_space b))

unfoldable pub merge_cidrs : List Text → List Text → List Text
merge_cidrs seen [] = []
merge_cidrs seen (c ∷ cs) =
    let c' = trim_space c in
    let skipped = merge_cidrs seen cs in
    let kept = c' ∷ merge_cidrs (c' ∷ seen) cs in
    if not (eq_text c' []) && not (member c' seen) then kept else skipped

unfoldable pub peering_side_cidrs : Text → List Text → List Text
unfolding merge_cidrs
peering_side_cidrs primary set = merge_cidrs [] (primary ∷ set)

first_overlapping : Text → List Text → Option (Text × Text)
unfolding cidrs_overlap
first_overlapping a [] = none
first_overlapping a (b ∷ bs) =
    let rest = first_overlapping a bs in if cidrs_overlap a b then some (a, b) else rest

unfoldable pub or_else {ℓ} : {A : Type ℓ} → Option A → Option A → Option A
or_else (some x) o = some x
or_else none o = o

overlap_between : List Text → List Text → Option (Text × Text)
unfolding first_overlapping or_else
overlap_between [] bs = none
overlap_between (a ∷ as') bs = or_else (first_overlapping a bs) (overlap_between as' bs)

unfoldable pub peering_overlap : PeeringInfo → Option (Text × Text)
unfolding overlap_between peering_side_cidrs
peering_overlap p =
    overlap_between (peering_side_cidrs p.requester_cidr p.requester_cidrs)
      (peering_side_cidrs p.accepter_cidr p.accepter_cidrs)

overlap_finding : PeeringInfo → Option (Text × Text) → List Finding
overlap_finding p none = []
overlap_finding p (some (req, acc)) =
    record {
      severity = warning;
      resource = p.id;
      title = str "Peering connection has overlapping CIDRs";
      detail = cat (
          p.id
          ∷ str ": requester "
          ∷ req
          ∷ str " and accepter "
          ∷ acc
          ∷ str " overlap; cross-VPC routing to the overlap is ambiguous and will not work."
          ∷ []);
      fix = str "Re-IP one VPC so the peered CIDRs do not overlap.";
    }
    ∷ []

inactive_finding : PeeringInfo → Finding
inactive_finding p = record {
  severity = info;
  resource = p.id;
  title = str "Peering connection is not active";
  detail = cat (p.id ∷ str " is in state " ∷ quoted p.status ∷ str "." ∷ []);
  fix = str "Accept or recreate the peering connection if traffic should flow across it.";
}

unfoldable pub check_peering : PeeringInfo → List Finding
unfolding overlap_finding inactive_finding when
check_peering p =
    overlap_finding p (peering_overlap p)
    ++ when (not (eq_text p.status []) && not (equal_fold p.status (str "active")))
        (inactive_finding p)

unfoldable pub check_peerings : Snapshot → List Finding
unfolding check_peering flat_map
check_peerings snap = flat_map check_peering snap.peerings
