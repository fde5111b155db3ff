-- ===== src/Vpc/Findings/Routes.antt =====
-- `checkRouteTables`, `checkSubnets`, `checkNatGateways` and `checkInternetGateways` of
-- internal/vpctui/findings.go.
use aws_explorer.Prelude.{
  ℕ, ◌+◌, ◌-◌, ◌*◌, ◌/◌, ◌%◌, ◌^◌, Bool, true, false, ◌&&◌, ◌||◌, not, Option, none, some, List, [],
  ◌∷◌, ◌++◌, if◌then◌else◌, ◌==◌, ltb, leb, any, map, filter, flat_map,
}
use aws_explorer.Go.Text.{quoted, Text, str, eq_text, equal_fold, has_prefix, cat, member}
use aws_explorer.Go.Number.{itoa}
use aws_explorer.Go.Net.{IpNet, to4, parse_cidr}
use aws_explorer.Vpc.Types.{Snapshot, Route, RouteTableInfo, SubnetInfo, NatGwInfo, IgwInfo}
use aws_explorer.Vpc.Lookup.{effective_route_table, or_dash}
use aws_explorer.Vpc.Findings.Types.{
  info, warning, Finding, rt_label_name, subnet_label, nat_label, when,
}

unfoldable pub or_unknown_dest : Text → Text
or_unknown_dest d = if eq_text d [] then str "(unknown)" else d

unfoldable pub is_blackhole : Route → Bool
is_blackhole r = equal_fold r.state (str "blackhole")

blackhole_finding : RouteTableInfo → Route → Finding
blackhole_finding rt r = record {
  severity = warning;
  resource = rt.id;
  title = str "Route table has a blackhole route";
  detail = cat (
      rt_label_name rt
      ∷ str ": route to "
      ∷ or_unknown_dest r.destination
      ∷ str " points at "
      ∷ or_dash r.target
      ∷ str ", whose target no longer exists; traffic is dropped."
      ∷ []);
  fix = str "Remove or repoint the stale route to a valid target.";
}

unfoldable pub check_route_tables : Snapshot → List Finding
unfolding blackhole_finding is_blackhole flat_map when
check_route_tables snap =
    flat_map (λ rt. flat_map (λ r. when (is_blackhole r) (blackhole_finding rt r)) rt.routes)
      snap.route_tables

-- an active route for exactly this destination to a target with one of the prefixes
unfoldable pub is_default_route : Text → List Text → Route → Bool
unfolding is_blackhole any
is_default_route dest target_prefixes r =
    not (not (eq_text r.destination dest) || is_blackhole r)
    && any (λ p. has_prefix r.target p) target_prefixes

unfoldable pub has_default_route : Option RouteTableInfo → Text → List Text → Bool
unfolding is_default_route any
has_default_route none dest target_prefixes = false
has_default_route (some rt) dest target_prefixes =
    any (is_default_route dest target_prefixes) rt.routes

-- The assignable addresses of a mask: `hostBits` of at most 31, less the five that AWS reserves.
usable_of : ℕ → ℕ
usable_of host_bits =
    if host_bits == 0 || ltb 31 host_bits
    then 0
    else if leb (2 ^ host_bits) 5
    then 0
    else 2 ^ host_bits - 5

-- An IPv4 network; a 16-byte network inside ::ffff:0:0/96 counts as one, with a mask of 128 bits.
usable_in : Option IpNet → ℕ
unfolding usable_of
usable_in none = 0
usable_in (some net) =
    if net.wide
    then elim (to4 net.base) [ none ↦ 0 | some _ ↦ usable_of (128 - net.ones) ]
    else usable_of (32 - net.ones)

unfoldable pub usable_ips : Text → ℕ
unfolding usable_in
usable_ips cidr = usable_in (parse_cidr cidr)

abbrev pub subnet_low_ip_count : ℕ
subnet_low_ip_count = 10

-- `float64(usable-avail)/float64(usable) >= 0.90`. A quotient of numbers below 2^31 that is not 9/10
-- is farther from it than floating point rounds.
unfoldable pub is_high_util : ℕ → ℕ → Bool
is_high_util usable avail =
    ltb 0 usable && (leb avail usable && leb (9 * usable) (10 * (usable - avail)))

-- The quotient rounded to the nearest integer, halves to the even one, as `%.0f` prints it.
rounded : ℕ → ℕ → ℕ
rounded a b =
    let q = a / b in
    let twice = 2 * (a % b) in
    if ltb twice b then q else if ltb b twice then q + 1 else if q % 2 == 0 then q else q + 1

-- more addresses available than usable make a negative percentage
percent : ℕ → ℕ → Text
unfolding rounded
percent usable avail =
    if leb avail usable
    then itoa (rounded (100 * (usable - avail)) usable)
    else cat (str "-" ∷ itoa (rounded (100 * (avail - usable)) usable) ∷ [])

capacity_finding : SubnetInfo → Finding
unfolding percent
capacity_finding s =
    let usable = usable_ips s.cidr in
    let base =
      cat (subnet_label s ∷ str " has " ∷ itoa s.available_ips ∷ str " available IPs" ∷ []) in
    let more = cat (
      base
      ∷ str " of ~"
      ∷ itoa usable
      ∷ str " usable ("
      ∷ percent usable s.available_ips
      ∷ str "% in use)"
      ∷ []) in
    record {
      severity = warning;
      resource = s.id;
      title = str "Subnet is running low on IP addresses";
      detail = cat ((if ltb 0 usable then more else base) ∷ str "." ∷ []);
      fix = str "Free unused ENIs/IPs, add a secondary CIDR, or move workloads to a larger subnet.";
    }

no_igw_finding : SubnetInfo → Finding
no_igw_finding s = record {
  severity = warning;
  resource = s.id;
  title = str "Subnet auto-assigns public IPs but has no internet gateway route";
  detail = cat (
      subnet_label s
      ∷ str
          " sets map-public-ip-on-launch, but its route table has no 0.0.0.0/0 → internet gateway route, so instances get a public IP they cannot use."
      ∷ []);
  fix = str "Add an internet gateway route, or disable auto-assign public IP on the subnet.";
}

no_egress_finding : SubnetInfo → Finding
no_egress_finding s = record {
  severity = info;
  resource = s.id;
  title = str "Subnet has no outbound internet path";
  detail = cat (
      subnet_label s
      ∷ str
          " has no default route to an internet gateway, NAT gateway, or other egress target; instances cannot reach the internet (this is expected for isolated subnets)."
      ∷ []);
  fix =
      str
        "Add a NAT gateway route for private egress, or an internet gateway route for public subnets — if internet access is needed.";
}

unfoldable pub has_igw : Option RouteTableInfo → Bool
has_igw rt = has_default_route rt (str "0.0.0.0/0") (str "igw-" ∷ [])

unfoldable pub has_nat : Option RouteTableInfo → Bool
has_nat rt = has_default_route rt (str "0.0.0.0/0") (str "nat-" ∷ [])

unfoldable pub has_other_egress : Option RouteTableInfo → Bool
has_other_egress rt =
    has_default_route rt (str "0.0.0.0/0")
      (str "eigw-" ∷ str "tgw-" ∷ str "pcx-" ∷ str "vgw-" ∷ str "eni-" ∷ str "i-" ∷ [])
    || has_default_route rt (str "::/0") (str "igw-" ∷ str "eigw-" ∷ str "tgw-" ∷ str "pcx-" ∷ [])

unfoldable pub has_table : Option RouteTableInfo → Bool
has_table none = false
has_table (some _) = true

unfoldable pub is_low_on_ips : SubnetInfo → Bool
unfolding is_high_util
is_low_on_ips s =
    ltb s.available_ips subnet_low_ip_count || is_high_util (usable_ips s.cidr) s.available_ips

unfoldable pub check_subnet : Snapshot → SubnetInfo → List Finding
unfolding capacity_finding no_igw_finding no_egress_finding has_igw has_nat has_other_egress
    has_table is_low_on_ips when
check_subnet snap s =
    let rt = effective_route_table snap s.id in
    when (is_low_on_ips s) (capacity_finding s)
    ++ (when (s.map_public_ip_on_launch && not (has_igw rt)) (no_igw_finding s)
        ++ when
            (has_table rt && (not (has_igw rt) && (not (has_nat rt) && not (has_other_egress rt))))
            (no_egress_finding s))

unfoldable pub check_subnets : Snapshot → List Finding
unfolding check_subnet flat_map
check_subnets snap = flat_map (check_subnet snap) snap.subnets

-- the keys of `referenced`
unfoldable pub nat_targets : Snapshot → List Text
unfolding flat_map filter
nat_targets snap =
    flat_map (λ rt. filter (λ t. has_prefix t (str "nat-")) (map (λ r. r.target) rt.routes))
      snap.route_tables

idle_nat_finding : NatGwInfo → Finding
idle_nat_finding n = record {
  severity = warning;
  resource = n.id;
  title = str "NAT gateway is not referenced by any route";
  detail = cat (
      nat_label n
      ∷ str
          " is available but no route table sends 0.0.0.0/0 to it, so it carries no traffic while still incurring hourly charges."
      ∷ []);
  fix =
      str
        "Point a private subnet's default route at this NAT gateway, or delete it to stop charges.";
}

nat_state_finding : NatGwInfo → Finding
nat_state_finding n = record {
  severity = info;
  resource = n.id;
  title = str "NAT gateway is not in the available state";
  detail = cat (nat_label n ∷ str " is in state " ∷ quoted n.state ∷ str "." ∷ []);
  fix = str "Investigate the NAT gateway status if private subnets rely on it for egress.";
}

unfoldable pub check_nat_gateway : List Text → NatGwInfo → List Finding
unfolding idle_nat_finding nat_state_finding when
check_nat_gateway referenced n =
    when (equal_fold n.state (str "available") && not (member n.id referenced)) (idle_nat_finding n)
    ++ when (not (eq_text n.state []) && not (equal_fold n.state (str "available")))
        (nat_state_finding n)

unfoldable pub check_nat_gateways : Snapshot → List Finding
unfolding nat_targets check_nat_gateway flat_map
check_nat_gateways snap = flat_map (check_nat_gateway (nat_targets snap)) snap.nat_gateways

igw_finding : IgwInfo → Finding
igw_finding igw = record {
  severity = info;
  resource = igw.id;
  title = str "Internet gateway is not attached to this VPC";
  detail = cat (
      igw.id
      ∷ str " is not attached (state "
      ∷ quoted (or_dash igw.state)
      ∷ str "); public subnets in this VPC have no internet path."
      ∷ []);
  fix = str "Attach the internet gateway to the VPC if public connectivity is required.";
}

unfoldable pub is_detached : IgwInfo → Bool
is_detached igw =
    eq_text igw.vpc_id []
    || (not (eq_text igw.state [])
        && (not (equal_fold igw.state (str "available"))
            && not (equal_fold igw.state (str "attached"))))

unfoldable pub check_internet_gateways : Snapshot → List Finding
unfolding igw_finding is_detached flat_map when
check_internet_gateways snap =
    flat_map (λ igw. when (is_detached igw) (igw_finding igw)) snap.internet_gateways
