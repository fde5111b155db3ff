-- ===== src/Vpc/Examples.antt =====
-- Runs of the VPC analyses and the theorems at concrete inputs.
use mathlib.Core.List.Memᴰ
use aws_explorer.Prelude.{
  false, ℕ, ◌≤◌, ◌≡◌, refl, ◌≢◌, ◌↔◌, ◌⊎◌, inl, inr, ⊎_elim, true, Option, none, some, List, [],
  ◌∷◌, Memᴰ, arith, any, find, filter, sort,
}
use aws_explorer.Go.Text.{
  Text, str, equal_fold, eq_text, trim_space, to_lower, to_upper, has_prefix, has_byte, cut, cat,
  join,
}
use aws_explorer.Go.Number.{ℤ, pos, negsuc, itoa, is_neg, leb_int, signed64}
use aws_explorer.Go.Net.{Ip, parse_ip, ip_string, parse_cidr, net_contains}
use aws_explorer.Vpc.Types.{
  SgRule, SgInfo, Route, RouteTableInfo, NaclRule, NaclInfo, EniInfo, Snapshot,
}
use aws_explorer.Vpc.Match.{
  port_match, proto_match, parse_port_range, atoi_port, cidr_contains_ip, eq_int, is_port, as_int,
}
use aws_explorer.Vpc.Lookup.{
  find_eni, find_eni_by_ip, find_nat_gw, nacl_for_subnet, effective_route_table,
  has_prefix_list_elements, normalize_dest_ip, or_dash, route_target_kind,
}
use aws_explorer.Vpc.Match.Ports.{range_text, port_match-single, port_match-range, port_match-any}
use aws_explorer.Vpc.Groups.{
  TraceRequest, rule_applies, sg_egress_allows, sg_ingress_allows, sg_peer_matches,
}
use aws_explorer.Vpc.Groups.Laws.{HasRule, sg_egress_allows_iff}
use aws_explorer.Vpc.Nacl.{
  nacl_allows, is_allow, has_direction, rule_matches, nacl_allows_ephemeral_return,
}
use aws_explorer.Vpc.Nacl.Laws.{IsFirstMatch, HasUniqueNumbers, nacl_allows_iff}
use aws_explorer.Vpc.Nacl.Duplicates.{Applies, Decides, nacl_allows-Decides}
use aws_explorer.Vpc.Route.{longest_prefix_route}
use aws_explorer.Vpc.Trace.{TraceResult, trace_path, same_subnet, ip_of, nat_down}
use aws_explorer.Vpc.Trace.Rules.{IsConsistent}
use aws_explorer.Vpc.Trace.Verdict.{trace_path-IsConsistent}
use aws_explorer.Vpc.Trace.Open.{PathOpen}
use aws_explorer.Vpc.Trace.Reach.{trace_path_iff}

abbrev https_in : SgRule
https_in = record {
  direction = str "Inbound";
  protocol = str "TCP";
  port_range = str "443";
  source = str "10.0.0.0/16";
  description = [];
}

abbrev all_out : SgRule
all_out = record {
  direction = str "Outbound";
  protocol = str "All";
  port_range = str "All";
  source = str "0.0.0.0/0";
  description = [];
}

abbrev web_sg : SgInfo
web_sg = record {
  id = str "sg-web";
  name = str "web";
  description = [];
  vpc_id = str "vpc-1";
  inbound_count = pos 1;
  outbound_count = pos 1;
  rules = https_in ∷ all_out ∷ [];
  tags = [];
}

abbrev local_route : Route
local_route = record { destination = str "10.0.0.0/16"; target = str "local"; state = str "active" }

abbrev default_route : Route
default_route = record { destination = str "0.0.0.0/0"; target = str "igw-1"; state = str "active" }

abbrev main_table : RouteTableInfo
main_table = record {
  id = str "rtb-1";
  name = [];
  vpc_id = str "vpc-1";
  is_main = true;
  routes = default_route ∷ local_route ∷ [];
  associations = [];
  tags = [];
}

abbrev deny_web : NaclRule
deny_web = record {
  rule_number = 90;
  protocol = str "TCP";
  port_range = str "443";
  cidr = str "10.0.2.0/24";
  action = str "deny";
  direction = str "Inbound";
}

abbrev allow_in : NaclRule
allow_in = record {
  rule_number = 100;
  protocol = str "All";
  port_range = str "All";
  cidr = str "0.0.0.0/0";
  action = str "allow";
  direction = str "Inbound";
}

abbrev allow_out : NaclRule
allow_out = record {
  rule_number = 100;
  protocol = str "All";
  port_range = str "All";
  cidr = str "0.0.0.0/0";
  action = str "allow";
  direction = str "Outbound";
}

abbrev acl_with : List NaclRule → NaclInfo
acl_with rules = record {
  id = str "acl-1";
  name = [];
  vpc_id = str "vpc-1";
  is_default = true;
  associations = [];
  rules = rules;
  tags = [];
}

abbrev acl : NaclInfo
acl = acl_with (allow_in ∷ deny_web ∷ allow_out ∷ [])

abbrev eni : Text → Text → Text → EniInfo
eni id ip subnet = record {
  id = id;
  description = [];
  type = str "interface";
  status = str "in-use";
  private_ip = ip;
  secondary_ips = [];
  public_ip = [];
  subnet_id = subnet;
  vpc_id = str "vpc-1";
  az = [];
  attached_to = [];
  security_groups = str "sg-web" ∷ [];
  source_dest_check = true;
  tags = [];
}

abbrev snap : Snapshot
snap = record {
  vpc_id = str "vpc-1";
  region = [];
  owner_id = [];
  subnets = [];
  security_groups = web_sg ∷ [];
  route_tables = main_table ∷ [];
  internet_gateways = [];
  nat_gateways = [];
  network_acls = acl ∷ [];
  peerings = [];
  endpoints = [];
  network_interfaces =
      eni (str "eni-a") (str "10.0.1.5") (str "subnet-a")
      ∷ eni (str "eni-b") (str "10.0.2.9") (str "subnet-b")
      ∷ [];
}

abbrev to_b : ℤ → TraceRequest
to_b port = record {
  source_eni_id = str "eni-a";
  dest_ip = str "10.0.2.9";
  protocol = str "tcp";
  port = port;
}

abbrev to_a : ℤ → TraceRequest
to_a port = record {
  source_eni_id = str "eni-b";
  dest_ip = str "10.0.1.5";
  protocol = str "tcp";
  port = port;
}

-- `trace_path` with all that it calls
run : Snapshot → TraceRequest → TraceResult
unfolding trace_path find_eni find_eni_by_ip find_nat_gw nacl_for_subnet effective_route_table
    has_prefix_list_elements normalize_dest_ip or_dash route_target_kind sg_egress_allows
    sg_ingress_allows rule_applies sg_peer_matches nacl_allows nacl_allows_ephemeral_return
    has_direction rule_matches is_allow longest_prefix_route same_subnet ip_of nat_down proto_match
    port_match parse_port_range atoi_port cidr_contains_ip parse_ip ip_string parse_cidr
    net_contains eq_text trim_space to_lower to_upper equal_fold has_prefix has_byte cut cat join
    is_neg leb_int eq_int any find filter sort is_port as_int signed64 str
run = trace_path

open_443 : (run snap (to_b (pos 443))).reachable ≡ true
unfolding run
open_443 = refl

blocked_80 :
    (run snap (to_b (pos 80))).summary ≡ str "❌ Blocked at: Destination security group ingress"
unfolding run
blocked_80 = refl

-- the ACL denies 443 from the subnet of eni-b
blocked_back : (run snap (to_a (pos 443))).summary ≡ str "❌ Blocked at: Destination NACL ingress"
unfolding run
blocked_back = refl

no_public_ip :
    (run snap (record {
      source_eni_id = str "eni-a";
      dest_ip = str "internet";
      protocol = str "tcp";
      port = pos 443;
    })).summary
    ≡ str "❌ Blocked at: Internet gateway"
unfolding run
no_public_ip = refl

trace_path-IsConsistent_example : IsConsistent (trace_path snap (to_b (pos 443)))
trace_path-IsConsistent_example = trace_path-IsConsistent snap (to_b (pos 443))

trace_path_iff_example :
    ((trace_path snap (to_b (pos 443))).reachable ≡ true) ↔ PathOpen snap (to_b (pos 443))
trace_path_iff_example = trace_path_iff snap (to_b (pos 443))

abbrev from_b : Option Ip
from_b = some 0xffff_0a00_0209

abbrev two_rules : NaclInfo
two_rules = acl_with (allow_in ∷ deny_web ∷ [])

Memᴰ-pair : {A : Type 0} (a b r : A) → Memᴰ r (a ∷ b ∷ []) → (r ≡ a) ⊎ (r ≡ b)
Memᴰ-pair a b r m = ⊎_elim inl (λ t. inr (Memᴰ.eq_of_singleton t)) (Memᴰ.cases_cons m)

numbers_differ :
    (a b r s : NaclRule)
    → a.rule_number ≢ b.rule_number
    → (r ≡ a) ⊎ (r ≡ b)
    → (s ≡ a) ⊎ (s ≡ b)
    → r.rule_number ≡ s.rule_number
    → r ≡ s
numbers_differ a b r s n h k e = ground arith

two_rules-HasUniqueNumbers : HasUniqueNumbers two_rules (str "Inbound")
two_rules-HasUniqueNumbers r s m k _ _ e =
    numbers_differ allow_in deny_web r s (omega arith) (Memᴰ-pair _ _ r m) (Memᴰ-pair _ _ s k) e

nacl_allows_iff_example :
    ((nacl_allows (some two_rules) (str "Inbound") (str "tcp") (pos 443) from_b).0 ≡ true) ↔ (
      (r : NaclRule) × IsFirstMatch two_rules (str "Inbound") (str "tcp") (pos 443) from_b r
      × (is_allow r ≡ true))
nacl_allows_iff_example =
    nacl_allows_iff two_rules (str "Inbound") (str "tcp") (pos 443) from_b
      two_rules-HasUniqueNumbers

-- two rules with the same number, the allow first
abbrev same_number : NaclInfo
same_number = acl_with (record allow_in { rule_number = 90 } ∷ deny_web ∷ [])

nacl_allows-Decides_example :
    (((r : NaclRule)
        → Memᴰ r same_number.rules
        → ¬ Applies same_number (str "Inbound") (str "tcp") (pos 443) from_b r)
      × ((nacl_allows (some same_number) (str "Inbound") (str "tcp") (pos 443) from_b).0 ≡ false))
    ⊎ ((r : NaclRule) × Decides same_number (str "Inbound") (str "tcp") (pos 443) from_b r
        × ((nacl_allows (some same_number) (str "Inbound") (str "tcp") (pos 443) from_b).0
            ≡ is_allow r))
nacl_allows-Decides_example =
    nacl_allows-Decides same_number (str "Inbound") (str "tcp") (pos 443) from_b

sg_egress_allows_iff_example :
    ((sg_egress_allows snap
        (eni (str "eni-a") (str "10.0.1.5") (str "subnet-a"))
        0xffff_0a00_0209
        none
        (to_b (pos 443))).0
      ≡ true)
    ↔ HasRule snap
        (rule_applies (str "Outbound") (some 0xffff_0a00_0209) none (to_b (pos 443)))
        (str "sg-web" ∷ [])
sg_egress_allows_iff_example =
    sg_egress_allows_iff snap (to_b (pos 443)) (eni (str "eni-a") (str "10.0.1.5") (str "subnet-a"))
      0xffff_0a00_0209 none

port_match-single_example : (port_match (itoa 443) (pos 80) ≡ true) ↔ ◌≡◌ {A = ℕ} 443 80
port_match-single_example = port_match-single 443 80 (omega arith)

port_match-range_example :
    (port_match (range_text 1024 65535) (pos 32768) ≡ true) ↔ ((1024 ≤ 32768) × (32768 ≤ 65535))
port_match-range_example = port_match-range 1024 65535 32768 (omega arith) (omega arith)

port_match-any_example :
    (port_match (range_text 0 65535) (negsuc 0) ≡ true) ↔ ((0 ≤ 1) × (65535 ≤ 65535))
port_match-any_example = port_match-any 0 65535 0 (omega arith) (omega arith)
