-- ===== src/Vpc/Trace/Open.antt =====
-- What a path has to meet for a trace to call its destination reachable.
use aws_explorer.Prelude.{◌≡◌, Bool, true, not, Option, none, some, [], if◌then◌else◌}
use aws_explorer.Go.Text.{Text, str, eq_text, has_prefix, equal_fold}
use aws_explorer.Go.Net.{Ip, parse_ip, ip_string}
use aws_explorer.Vpc.Types.{Snapshot, EniInfo, NaclInfo, Route}
use aws_explorer.Vpc.Lookup.{
  find_eni, find_eni_by_ip, find_nat_gw, nacl_for_subnet, effective_route_table, normalize_dest_ip,
}
use aws_explorer.Vpc.Groups.{TraceRequest, rule_applies}
use aws_explorer.Vpc.Groups.Laws.{HasRule}
use aws_explorer.Vpc.Nacl.{nacl_allows, nacl_allows_ephemeral_return}
use aws_explorer.Vpc.Route.{longest_prefix_route}
use aws_explorer.Vpc.Trace.{same_subnet, ip_of, nat_down}

-- The traffic passes if both ends are in one subnet or the test holds.
abbrev pub Crosses : Bool → Type 0 → Type 0
Crosses same P = if same then Unit else P

abbrev pub Returns : Option NaclInfo → Text → Option Ip → Type 0
Returns acl dir ip = (nacl_allows_ephemeral_return acl dir ip).0 ≡ true

-- At a local route: an address that nobody uses, or an interface whose ACL and groups let the
-- traffic in and, across subnets, the answer out and back.
abbrev pub LocalOpen : Snapshot → TraceRequest → EniInfo → Option EniInfo → Option NaclInfo → Type 0
LocalOpen snap req src none acl = Unit
LocalOpen snap req src (some dst) acl =
    let dst_acl = nacl_for_subnet snap dst.subnet_id in
    let same = same_subnet src (some dst) in
    Crosses same
      ((nacl_allows dst_acl (str "Inbound") req.protocol req.port (ip_of src.private_ip)).0 ≡ true)
    × (HasRule snap (rule_applies (str "Inbound") (ip_of src.private_ip) (some src) req)
          dst.security_groups
        × Crosses same (
            Returns dst_acl (str "Outbound") (ip_of src.private_ip)
            × Returns acl (str "Inbound") (ip_of dst.private_ip)))

-- At the target of the route, with the ACL of the source.
abbrev pub TargetOpen :
    Snapshot → TraceRequest → EniInfo → Ip → Option EniInfo → Option NaclInfo → Route → Type 0
TargetOpen snap req src ip dst acl r =
    if equal_fold r.target (str "local")
    then LocalOpen snap req src dst acl
    else if has_prefix r.target (str "igw-")
    then (not (eq_text src.public_ip []) ≡ true) × Returns acl (str "Inbound") (some ip)
    else if has_prefix r.target (str "nat-")
    then (not (nat_down (find_nat_gw snap r.target)) ≡ true) × Returns acl (str "Inbound") (some ip)
    else Unit

-- From the source: an outbound rule, the ACL of its subnet, a route that is no blackhole, and what
-- the target of the route asks.
abbrev pub SourceOpen : Snapshot → TraceRequest → EniInfo → Ip → Option EniInfo → Type 0
SourceOpen snap req src ip dst =
    let acl = nacl_for_subnet snap src.subnet_id in
    HasRule snap (rule_applies (str "Outbound") (some ip) dst req) src.security_groups
    × (Crosses (same_subnet src dst)
          ((nacl_allows acl (str "Outbound") req.protocol req.port (some ip)).0 ≡ true)
        × ((r : Route) × (longest_prefix_route (effective_route_table snap src.subnet_id) ip
              ≡ some r)
            × ((not (equal_fold r.state (str "blackhole")) ≡ true)
                × TargetOpen snap req src ip dst acl r)))

abbrev pub PathOpen : Snapshot → TraceRequest → Type 0
PathOpen snap req =
    (src : EniInfo) × (find_eni snap req.source_eni_id ≡ some src)
    × ((ip : Ip) × (parse_ip (normalize_dest_ip req.dest_ip) ≡ some ip)
        × SourceOpen snap req src ip (find_eni_by_ip snap (ip_string ip)))
