-- ===== src/Vpc/Trace.antt =====
-- `tracePath` of internal/vpctui/pathtrace.go: the forward path and the stateless return path of a
-- connection, evaluated hop by hop up to the first that blocks it.
pub mod Rules
pub mod Verdict
pub mod Open
pub mod Needs
pub mod Reach
use aws_explorer.Prelude.{
  Bool, true, false, ◌&&◌, not, Option, none, some, List, [], ◌∷◌, ◌++◌, if◌then◌else◌, ◌⊎◌, inl,
  inr,
}
use aws_explorer.Go.Text.{Text, str, eq_text, trim_space, equal_fold, has_prefix, cat}
use aws_explorer.Go.Net.{Ip, parse_ip, ip_string}
use aws_explorer.Vpc.Types.{Snapshot, EniInfo, NatGwInfo, NaclInfo, Route}
use aws_explorer.Vpc.Lookup.{
  find_eni, find_eni_by_ip, find_nat_gw, nacl_for_subnet, effective_route_table,
  has_prefix_list_elements, normalize_dest_ip, or_dash, route_target_kind,
}
use aws_explorer.Vpc.Groups.{TraceRequest, sg_egress_allows, sg_ingress_allows}
use aws_explorer.Vpc.Nacl.{nacl_allows, nacl_allows_ephemeral_return}
use aws_explorer.Vpc.Route.{longest_prefix_route}

pub data HopStatus : Type 0 where
  pass fail note : HopStatus

pub record TraceHop : Type 0 where
  pub status : HopStatus
  pub name : Text
  pub detail : Text

pub record TraceResult : Type 0 where
  pub reachable : Bool
  pub summary : Text
  pub hops : List TraceHop

-- A step of the trace sees the hops so far. It ends the trace with a result, or goes on with a value
-- and more hops.
pub data Run (A : Type 0) : Type 0 where
  halt : TraceResult → Run A
  go : A → List TraceHop → Run A

abbrev pub Step : Type 0 → Type 0
Step A = List TraceHop → Run A

infixl 5 ◌>>=◌ ◌>>◌
pub ◌>>=◌ : {A B : Type 0} → Step A → (A → Step B) → Step B
◌>>=◌ m f hops = elim (m hops) [ halt r ↦ halt r | go a hops' ↦ f a hops' ]

abbrev pub ◌>>◌ : {B : Type 0} → Step (Unit {0}) → Step B → Step B
m >> k = m >>= λ _. k

pub pure : {A : Type 0} → A → Step A
pure a hops = go a hops

-- `add`
pub add : HopStatus → Text → Text → Step (Unit {0})
add status name detail hops =
    go tt (hops ++ record { status = status; name = name; detail = detail } ∷ [])

-- `return fail(name, detail)`
pub block : {A : Type 0} → Text → Text → Step A
block name detail hops = halt (record {
  reachable = false;
  summary = str "❌ Blocked at: " ++ name;
  hops = hops ++ record { status = fail; name = name; detail = detail } ∷ [];
})

-- `res.Reachable = true; res.Summary = summary; return res`
pub reach : Text → Step (Unit {0})
reach summary hops = halt (record { reachable = true; summary = summary; hops = hops })

-- `if ok, why := …; ok { add(hopPass, name, why) } else { return fail(name, why) }`
pub check : Text → Bool × Text → Step (Unit {0})
check name (true, why) = add pass name why
check name (false, why) = block name why

-- `if ok, why := …; !ok { return fail(name, why) }`
pub require : Text → Bool × Text → Step (Unit {0})
require name (true, why) = pure tt
require name (false, why) = block name why

-- a `nil` that ends the trace
pub present : {A : Type 0} → Text → Text → Option A → Step A
present name detail none = block name detail
present name detail (some a) = pure a

-- `check` unless both ends are in one subnet
pub boundary : Bool → Text → Text → Bool × Text → Step (Unit {0})
unfolding check
boundary true name skipped verdict = add note name skipped
boundary false name skipped verdict = check name verdict

-- `sameSubnet`
unfoldable pub same_subnet : EniInfo → Option EniInfo → Bool
same_subnet src none = false
same_subnet src (some d) = not (eq_text src.subnet_id []) && eq_text src.subnet_id d.subnet_id

-- `ipOf`
unfoldable pub ip_of : Text → Option Ip
ip_of s = parse_ip (trim_space s)

prefix_list_note : Bool → Step (Unit {0})
prefix_list_note false = pure tt
prefix_list_note true = add note (str "Prefix lists") (
    str
      "some security-group rules or routes reference managed prefix lists (pl-…), which this trace cannot expand; the verdict may be incomplete")

pub returns : Bool → Option NaclInfo → Option NaclInfo → EniInfo → EniInfo → Step (Unit {0})
unfolding require
returns true src_nacl dst_nacl src dst = pure tt
returns false src_nacl dst_nacl src dst = do
  require (str "Destination NACL return (stateless)")
      (nacl_allows_ephemeral_return dst_nacl (str "Outbound") (ip_of src.private_ip))
  require (str "Source NACL return (stateless)")
      (nacl_allows_ephemeral_return src_nacl (str "Inbound") (ip_of dst.private_ip))

-- `case internal`
pub local_target :
    Snapshot → TraceRequest → EniInfo → Ip → Option EniInfo → Option NaclInfo → Step (Unit {0})
unfolding boundary check returns
local_target snap req src dest_ip none src_nacl = do
  add note (str "Destination") (
      cat (
        ip_string dest_ip
        ∷ str " is inside the VPC CIDR but no ENI currently uses that address"
        ∷ []))
  reach (str "⚠ Path is open, but no resource is using the destination address")
local_target snap req src dest_ip (some dst) src_nacl = do
  let dst_nacl = nacl_for_subnet snap dst.subnet_id
  let same = same_subnet src (some dst)
  boundary same (str "Destination NACL ingress")
      (str "skipped — same-subnet traffic does not cross the subnet boundary")
      (nacl_allows dst_nacl (str "Inbound") req.protocol req.port (ip_of src.private_ip))
  check (str "Destination security group ingress")
      (sg_ingress_allows snap dst (ip_of src.private_ip) src req)
  returns same src_nacl dst_nacl src dst
  reach (cat (str "✅ Reachable: " ∷ src.id ∷ str " → " ∷ dst.id ∷ []))

-- `case strings.HasPrefix(route.Target, "igw-")`
pub igw_target : EniInfo → Ip → Option NaclInfo → Route → Step (Unit {0})
unfolding require
igw_target src dest_ip src_nacl route = do
  require (str "Internet gateway") (
    not (eq_text src.public_ip []),
    cat (
        src.id
        ∷ str
            " has no public IP or Elastic IP, so it cannot use the internet gateway for direct internet access"
        ∷ []),
  )
  add pass (str "Internet gateway")
      (cat (str "egress via " ∷ route.target ∷ str " with public IP " ∷ src.public_ip ∷ []))
  require (str "Source NACL return (stateless)")
      (nacl_allows_ephemeral_return src_nacl (str "Inbound") (some dest_ip))
  reach (str "✅ Reachable: internet via internet gateway")

-- The gateway is in the snapshot with a state other than "available".
unfoldable pub nat_down : Option NatGwInfo → Bool
nat_down none = false
nat_down (some n) = not (eq_text n.state []) && not (equal_fold n.state (str "available"))

nat_state : Option NatGwInfo → Text
nat_state none = []
nat_state (some n) = n.state

-- `case strings.HasPrefix(route.Target, "nat-")`; the state holds nothing that `%q` escapes.
pub nat_target : Snapshot → Ip → Option NaclInfo → Route → Step (Unit {0})
unfolding require nat_state
nat_target snap dest_ip src_nacl route = do
  let nat = find_nat_gw snap route.target
  require (str "NAT gateway") (
    not (nat_down nat),
    cat (
        route.target
        ∷ str " is in state \""
        ∷ nat_state nat
        ∷ str "\" and cannot forward traffic"
        ∷ []),
  )
  add pass (str "NAT gateway") (cat (str "private egress to the internet via " ∷ route.target ∷ []))
  require (str "Source NACL return (stateless)")
      (nacl_allows_ephemeral_return src_nacl (str "Inbound") (some dest_ip))
  reach (str "✅ Reachable: internet via NAT gateway")

-- `default`
pub other_target : Route → Step (Unit {0})
other_target route = do
  add note (str "Egress target") (
      cat (
        str "routed to "
        ∷ route.target
        ∷ str " ("
        ∷ route_target_kind route.target
        ∷ str "); reachability beyond this point is not evaluated"
        ∷ []))
  reach (cat (str "⚠ Path is open up to " ∷ route.target ∷ []))

-- the final `switch`
pub deliver :
    Snapshot
    → TraceRequest
    → EniInfo
    → Ip
    → Option EniInfo
    → Option NaclInfo
    → Route
    → Step (Unit {0})
unfolding local_target igw_target nat_target other_target
deliver snap req src dest_ip dst src_nacl route =
    if equal_fold route.target (str "local")
    then local_target snap req src dest_ip dst src_nacl
    else if has_prefix route.target (str "igw-")
    then igw_target src dest_ip src_nacl route
    else if has_prefix route.target (str "nat-")
    then nat_target snap dest_ip src_nacl route
    else other_target route

-- the route-table lookup
pub routed : Snapshot → EniInfo → Ip → Step Route
unfolding present require
routed snap src dest_ip = do
  route ←
      present (str "Route table") (cat (str "no route matches " ∷ ip_string dest_ip ∷ []))
        (longest_prefix_route (effective_route_table snap src.subnet_id) dest_ip)
  require (str "Route table") (
    not (equal_fold route.state (str "blackhole")),
    cat (
        str "route to "
        ∷ route.destination
        ∷ str " is a blackhole (target "
        ∷ or_dash route.target
        ∷ str " no longer exists)"
        ∷ []),
  )
  add pass (str "Route table") (
      cat (
        route.destination
        ∷ str " → "
        ∷ or_dash route.target
        ∷ str " ("
        ∷ route_target_kind route.target
        ∷ str ")"
        ∷ []))
  pure route

pub trace_steps : Snapshot → TraceRequest → Step (Unit {0})
unfolding present check boundary prefix_list_note routed deliver
trace_steps snap req = do
  src ←
      present (str "Source")
        (cat (str "source network interface " ∷ req.source_eni_id ∷ str " not found" ∷ []))
        (find_eni snap req.source_eni_id)
  dest_ip ←
      present (str "Destination") (cat (str "could not parse destination IP " ∷ req.dest_ip ∷ []))
        (parse_ip (normalize_dest_ip req.dest_ip))
  let dst = find_eni_by_ip snap (ip_string dest_ip)
  add note (str "Source") (
      cat (
        src.id
        ∷ str " ("
        ∷ or_dash src.private_ip
        ∷ str ") in subnet "
        ∷ or_dash src.subnet_id
        ∷ []))
  prefix_list_note (has_prefix_list_elements snap src dst)
  check (str "Security group egress") (sg_egress_allows snap src dest_ip dst req)
  let src_nacl = nacl_for_subnet snap src.subnet_id
  boundary (same_subnet src dst) (str "Source NACL egress")
      (cat (
        str "skipped — both interfaces are in "
        ∷ src.subnet_id
        ∷ str " and NACLs only apply to traffic crossing the subnet boundary"
        ∷ []))
      (nacl_allows src_nacl (str "Outbound") req.protocol req.port (some dest_ip))
  route ← routed snap src dest_ip
  deliver snap req src dest_ip dst src_nacl route

-- Every path ends in a `return`; the first case is never met (`Laws.trace_path-Ends`).
result_of : Run (Unit {0}) → TraceResult
result_of (go _ hops) = record { reachable = false; summary = []; hops = hops }
result_of (halt r) = r

unfoldable pub trace_path : Snapshot → TraceRequest → TraceResult
unfolding trace_steps result_of ◌>>=◌ add block reach pure
trace_path snap req = result_of (trace_steps snap req [])
