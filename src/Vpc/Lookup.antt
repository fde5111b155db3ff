-- ===== src/Vpc/Lookup.antt =====
-- The lookups of internal/vpctui/pathtrace.go and internal/vpctui/findings.go in a snapshot.
use aws_explorer.Prelude.{
  Bool, false, ◌||◌, Option, none, some, List, [], ◌∷◌, if◌then◌else◌, any, find,
}
use aws_explorer.Go.Text.{Text, str, eq_text, trim_space, has_prefix, to_lower, cut}
use aws_explorer.Vpc.Types.{Snapshot, EniInfo, NatGwInfo, SgInfo, RouteTableInfo, NaclInfo}

pub is_eni : Text → EniInfo → Bool
is_eni id e = eq_text e.id id

unfoldable pub find_eni : Snapshot → Text → Option EniInfo
unfolding is_eni
find_eni snap id = find (is_eni id) snap.network_interfaces

pub has_ip : Text → EniInfo → Bool
unfolding any
has_ip ip e = eq_text e.private_ip ip || any (λ sec. eq_text sec ip) e.secondary_ips

unfoldable pub find_eni_by_ip : Snapshot → Text → Option EniInfo
unfolding has_ip
find_eni_by_ip snap ip = find (has_ip ip) snap.network_interfaces

pub is_nat : Text → NatGwInfo → Bool
is_nat id n = eq_text n.id id

unfoldable pub find_nat_gw : Snapshot → Text → Option NatGwInfo
unfolding is_nat
find_nat_gw snap id = find (is_nat id) snap.nat_gateways

pub is_sg : Text → SgInfo → Bool
is_sg id sg = eq_text sg.id id

unfoldable pub find_sg : Snapshot → Text → Option SgInfo
unfolding is_sg
find_sg snap id = find (is_sg id) snap.security_groups

-- The loop of `naclForSubnet` and of `effectiveRouteTable`: it returns the first item associated
-- with the subnet, and else the last that is the default.
module _ {A : Type 0} (is_default : A → Bool) (associations : A → List Text) where
  unfoldable pub serves : Text → A → Bool
  serves subnet n = any (λ a. eq_text a subnet) (associations n)

  unfoldable pub associated : Text → Option A → List A → Option A
  unfolding serves
  associated subnet def [] = def
  associated subnet def (n ∷ ns) =
      let rest = associated subnet (if is_default n then some n else def) ns in
      if serves subnet n then some n else rest

unfoldable pub nacl_for_subnet : Snapshot → Text → Option NaclInfo
unfolding associated
nacl_for_subnet snap subnet =
    associated (λ n. n.is_default) (λ n. n.associations) subnet none snap.network_acls

unfoldable pub effective_route_table : Snapshot → Text → Option RouteTableInfo
unfolding associated
effective_route_table snap subnet =
    associated (λ rt. rt.is_main) (λ rt. rt.associations) subnet none snap.route_tables

-- a rule of one of the interface's security groups names a prefix list
sg_has_prefix_list : Snapshot → Option EniInfo → Bool
unfolding find_sg any
sg_has_prefix_list snap none = false
sg_has_prefix_list snap (some eni) =
    any
      (λ id. elim (find_sg snap id) [
        | none ↦ false
        | some sg ↦ any (λ r. has_prefix (trim_space r.source) (str "pl-")) sg.rules
      ])
      eni.security_groups

routes_have_prefix_list : Option RouteTableInfo → Bool
unfolding any
routes_have_prefix_list none = false
routes_have_prefix_list (some rt) = any (λ r. has_prefix r.destination (str "pl-")) rt.routes

-- `src` is not nil where `tracePath` makes the call.
unfoldable pub has_prefix_list_elements : Snapshot → EniInfo → Option EniInfo → Bool
unfolding sg_has_prefix_list routes_have_prefix_list effective_route_table
has_prefix_list_elements snap src dst =
    sg_has_prefix_list snap (some src)
    || sg_has_prefix_list snap dst
    || routes_have_prefix_list (effective_route_table snap src.subnet_id)

unfoldable pub normalize_dest_ip : Text → Text
normalize_dest_ip s =
    let trimmed = trim_space s in
    let l = to_lower trimmed in
    if eq_text l (str "internet")
      || eq_text l (str "any")
      || eq_text l (str "0.0.0.0/0")
      || eq_text l (str "0.0.0.0")
    then str "1.1.1.1"
    else (cut b'/' trimmed).0

unfoldable pub or_dash : Text → Text
or_dash s = if eq_text s [] then str "-" else s

unfoldable pub route_target_kind : Text → Text
route_target_kind target =
    if eq_text target (str "local")
    then str "local"
    else if has_prefix target (str "igw-")
    then str "internet gateway"
    else if has_prefix target (str "nat-")
    then str "NAT gateway"
    else if has_prefix target (str "pcx-")
    then str "VPC peering"
    else if has_prefix target (str "vpce-")
    then str "VPC endpoint"
    else if has_prefix target (str "tgw-")
    then str "transit gateway"
    else if has_prefix target (str "eigw-")
    then str "egress-only internet gateway"
    else if has_prefix target (str "cagw-")
    then str "carrier gateway"
    else if has_prefix target (str "lgw-")
    then str "local gateway"
    else str "gateway"
