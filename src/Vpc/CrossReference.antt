-- ===== src/Vpc/CrossReference.antt =====
-- The relations of a resource in a snapshot: internal/vpctui/xref.go.
pub mod Groups
pub mod Unused
use aws_explorer.Prelude.{
  Bool, true, false, ◌&&◌, ◌||◌, not, Option, none, some, List, [], ◌∷◌, ◌++◌, map, if◌then◌else◌,
  filter, flat_map, find,
}
use aws_explorer.Go.Text.{Text, str, eq_text, has_prefix, to_lower, cat, join, member}
use aws_explorer.Vpc.Types.{
  Snapshot, SgRule, SgInfo, Route, RouteTableInfo, NaclInfo, NatGwInfo, EniInfo, EndpointInfo,
  PeeringInfo,
}
use aws_explorer.Vpc.Lookup.{route_target_kind}
use aws_explorer.Vpc.Findings.Types.{sg_label, rt_label_name, nacl_label, nat_label}
use aws_explorer.Vpc.Findings.Nacls.{peering_side_cidrs}
use aws_explorer.Vpc.CrossReference.Groups.{XrefGroup, group, has_items, when_set}

-- the route tables with a route to the target, each with the first such route
targeting : Text → RouteTableInfo → Option Route → List Text
targeting id rt none = []
targeting id rt (some r) =
    cat (rt_label_name rt ∷ str " (route " ∷ r.destination ∷ str ")" ∷ []) ∷ []

unfoldable pub route_tables_targeting : Snapshot → Text → List Text
unfolding targeting flat_map find
route_tables_targeting snap id =
    flat_map (λ rt. targeting id rt (find (λ (r : Route). eq_text r.target id) rt.routes))
      snap.route_tables

unfoldable pub attached_label : EniInfo → Text
attached_label e =
    if not (eq_text e.attached_to []) && not (eq_text e.attached_to (str "-"))
    then cat (e.id ∷ str " → " ∷ e.attached_to ∷ [])
    else e.id

reference : SgInfo → Option SgRule → List Text
reference sg none = []
reference sg (some r) = cat (sg_label sg ∷ str " (" ∷ to_lower r.direction ∷ str " rule)" ∷ []) ∷ []

-- what a group adds to the references to another
unfoldable pub references_from : Text → SgInfo → List Text
unfolding reference find
references_from id sg =
    if eq_text sg.id id
    then []
    else reference sg (find (λ (r : SgRule). eq_text r.source id) sg.rules)

unfoldable pub xref_security_group : Snapshot → Text → List XrefGroup
unfolding group attached_label references_from flat_map filter
xref_security_group snap id =
    group (str "Attached to network interfaces") (
      map attached_label
        (filter (λ (e : EniInfo). member id e.security_groups) snap.network_interfaces))
    ∷ group (str "Referenced by other security groups")
        (flat_map (references_from id) snap.security_groups)
    ∷ []

-- The loop over the tables or the ACLs of `xrefSubnet`: the labels of those associated with the
-- subnet, and with none of them the label of the last default, with a suffix.
module _ {A : Type 0} (is_default : A → Bool) (associations : A → List Text)
    (label : A → Text) where
  last_default : Text → List A → Text
  last_default found [] = found
  last_default found (x ∷ xs) = last_default (if is_default x then label x else found) xs

  or_default : Text → Text → List Text → List Text
  or_default def suffix (x ∷ xs) = x ∷ xs
  or_default def suffix [] = if not (eq_text def []) then (def ++ suffix) ∷ [] else []

  unfoldable pub associated_labels : Text → Text → List A → List Text
  unfolding last_default or_default filter
  associated_labels id suffix xs =
      or_default (last_default [] xs) suffix
        (map label (filter (λ x. member id (associations x)) xs))

unfoldable pub xref_subnet : Snapshot → Text → List XrefGroup
unfolding group associated_labels filter
xref_subnet snap id =
    group (str "Route table") (
      associated_labels (λ (rt : RouteTableInfo). rt.is_main) (λ rt. rt.associations) rt_label_name
        id (str " (main, implicit)") snap.route_tables)
    ∷ group (str "Network ACL") (
        associated_labels (λ (n : NaclInfo). n.is_default) (λ n. n.associations) nacl_label id
          (str " (default)") snap.network_acls)
    ∷ group (str "Network interfaces in subnet") (
        map (λ (e : EniInfo). e.id)
          (filter (λ (e : EniInfo). eq_text e.subnet_id id) snap.network_interfaces))
    ∷ group (str "NAT gateways in subnet")
        (map nat_label (filter (λ (n : NatGwInfo). eq_text n.subnet_id id) snap.nat_gateways))
    ∷ []

-- the targets of the routes, each once
unfoldable pub route_targets : List Text → List Route → List Text
route_targets seen [] = []
route_targets seen (r ∷ rs) =
    let skipped = route_targets seen rs in
    let kept =
      cat (r.target ∷ str " (" ∷ route_target_kind r.target ∷ str ")" ∷ [])
      ∷ route_targets (r.target ∷ seen) rs in
    if eq_text r.target [] || eq_text r.target (str "local") || member r.target seen
    then skipped
    else kept

unfoldable pub xref_route_table : Snapshot → Text → List XrefGroup
unfolding group flat_map filter route_targets
xref_route_table snap id =
    let tables = filter (λ (rt : RouteTableInfo). eq_text rt.id id) snap.route_tables in
    group (str "Associated subnets") (flat_map (λ rt. rt.associations) tables)
    ∷ group (str "Routes to") (route_targets [] (flat_map (λ rt. rt.routes) tables))
    ∷ []

eni_groups : Option EniInfo → List XrefGroup
unfolding group when_set
eni_groups none = []
eni_groups (some e) =
    group (str "Attached to")
      (if eq_text e.attached_to (str "-") then [] else when_set e.attached_to e.attached_to)
    ∷ group (str "Subnet") (when_set e.subnet_id e.subnet_id)
    ∷ group (str "Security groups") e.security_groups
    ∷ []

unfoldable pub xref_eni : Snapshot → Text → List XrefGroup
unfolding eni_groups find
xref_eni snap id = eni_groups (find (λ (e : EniInfo). eq_text e.id id) snap.network_interfaces)

unfoldable pub xref_nat_gateway : Snapshot → Text → List XrefGroup
unfolding group when_set flat_map filter route_tables_targeting
xref_nat_gateway snap id =
    group (str "In subnet") (
      flat_map (λ n. when_set n.subnet_id n.subnet_id)
        (filter (λ (n : NatGwInfo). eq_text n.id id) snap.nat_gateways))
    ∷ group (str "Routed to by route tables") (route_tables_targeting snap id)
    ∷ []

unfoldable pub xref_internet_gateway : Snapshot → Text → List XrefGroup
unfolding group route_tables_targeting
xref_internet_gateway snap id =
    group (str "Routed to by route tables") (route_tables_targeting snap id) ∷ []

unfoldable pub xref_nacl : Snapshot → Text → List XrefGroup
unfolding group flat_map filter
xref_nacl snap id =
    group (str "Associated subnets") (
      flat_map (λ n. n.associations) (filter (λ (n : NaclInfo). eq_text n.id id) snap.network_acls))
    ∷ []

service_label : EndpointInfo → Text
service_label ep =
    if not (eq_text ep.type [])
    then cat (ep.service_name ∷ str " (" ∷ to_lower ep.type ∷ str " endpoint)" ∷ [])
    else ep.service_name

endpoint_groups : Snapshot → Option EndpointInfo → Text → List XrefGroup
unfolding group when_set service_label route_tables_targeting
endpoint_groups snap none id = []
endpoint_groups snap (some ep) id =
    group (str "Service") (when_set ep.service_name (service_label ep))
    ∷ group (str "Associated route tables") ep.route_table_ids
    ∷ group (str "Subnets") ep.subnet_ids
    ∷ group (str "Security groups") ep.security_groups
    ∷ group (str "Routed to by route tables") (route_tables_targeting snap id)
    ∷ []

unfoldable pub xref_endpoint : Snapshot → Text → List XrefGroup
unfolding endpoint_groups find
xref_endpoint snap id =
    endpoint_groups snap (find (λ (ep : EndpointInfo). eq_text ep.id id) snap.endpoints) id

cidr_suffix : List Text → Text
cidr_suffix [] = []
cidr_suffix (c ∷ cs) = cat (str " (" ∷ join (c ∷ cs) (str ", ") ∷ str ")" ∷ [])

unfoldable pub peering_cidr_suffix : Text → List Text → Text
unfolding cidr_suffix peering_side_cidrs
peering_cidr_suffix primary set = cidr_suffix (peering_side_cidrs primary set)

unfoldable pub peering_sides : PeeringInfo → List Text
unfolding when_set peering_cidr_suffix
peering_sides p =
    when_set p.requester_vpc_id (
      cat (
        str "Requester: "
        ∷ p.requester_vpc_id
        ∷ peering_cidr_suffix p.requester_cidr p.requester_cidrs
        ∷ []))
    ++ when_set p.accepter_vpc_id (
        cat (
          str "Accepter: "
          ∷ p.accepter_vpc_id
          ∷ peering_cidr_suffix p.accepter_cidr p.accepter_cidrs
          ∷ []))

unfoldable pub xref_peering : Snapshot → Text → List XrefGroup
unfolding group peering_sides flat_map filter route_tables_targeting
xref_peering snap id =
    group (str "Peered VPCs")
      (flat_map peering_sides (filter (λ (p : PeeringInfo). eq_text p.id id) snap.peerings))
    ∷ group (str "Routed to by route tables") (route_tables_targeting snap id)
    ∷ []

-- the `switch` over the prefix of the ID
unfoldable pub relations_of : Snapshot → Text → Option (List XrefGroup)
relations_of snap id =
    if has_prefix id (str "sg-")
    then some (xref_security_group snap id)
    else if has_prefix id (str "subnet-")
    then some (xref_subnet snap id)
    else if has_prefix id (str "rtb-")
    then some (xref_route_table snap id)
    else if has_prefix id (str "eni-")
    then some (xref_eni snap id)
    else if has_prefix id (str "nat-")
    then some (xref_nat_gateway snap id)
    else if has_prefix id (str "igw-")
    then some (xref_internet_gateway snap id)
    else if has_prefix id (str "acl-")
    then some (xref_nacl snap id)
    else if has_prefix id (str "vpce-")
    then some (xref_endpoint snap id)
    else if has_prefix id (str "pcx-")
    then some (xref_peering snap id)
    else none

shown_groups : Option (List XrefGroup) → List XrefGroup × Bool
unfolding filter has_items
shown_groups none = ([], false)
shown_groups (some gs) = (filter has_items gs, true)

unfoldable pub cross_reference : Snapshot → Text → List XrefGroup × Bool
unfolding shown_groups relations_of
cross_reference snap id = shown_groups (relations_of snap id)
