-- ===== src/Vpc/SnapshotDiff/Facts.antt =====
-- `diffSections` of internal/vpctui/snapshotdiff.go: the facts of each resource.
use aws_explorer.Prelude.{Bool, Option, none, some, List, [], ◌∷◌, ◌++◌, map, if◌then◌else◌, sort}
use aws_explorer.Go.Text.{Text, str, to_lower, cat, join, less_text}
use aws_explorer.Go.Number.{itoa}
use aws_explorer.Go.Map.{Dict, get, put}
use aws_explorer.Vpc.Types.{
  Snapshot, SgInfo, Route, RouteTableInfo, SubnetInfo, NaclRule, NaclInfo, NatGwInfo, IgwInfo,
  PeeringInfo, EndpointInfo, EniInfo,
}
use aws_explorer.Vpc.Effective.{rule_key}

pub record DiffSection : Type 0 where
  pub name : Text
  pub facts : Snapshot → Dict (List Text)

unfoldable pub sorted : List Text → List Text
unfolding sort less_text
sorted fs = sort less_text fs

-- `m[id] = facts` for each resource: a later one with the same ID replaces the earlier
unfoldable pub collect {ℓ} :
    {A : Type ℓ} → (A → Text) → (A → List Text) → List A → Dict (List Text) → Dict (List Text)
unfolding put
collect id_of facts_of [] m = m
collect id_of facts_of (x ∷ xs) m = collect id_of facts_of xs (put (id_of x) (facts_of x) m)

-- `%t`
unfoldable pub bool_text : Bool → Text
bool_text b = if b then str "true" else str "false"

unfoldable pub group_facts : SgInfo → List Text
unfolding sorted
group_facts sg = sorted (map rule_key sg.rules)

route_fact : Route → Text
route_fact r = cat (r.destination ∷ str " -> " ∷ r.target ∷ str " (" ∷ r.state ∷ str ")" ∷ [])

prefixed : Text → List Text → List Text
prefixed p ids = map (λ a. p ++ a) ids

unfoldable pub table_facts : RouteTableInfo → List Text
unfolding sorted route_fact prefixed
table_facts rt = sorted (map route_fact rt.routes ++ prefixed (str "assoc ") rt.associations)

unfoldable pub subnet_facts : SubnetInfo → List Text
unfolding bool_text
subnet_facts s =
    (str "cidr=" ++ s.cidr)
    ∷ (str "az=" ++ s.az)
    ∷ (str "mapPublicIp=" ++ bool_text s.map_public_ip_on_launch)
    ∷ []

nacl_fact : NaclRule → Text
nacl_fact r =
    join
      (to_lower r.direction
        ∷ itoa r.rule_number
        ∷ r.action
        ∷ r.protocol
        ∷ r.port_range
        ∷ r.cidr
        ∷ [])
      (str " ")

unfoldable pub nacl_facts : NaclInfo → List Text
unfolding sorted nacl_fact prefixed
nacl_facts n = sorted (map nacl_fact n.rules ++ prefixed (str "assoc ") n.associations)

or_empty : Option (List Text) → List Text
or_empty none = []
or_empty (some fs) = fs

-- the facts of two ACLs with the same ID are appended
unfoldable pub collect_nacls : List NaclInfo → Dict (List Text) → Dict (List Text)
unfolding get put or_empty nacl_facts
collect_nacls [] m = m
collect_nacls (n ∷ ns) m = collect_nacls ns (put n.id (or_empty (get n.id m) ++ nacl_facts n) m)

unfoldable pub nat_facts : NatGwInfo → List Text
nat_facts n =
    (str "state=" ++ n.state)
    ∷ (str "subnet=" ++ n.subnet_id)
    ∷ (str "publicIp=" ++ n.public_ip)
    ∷ []

unfoldable pub igw_facts : IgwInfo → List Text
igw_facts g = (str "state=" ++ g.state) ∷ (str "vpc=" ++ g.vpc_id) ∷ []

unfoldable pub peering_facts : PeeringInfo → List Text
peering_facts p = (str "status=" ++ p.status) ∷ []

unfoldable pub endpoint_facts : EndpointInfo → List Text
unfolding sorted bool_text prefixed
endpoint_facts e = sorted (
    (str "state=" ++ e.state)
    ∷ (str "privateDns=" ++ bool_text e.private_dns_enabled)
    ∷ (prefixed (str "rt ") e.route_table_ids
        ++ (prefixed (str "sg ") e.security_groups ++ prefixed (str "subnet ") e.subnet_ids)))

unfoldable pub eni_facts : EniInfo → List Text
unfolding sorted
eni_facts e =
    (str "subnet=" ++ e.subnet_id)
    ∷ (str "privateIp=" ++ e.private_ip)
    ∷ (str "publicIp=" ++ e.public_ip)
    ∷ (str "sgs=" ++ join (sorted e.security_groups) (str ","))
    ∷ []

unfoldable pub diff_sections : List DiffSection
unfolding collect collect_nacls
diff_sections =
    record {
      name = str "Security group";
      facts = λ s. collect (λ x. x.id) group_facts s.security_groups [];
    }
    ∷ record {
      name = str "Route table";
      facts = λ s. collect (λ x. x.id) table_facts s.route_tables [];
    }
    ∷ record { name = str "Subnet"; facts = λ s. collect (λ x. x.id) subnet_facts s.subnets [] }
    ∷ record { name = str "Network ACL"; facts = λ s. collect_nacls s.network_acls [] }
    ∷ record {
      name = str "NAT gateway";
      facts = λ s. collect (λ x. x.id) nat_facts s.nat_gateways [];
    }
    ∷ record {
      name = str "Internet gateway";
      facts = λ s. collect (λ x. x.id) igw_facts s.internet_gateways [];
    }
    ∷ record { name = str "Peering"; facts = λ s. collect (λ x. x.id) peering_facts s.peerings [] }
    ∷ record {
      name = str "VPC endpoint";
      facts = λ s. collect (λ x. x.id) endpoint_facts s.endpoints [];
    }
    ∷ record {
      name = str "Network interface";
      facts = λ s. collect (λ x. x.id) eni_facts s.network_interfaces [];
    }
    ∷ []
