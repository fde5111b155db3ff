-- ===== src/Vpc/Exposure.antt =====
-- The public exposure report of internal/vpctui/exposure.go.
pub mod Laws
pub mod Report
use aws_explorer.Prelude.{
  Bool, true, false, ◌&&◌, ◌||◌, not, Option, none, some, List, [], ◌∷◌, ◌++◌, map, if◌then◌else◌,
  filter, flat_map, sort,
}
use aws_explorer.Go.Text.{Text, str, eq_text, cat, join, less_text, member}
use aws_explorer.Vpc.Types.{Snapshot, SgRule, SgInfo, SubnetInfo, EniInfo}
use aws_explorer.Vpc.Lookup.{find_sg, effective_route_table}
use aws_explorer.Vpc.Explain.{is_public_source, describe_proto_ports}
use aws_explorer.Vpc.Findings.Types.{sg_label, subnet_label}
use aws_explorer.Vpc.Findings.Groups.{is_inbound}
use aws_explorer.Vpc.CrossReference.Groups.{XrefGroup, has_items}
use aws_explorer.Vpc.Findings.Routes.{has_igw, has_default_route}

-- what the loops do with a phrase: append it unless it has been seen
unfoldable pub add_phrases : List SgRule → List Text → List Text
add_phrases [] ports = ports
add_phrases (r ∷ rs) ports =
    let p = describe_proto_ports r.protocol r.port_range in
    let skipped = add_phrases rs ports in
    let kept = add_phrases rs (ports ++ (p ∷ [])) in
    if not (is_inbound r) || not (is_public_source r.source)
    then skipped
    else if not (member p ports)
    then kept
    else skipped

rules_in : Option SgInfo → List SgRule
rules_in none = []
rules_in (some sg) = sg.rules

unfoldable pub public_inbound_ports : Snapshot → List Text → List Text
unfolding sort less_text add_phrases flat_map rules_in
public_inbound_ports snap ids =
    sort less_text (add_phrases (flat_map (λ id. rules_in (find_sg snap id)) ids) [])

unfoldable pub eni_label : EniInfo → Text
eni_label e =
    let label = cat (e.id ∷ str " (" ∷ e.public_ip ∷ str ")" ∷ []) in
    if not (eq_text e.attached_to []) && not (eq_text e.attached_to (str "-"))
    then cat (label ∷ str " → " ∷ e.attached_to ∷ [])
    else label

-- `ports` after a test that it is not empty
with_ports : Text → List Text → List Text
with_ports label [] = []
with_ports label (p ∷ ports) = cat (label ∷ str " — " ∷ join (p ∷ ports) (str ", ") ∷ []) ∷ []

unfoldable pub reachable_eni : Snapshot → EniInfo → List Text
unfolding eni_label with_ports public_inbound_ports has_igw
reachable_eni snap e =
    if eq_text e.public_ip []
    then []
    else if not (has_igw (effective_route_table snap e.subnet_id))
    then []
    else with_ports (eni_label e) (public_inbound_ports snap e.security_groups)

unfoldable pub has_public_route : Snapshot → SubnetInfo → Bool
unfolding has_igw
has_public_route snap s =
    let rt = effective_route_table snap s.id in
    has_igw rt || has_default_route rt (str "::/0") (str "igw-" ∷ [])

unfoldable pub open_group : SgInfo → List Text
unfolding with_ports add_phrases
open_group sg = with_ports (sg_label sg) (add_phrases sg.rules [])

abbrev pub reachable_label : Text
reachable_label =
    str "⚠ Internet-reachable interfaces (public IP + IGW route + open security group)"

unfoldable pub exposure_report : Snapshot → List XrefGroup
unfolding filter flat_map sort less_text reachable_eni has_public_route open_group has_items
exposure_report snap = filter has_items (
    record {
      label = reachable_label;
      items = sort less_text (flat_map (reachable_eni snap) snap.network_interfaces);
    }
    ∷ record {
      label = str "Public subnets (route to an internet gateway)";
      items = sort less_text (map subnet_label (filter (has_public_route snap) snap.subnets));
    }
    ∷ record {
      label = str "Security groups open to the internet (inbound from 0.0.0.0/0)";
      items = sort less_text (flat_map open_group snap.security_groups);
    }
    ∷ record {
      label = str "Network interfaces with a public IP";
      items =
          sort less_text
            (map eni_label (filter (λ e. not (eq_text e.public_ip [])) snap.network_interfaces));
    }
    ∷ [])
