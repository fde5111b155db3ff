-- ===== src/Vpc/Groups.antt =====
-- Security-group matching of internal/vpctui/pathtrace.go.
pub mod Laws
use aws_explorer.Prelude.{
  Bool, true, false, ◌&&◌, ◌||◌, Option, none, some, List, [], ◌∷◌, if◌then◌else◌, any, find,
}
use aws_explorer.Go.Text.{
  Text, str, eq_text, trim_space, has_prefix, equal_fold, to_upper, cat, join,
}
use aws_explorer.Go.Number.{ℤ, is_neg, itoa_int}
use aws_explorer.Go.Net.{Ip, ip_string}
use aws_explorer.Vpc.Types.{Snapshot, EniInfo, SgRule, SgInfo}
use aws_explorer.Vpc.Match.{proto_match, port_match, cidr_contains_ip}
use aws_explorer.Vpc.Explain.{describe_proto_ports}
use aws_explorer.Vpc.Lookup.{find_sg}

-- `port` is -1 for any.
pub record TraceRequest : Type 0 where
  pub source_eni_id : Text
  pub dest_ip : Text
  pub protocol : Text
  pub port : ℤ

-- `%s` of a `net.IP`
unfoldable pub ip_text : Option Ip → Text
ip_text none = str "<nil>"
ip_text (some ip) = ip_string ip

unfoldable pub describe_req_ports : TraceRequest → Text
describe_req_ports req =
    if is_neg req.port
    then to_upper req.protocol
    else cat (to_upper req.protocol ∷ str " " ∷ itoa_int req.port ∷ [])

eni_in_group : Option EniInfo → Text → Bool
unfolding any
eni_in_group none peer = false
eni_in_group (some eni) peer = any (λ g. eq_text g peer) eni.security_groups

unfoldable pub sg_peer_matches : Text → Option Ip → Option EniInfo → Bool
unfolding eni_in_group
sg_peer_matches rule_peer ip eni =
    let peer = trim_space rule_peer in
    if eq_text peer [] || eq_text peer (str "-")
    then false
    else if has_prefix peer (str "sg-")
    then eni_in_group eni peer
    else cidr_contains_ip peer ip

-- the test in the inner loop of `sgEgressAllows` and `sgIngressAllows`
unfoldable pub rule_applies : Text → Option Ip → Option EniInfo → TraceRequest → SgRule → Bool
rule_applies dir ip eni req r =
    equal_fold r.direction dir
    && (proto_match r.protocol req.protocol
        && port_match r.port_range req.port
        && sg_peer_matches r.source ip eni)

-- the two loops: the first group with a rule that applies, and the rule
unfoldable pub first_rule : Snapshot → (SgRule → Bool) → List Text → Option (Text × SgRule)
unfolding find_sg
first_rule snap applies [] = none
first_rule snap applies (id ∷ ids) =
    let rest = first_rule snap applies ids in
    elim (find_sg snap id) [
      | none ↦ rest
      | some sg ↦ elim (find applies sg.rules) [ none ↦ rest | some r ↦ some (id, r) ]
    ]

sg_verdict : Option (Text × SgRule) → Text → Bool × Text
unfolding describe_proto_ports
sg_verdict none why = (false, why)
sg_verdict (some (id, r)) why =
    (true, cat (id ∷ str " allows " ∷ describe_proto_ports r.protocol r.port_range ∷ []))

unfoldable pub sg_egress_allows :
    Snapshot → EniInfo → Ip → Option EniInfo → TraceRequest → Bool × Text
unfolding sg_verdict first_rule describe_req_ports ip_text
sg_egress_allows snap src dest_ip dst req =
    sg_verdict
      (first_rule snap (rule_applies (str "Outbound") (some dest_ip) dst req) src.security_groups)
      (cat (
        str "no egress rule on "
        ∷ join src.security_groups (str "/")
        ∷ str " allows "
        ∷ describe_req_ports req
        ∷ str " to "
        ∷ ip_text (some dest_ip)
        ∷ []))

unfoldable pub sg_ingress_allows :
    Snapshot → EniInfo → Option Ip → EniInfo → TraceRequest → Bool × Text
unfolding sg_verdict first_rule describe_req_ports ip_text
sg_ingress_allows snap dst src_ip src req =
    sg_verdict
      (first_rule snap (rule_applies (str "Inbound") src_ip (some src) req) dst.security_groups)
      (cat (
        str "no ingress rule on "
        ∷ join dst.security_groups (str "/")
        ∷ str " allows "
        ∷ describe_req_ports req
        ∷ str " from "
        ∷ ip_text src_ip
        ∷ []))
