-- ===== src/Vpc/Trace/Reach.antt =====
-- When a trace says that the destination is reachable.
use aws_explorer.Prelude.{
  ◌≡◌, ◌↔◌, inl, inr, Bool, true, false, not, Option, none, some, [], Bool-cases,
}
use aws_explorer.Go.Text.{str, eq_text, has_prefix, equal_fold}
use aws_explorer.Go.Net.{Ip}
use aws_explorer.Vpc.Types.{Snapshot, EniInfo, NaclInfo, Route}
use aws_explorer.Vpc.Lookup.{find_nat_gw, effective_route_table}
use aws_explorer.Vpc.Groups.{TraceRequest, rule_applies, sg_ingress_allows}
use aws_explorer.Vpc.Groups.Laws.{HasRule, sg_egress_allows_iff, sg_ingress_allows_iff}
use aws_explorer.Vpc.Route.{longest_prefix_route}
use aws_explorer.Vpc.Trace.{
  Run, halt, go, prefix_list_note, returns, ip_of, nat_down, local_target, igw_target, nat_target,
  other_target, deliver, routed, trace_steps, result_of, trace_path,
}
use aws_explorer.Vpc.Trace.Open.{Crosses, Returns, LocalOpen, TargetOpen, PathOpen}
use aws_explorer.Vpc.Trace.Needs.{
  Succeeds, Needs, Needs-iff, bind-Needs, pure-Needs, add-Needs, reach-Needs, require-Needs,
  check-Needs, boundary-Needs, present-Needs, check-Needs_iff,
}

returns-Needs :
    (same : Bool) (acl dst_acl : Option NaclInfo) (src dst : EniInfo)
    → Needs
        (returns same acl dst_acl src dst)
        (λ _. Unit {0})
        (Crosses same (
          Returns dst_acl (str "Outbound") (ip_of src.private_ip)
          × Returns acl (str "Inbound") (ip_of dst.private_ip)))
unfolding returns
returns-Needs true acl dst_acl src dst = pure-Needs _ tt
returns-Needs false acl dst_acl src dst =
    Needs-iff _ (bind-Needs _ (require-Needs _ _ _) (λ _. require-Needs Unit _ _))
      (λ x. (x.0, x.1.0), λ x. (x.0, (x.1, tt)))

prefix_list_note-Needs : (P : Type 0) (b : Bool) → Needs (prefix_list_note b) (λ _. P) P
unfolding prefix_list_note
prefix_list_note-Needs P false = pure-Needs _ tt
prefix_list_note-Needs P true = add-Needs P _ _ _

local_target-Needs :
    (snap : Snapshot) (req : TraceRequest) (src : EniInfo) (ip : Ip) (dst : Option EniInfo)
    (acl : Option NaclInfo)
    → Needs (local_target snap req src ip dst acl) (λ _. ⊥) (LocalOpen snap req src dst acl)
unfolding local_target
local_target-Needs snap req src ip none acl = bind-Needs _ (add-Needs _ _ _ _) (λ _. reach-Needs _)
local_target-Needs snap req src ip (some dst) acl =
    Needs-iff _
      (bind-Needs _ (boundary-Needs _ _ _ _ _) λ _.
        bind-Needs _ (check-Needs _ _ _)
          λ _. bind-Needs _ (returns-Needs _ _ _ _ _) λ _. reach-Needs _)
      (λ x. (x.0, (ingress.0 x.1.0, x.1.1)), λ x. (x.0, (ingress.1 x.1.0, x.1.1)))
  where
    ingress :
        ((sg_ingress_allows snap dst (ip_of src.private_ip) src req).0 ≡ true)
        ↔ HasRule snap
            (rule_applies (str "Inbound") (ip_of src.private_ip) (some src) req)
            dst.security_groups
    ingress = sg_ingress_allows_iff snap req dst (ip_of src.private_ip) src

drop_unit : (P Q : Type 0) → (P × (Q × Unit {0})) ↔ (P × Q)
drop_unit P Q = (λ x. (x.0, x.1.0), λ x. (x.0, (x.1, tt)))

igw_target-Needs :
    (src : EniInfo) (ip : Ip) (acl : Option NaclInfo) (r : Route)
    → Needs
        (igw_target src ip acl r)
        (λ _. ⊥)
        ((not (eq_text src.public_ip []) ≡ true) × Returns acl (str "Inbound") (some ip))
unfolding igw_target
igw_target-Needs src ip acl r =
    Needs-iff _
      (bind-Needs _ (require-Needs _ _ _) λ _.
        bind-Needs _ (add-Needs _ _ _ _) λ _. bind-Needs _ (require-Needs _ _ _) λ _. reach-Needs _)
      (drop_unit _ _)

nat_target-Needs :
    (snap : Snapshot) (ip : Ip) (acl : Option NaclInfo) (r : Route)
    → Needs
        (nat_target snap ip acl r)
        (λ _. ⊥)
        ((not (nat_down (find_nat_gw snap r.target)) ≡ true)
          × Returns acl (str "Inbound") (some ip))
unfolding nat_target
nat_target-Needs snap ip acl r =
    Needs-iff _
      (bind-Needs _ (require-Needs _ _ _) λ _.
        bind-Needs _ (add-Needs _ _ _ _) λ _. bind-Needs _ (require-Needs _ _ _) λ _. reach-Needs _)
      (drop_unit _ _)

other_target-Needs : (r : Route) → Needs (other_target r) (λ _. ⊥) (Unit {0})
unfolding other_target
other_target-Needs r = bind-Needs _ (add-Needs _ _ _ _) (λ _. reach-Needs _)

deliver-Needs :
    (snap : Snapshot) (req : TraceRequest) (src : EniInfo) (ip : Ip) (dst : Option EniInfo)
    (acl : Option NaclInfo) (r : Route)
    → Needs (deliver snap req src ip dst acl r) (λ _. ⊥) (TargetOpen snap req src ip dst acl r)
unfolding deliver
deliver-Needs snap req src ip dst acl r = elim (Bool-cases (equal_fold r.target (str "local"))) [
  | inl e ↦ rw e (local_target-Needs snap req src ip dst acl)
  | inr e ↦ elim (Bool-cases (has_prefix r.target (str "igw-"))) [
    | inl e' ↦ rw (e, e') (igw_target-Needs src ip acl r)
    | inr e' ↦ elim (Bool-cases (has_prefix r.target (str "nat-"))) [
      | inl e'' ↦ rw (e, e', e'') (nat_target-Needs snap ip acl r)
      | inr e'' ↦ rw (e, e', e'') (other_target-Needs r)
    ]
  ]
]

routed-Needs :
    (Q : Route → Type 0) (snap : Snapshot) (src : EniInfo) (ip : Ip)
    → Needs (routed snap src ip) Q (
        (r : Route) × (longest_prefix_route (effective_route_table snap src.subnet_id) ip ≡ some r)
        × ((not (equal_fold r.state (str "blackhole")) ≡ true) × Q r))
unfolding routed
routed-Needs Q snap src ip = bind-Needs _ (present-Needs _ _ _ _) λ r.
    bind-Needs _ (require-Needs _ _ _) λ _. bind-Needs _ (add-Needs (Q r) _ _ _) λ _. pure-Needs Q r

trace_steps-Needs :
    (snap : Snapshot) (req : TraceRequest)
    → Needs (trace_steps snap req) (λ _. ⊥) (PathOpen snap req)
unfolding trace_steps
trace_steps-Needs snap req = bind-Needs _ (present-Needs _ _ _ _) λ src.
    bind-Needs _ (present-Needs _ _ _ _) λ ip. bind-Needs _ (add-Needs _ _ _ _) λ _.
      bind-Needs _ (prefix_list_note-Needs _ _) λ _.
        bind-Needs _ (check-Needs_iff _ _ _ _ (sg_egress_allows_iff snap req src ip _)) λ _.
          bind-Needs _ (boundary-Needs _ _ _ _ _)
            λ _. bind-Needs _ (routed-Needs _ snap src ip) λ r. deliver-Needs snap req src ip _ _ r

result_of-Succeeds : (r : Run (Unit {0})) → ((result_of r).reachable ≡ true) ↔ Succeeds (λ _. ⊥) r
unfolding result_of
result_of-Succeeds (halt r) = (λ h. h, λ h. h)
result_of-Succeeds (go a hops) = (λ h. cc, λ h. absurd h)

-- A trace says "reachable" exactly if the path is open: the source exists and the destination is an
-- address; a group of the source has an outbound rule that applies; the ACL of the source's subnet
-- lets the traffic out, unless both ends are in one subnet; a route that is no blackhole leads on;
-- and at its target the inbound rules, the return ACLs, the public address or the state of the NAT
-- gateway allow what they have to.
pub trace_path_iff :
    (snap : Snapshot) (req : TraceRequest)
    → ((trace_path snap req).reachable ≡ true) ↔ PathOpen snap req
unfolding trace_path
trace_path_iff snap req =
    let (to, from) = result_of-Succeeds (trace_steps snap req []) in
    let (up, down) = (trace_steps-Needs snap req).iff [] in (λ h. up (to h), λ o. from (down o))
