-- ===== src/Vpc/Trace/Verdict.antt =====
-- Every trace ends in a verdict that agrees with its hops.
use aws_explorer.Prelude.{Bool, true, false, Option, none, some, [], Bool-cases, inl, inr}
use aws_explorer.Go.Text.{str, has_prefix, equal_fold}
use aws_explorer.Go.Net.{Ip}
use aws_explorer.Vpc.Types.{Snapshot, EniInfo, NaclInfo, Route}
use aws_explorer.Vpc.Groups.{TraceRequest}
use aws_explorer.Vpc.Trace.{
  Run, halt, go, prefix_list_note, returns, local_target, igw_target, nat_target, other_target,
  deliver, routed, trace_steps, result_of, trace_path,
}
use aws_explorer.Vpc.Trace.Rules.{
  IsConsistent, Ends, Keeps, Finishes, pure-Keeps, add_note-Keeps, step_rules,
}

prefix_list_note-Keeps : (b : Bool) → Keeps (prefix_list_note b)
unfolding prefix_list_note
prefix_list_note-Keeps false = pure-Keeps tt
prefix_list_note-Keeps true = add_note-Keeps _ _

returns-Keeps :
    (same : Bool) (a b : Option NaclInfo) (src dst : EniInfo) → Keeps (returns same a b src dst)
unfolding returns
returns-Keeps true a b src dst = pure-Keeps tt
returns-Keeps false a b src dst = search step_rules

local_target-Finishes :
    (snap : Snapshot) (req : TraceRequest) (src : EniInfo) (ip : Ip) (dst : Option EniInfo)
    (acl : Option NaclInfo)
    → Finishes (local_target snap req src ip dst acl)
unfolding local_target
local_target-Finishes snap req src ip none acl = search step_rules
local_target-Finishes snap req src ip (some dst) acl = search (step_rules, returns-Keeps) depth 12

igw_target-Finishes :
    (src : EniInfo) (ip : Ip) (acl : Option NaclInfo) (r : Route)
    → Finishes (igw_target src ip acl r)
unfolding igw_target
igw_target-Finishes src ip acl r = search step_rules depth 12

nat_target-Finishes :
    (snap : Snapshot) (ip : Ip) (acl : Option NaclInfo) (r : Route)
    → Finishes (nat_target snap ip acl r)
unfolding nat_target
nat_target-Finishes snap ip acl r = search step_rules depth 12

other_target-Finishes : (r : Route) → Finishes (other_target r)
unfolding other_target
other_target-Finishes r = search step_rules

deliver-Finishes :
    (snap : Snapshot) (req : TraceRequest) (src : EniInfo) (ip : Ip) (dst : Option EniInfo)
    (acl : Option NaclInfo) (r : Route)
    → Finishes (deliver snap req src ip dst acl r)
unfolding deliver
deliver-Finishes snap req src ip dst acl r = elim (Bool-cases (equal_fold r.target (str "local"))) [
  | inl e ↦ rw e (local_target-Finishes snap req src ip dst acl)
  | inr e ↦ elim (Bool-cases (has_prefix r.target (str "igw-"))) [
    | inl e' ↦ rw (e, e') (igw_target-Finishes src ip acl r)
    | inr e' ↦ elim (Bool-cases (has_prefix r.target (str "nat-"))) [
      | inl e'' ↦ rw (e, e', e'') (nat_target-Finishes snap ip acl r)
      | inr e'' ↦ rw (e, e', e'') (other_target-Finishes r)
    ]
  ]
]

routed-Keeps : (snap : Snapshot) (src : EniInfo) (ip : Ip) → Keeps (routed snap src ip)
unfolding routed
routed-Keeps snap src ip = search step_rules depth 12

trace_steps-Finishes : (snap : Snapshot) (req : TraceRequest) → Finishes (trace_steps snap req)
unfolding trace_steps
trace_steps-Finishes snap req =
    search (step_rules, prefix_list_note-Keeps, routed-Keeps, deliver-Finishes) depth 20

result_of-IsConsistent : (r : Run (Unit {0})) → Ends r → IsConsistent (result_of r)
unfolding result_of
result_of-IsConsistent (halt r) h = h
result_of-IsConsistent (go a hops) h = absurd h

-- The trace ends in a `return` on every input.
pub trace_path-Ends : (snap : Snapshot) (req : TraceRequest) → Ends (trace_steps snap req [])
trace_path-Ends snap req = (trace_steps-Finishes snap req).apply [] tt

-- A reachable verdict has no failed hop; a blocked verdict has exactly one failed hop, the last,
-- and its summary names that hop.
pub trace_path-IsConsistent :
    (snap : Snapshot) (req : TraceRequest) → IsConsistent (trace_path snap req)
unfolding trace_path
trace_path-IsConsistent snap req =
    result_of-IsConsistent (trace_steps snap req []) (trace_path-Ends snap req)
