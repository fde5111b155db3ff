-- ===== src/Vpc/Effective.antt =====
-- The merged rules of an interface: internal/vpctui/effrules.go.
pub mod Merge
pub mod Laws
use aws_explorer.Prelude.{
  Bool, true, false, Option, none, some, List, [], ◌∷◌, ◌++◌, map, if◌then◌else◌, flat_map, sort,
}
use aws_explorer.Go.Text.{Text, str, to_lower, cat, less_text, member}
use aws_explorer.Go.Map.{Dict, get, put}
use aws_explorer.Vpc.Types.{Snapshot, SgRule, SgInfo, EniInfo, NaclInfo}
use aws_explorer.Vpc.Lookup.{find_sg, find_eni, nacl_for_subnet}
use aws_explorer.Vpc.Findings.Groups.{is_inbound}

pub record MergedRule : Type 0 where
  pub rule : SgRule
  pub sgs : List Text

pub record EffectiveRuleSet : Type 0 where
  pub eni_id : Text
  pub sg_ids : List Text
  pub inbound : List MergedRule
  pub outbound : List MergedRule
  pub nacl_id : Text
  pub found : Bool

unfoldable pub rule_key : SgRule → Text
rule_key r =
    to_lower
      (cat (r.direction ∷ str "|" ∷ r.protocol ∷ str "|" ∷ r.port_range ∷ str "|" ∷ r.source ∷ []))

-- the rule of a group joined to the entry of its key
merged_with : Text → SgRule → Option MergedRule → MergedRule
merged_with id r none = record { rule = r; sgs = id ∷ [] }
merged_with id r (some m) =
    if member id m.sgs then m else record { rule = m.rule; sgs = m.sgs ++ (id ∷ []) }

unfoldable pub merge_rule : Text → SgRule → Dict MergedRule → Dict MergedRule
unfolding get put merged_with rule_key
merge_rule id r target = put (rule_key r) (merged_with id r (get (rule_key r) target)) target

rules_of : Text → Option SgInfo → List (Text × SgRule)
rules_of id none = []
rules_of id (some sg) = map (λ r. (id, r)) sg.rules

-- the rules that the two loops visit, each with the ID of its group
unfoldable pub attached_rules : Snapshot → List Text → List (Text × SgRule)
unfolding rules_of flat_map
attached_rules snap ids = flat_map (λ id. rules_of id (find_sg snap id)) ids

-- `inbound` and `outbound` after the loops
unfoldable pub merge_rules :
    List (Text × SgRule) → Dict MergedRule × Dict MergedRule → Dict MergedRule × Dict MergedRule
unfolding merge_rule is_inbound
merge_rules [] (inbound, outbound) = (inbound, outbound)
merge_rules ((id, r) ∷ rs) (inbound, outbound) = merge_rules rs (
    if is_inbound r
    then (merge_rule id r inbound, outbound)
    else (inbound, merge_rule id r outbound))

less_rule : MergedRule → MergedRule → Bool
unfolding rule_key less_text
less_rule a b = less_text (rule_key a.rule) (rule_key b.rule)

sorted_groups : MergedRule → MergedRule
unfolding sort less_text
sorted_groups m = record { rule = m.rule; sgs = sort less_text m.sgs }

unfoldable pub sorted_rules : Dict MergedRule → List MergedRule
unfolding sort less_rule sorted_groups
sorted_rules m = sort less_rule (map (λ (_, v). sorted_groups v) m)

nacl_id_of : Option NaclInfo → Text
nacl_id_of none = []
nacl_id_of (some n) = n.id

effective_of : Snapshot → Text → Option EniInfo → EffectiveRuleSet
unfolding attached_rules merge_rules sorted_rules nacl_id_of
effective_of snap id none = record {
  eni_id = id;
  sg_ids = [];
  inbound = [];
  outbound = [];
  nacl_id = [];
  found = false;
}
effective_of snap id (some eni) =
    let (inbound, outbound) = merge_rules (attached_rules snap eni.security_groups) ([], []) in
    record {
      eni_id = id;
      sg_ids = eni.security_groups;
      inbound = sorted_rules inbound;
      outbound = sorted_rules outbound;
      nacl_id = nacl_id_of (nacl_for_subnet snap eni.subnet_id);
      found = true;
    }

unfoldable pub compute_effective_rules : Snapshot → Text → EffectiveRuleSet
unfolding effective_of
compute_effective_rules snap id = effective_of snap id (find_eni snap id)
