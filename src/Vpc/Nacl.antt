-- ===== src/Vpc/Nacl.antt =====
-- Network ACLs of internal/vpctui/pathtrace.go: stateless, ordered, the first match wins.
pub mod Laws
pub mod Duplicates
use aws_explorer.Prelude.{
  ℕ, Bool, true, false, ◌&&◌, Option, none, some, List, [], ◌∷◌, if◌then◌else◌, find, filter, sort,
  ltb,
}
use aws_explorer.Go.Text.{Text, str, equal_fold, to_lower, cat}
use aws_explorer.Go.Number.{ℤ, pos, itoa}
use aws_explorer.Go.Net.{Ip}
use aws_explorer.Vpc.Types.{NaclRule, NaclInfo}
use aws_explorer.Vpc.Match.{proto_match, port_match, cidr_contains_ip}

unfoldable pub has_direction : Text → NaclRule → Bool
has_direction dir r = equal_fold r.direction dir

unfoldable pub lower_number : NaclRule → NaclRule → Bool
lower_number r s = ltb r.rule_number s.rule_number

unfoldable pub rules_for_dir : NaclInfo → Text → List NaclRule
unfolding has_direction lower_number
rules_for_dir nacl dir = sort lower_number (filter (has_direction dir) nacl.rules)

-- the test that a rule has to pass to decide
unfoldable pub rule_matches : Text → ℤ → Option Ip → NaclRule → Bool
rule_matches proto port ip r =
    proto_match r.protocol proto && port_match r.port_range port && cidr_contains_ip r.cidr ip

unfoldable pub is_allow : NaclRule → Bool
is_allow r = equal_fold r.action (str "allow")

nacl_verdict : NaclInfo → Text → Option NaclRule → Bool × Text
unfolding is_allow
nacl_verdict nacl dir none = (
  false,
  cat (nacl.id ∷ str " has no matching " ∷ to_lower dir ∷ str " allow rule (implicit deny)" ∷ []),
)
nacl_verdict nacl dir (some r) =
    if is_allow r
    then (true, cat (nacl.id ∷ str " rule " ∷ itoa r.rule_number ∷ str " allows it" ∷ []))
    else (false, cat (nacl.id ∷ str " rule " ∷ itoa r.rule_number ∷ str " denies it" ∷ []))

unfoldable pub nacl_allows : Option NaclInfo → Text → Text → ℤ → Option Ip → Bool × Text
unfolding nacl_verdict rules_for_dir rule_matches
nacl_allows none dir proto port ip = (true, str "no NACL associated (default allow)")
nacl_allows (some nacl) dir proto port ip =
    nacl_verdict nacl dir (find (rule_matches proto port ip) (rules_for_dir nacl dir))

unfoldable pub direction_word : Text → Text
direction_word dir = if equal_fold dir (str "Outbound") then str "outbound" else str "inbound"

unfoldable pub nacl_allows_ephemeral_return : Option NaclInfo → Text → Option Ip → Bool × Text
unfolding nacl_allows direction_word
nacl_allows_ephemeral_return none dir ip = (true, [])
nacl_allows_ephemeral_return (some nacl) dir ip =
    if (nacl_allows (some nacl) dir (str "tcp") (pos 32768) ip).0 then (true, []) else (
      false,
      cat (
          nacl.id
          ∷ str " does not allow ephemeral return ports (1024-65535) "
          ∷ direction_word dir
          ∷ str "; NACLs are stateless"
          ∷ []),
    )
