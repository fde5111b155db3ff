-- ===== src/Vpc/Match.antt =====
-- The protocol, port and CIDR matchers of internal/vpctui/pathtrace.go and the port parsers of
-- internal/vpctui/sgexplain.go.
pub mod Digits
pub mod Ports
use aws_explorer.Prelude.{
  ℕ, ◌+◌, ◌-◌, ◌*◌, ◌%◌, ◌^◌, Bool, true, false, ◌&&◌, ◌||◌, not, Option, none, some, [], ◌∷◌,
  if◌then◌else◌, ◌==◌,
}
use aws_explorer.Go.Text.{Text, str, eq_text, trim_space, to_lower, equal_fold, has_byte, cut}
use aws_explorer.Go.Number.{ℤ, pos, negsuc, signed64, is_neg, leb_int, is_digit}
use aws_explorer.Go.Net.{Ip, parse_ip, parse_cidr, net_contains}

-- `a == b` on `int`
unfoldable pub eq_int : ℤ → ℤ → Bool
eq_int a b = leb_int a b && leb_int b a

-- One round of the loop of `atoiPort`: `none` after a character that is no digit. The number is
-- the 64-bit pattern of Go's `int`, so a long text wraps around.
unfoldable pub atoi_step : Option ℕ → ℕ → Option ℕ
atoi_step none c = none
atoi_step (some n) c = if is_digit c then some ((n * 10 + (c - b'0')) % 2 ^ 64) else none

unfoldable pub atoi_loop : Option ℕ → Text → Option ℕ
unfolding atoi_step
atoi_loop n [] = n
atoi_loop n (c ∷ s) = atoi_loop (atoi_step n c) s

unfoldable pub as_int : Option ℕ → Option ℤ
as_int none = none
as_int (some n) = some (signed64 n)

unfoldable pub atoi_port : Text → Option ℤ
unfolding atoi_loop as_int
atoi_port [] = none
atoi_port (c ∷ s) = as_int (atoi_loop (some 0) (c ∷ s))

unfoldable pub both {ℓ} : {A : Type ℓ} → Option A → Option A → Option (A × A)
both none t = none
both (some f) none = none
both (some f) (some t) = some (f, t)

-- `strings.SplitN(rng, "-", 2)` has two parts exactly if there is a dash.
unfoldable pub port_parts : Text × Option Text → Option (ℤ × ℤ)
unfolding both
port_parts (before, none) = none
port_parts (before, some after) =
    both (atoi_port (trim_space before)) (atoi_port (trim_space after))

unfoldable pub parse_port_range : Text → Option (ℤ × ℤ)
unfolding port_parts
parse_port_range rng = port_parts (cut b'-' rng)

unfoldable pub proto_match : Text → Text → Bool
proto_match rule_proto req_proto =
    let r = to_lower (trim_space rule_proto) in
    let q = to_lower (trim_space req_proto) in
    if eq_text r [] || eq_text r (str "all") || eq_text r (str "-1")
    then true
    else if eq_text q [] || eq_text q (str "all")
    then true
    else eq_text r q

unfoldable pub covers_all_ports : Option (ℤ × ℤ) → Bool
covers_all_ports none = false
covers_all_ports (some (from, to)) = leb_int from (pos 1) && leb_int (pos 65535) to

unfoldable pub is_port : Option ℤ → ℤ → Bool
is_port none port = false
is_port (some p) port = eq_int p port

unfoldable pub in_port_range : Option (ℤ × ℤ) → ℤ → Bool
in_port_range none port = false
in_port_range (some (from, to)) port = leb_int from port && leb_int port to

unfoldable pub port_match : Text → ℤ → Bool
unfolding covers_all_ports is_port in_port_range
port_match rule_port_range req_port =
    let ports = trim_space rule_port_range in
    if equal_fold ports (str "All") || eq_text ports []
    then true
    else if is_neg req_port
    then covers_all_ports (parse_port_range ports)
    else if not (has_byte b'-' ports)
    then is_port (atoi_port ports) req_port
    else in_port_range (parse_port_range ports) req_port

-- `net.ParseIP(cidr).Equal(ip)`
equals_ip : Option Ip → Ip → Bool
equals_ip none ip = false
equals_ip (some a) ip = a == ip

-- `ip` is nil where it is `none`.
unfoldable pub cidr_contains_ip : Text → Option Ip → Bool
unfolding equals_ip
cidr_contains_ip cidr none = false
cidr_contains_ip cidr (some ip) =
    let c = trim_space cidr in
    if not (has_byte b'/' c)
    then not (eq_text c []) && equals_ip (parse_ip c) ip
    else elim (parse_cidr c) [ none ↦ false | some net ↦ net_contains net ip ]
