-- ===== src/Go/Net.antt =====
-- `net.ParseIP`, `net.ParseCIDR`, `IPNet.Contains` and `Ip.String`, by the algorithms of Go's `net`
-- and `net/netip`. An address is the number that its 16 bytes spell; an IPv4 address a is
-- ::ffff:a, as in `net.Ip`.
use aws_explorer.Prelude.{
  ℕ, zero, suc, ◌+◌, ◌-◌, ◌*◌, ◌/◌, ◌%◌, ◌^◌, Bool, true, false, ◌&&◌, ◌||◌, not, Option, none,
  some, List, [], ◌∷◌, ◌++◌, ltb, leb, ◌==◌, if◌then◌else◌, length,
}
use aws_explorer.Go.Text.{Text, split, cut, has_byte, join}
use aws_explorer.Go.Number.{is_digit, itoa}

abbrev pub Ip : Type 0
Ip = ℕ

abbrev pub v4_prefix : ℕ
v4_prefix = 0xffff_0000_0000

abbrev v4_end : ℕ
v4_end = 0x1_0000_0000_0000

-- `ip.To4()`
unfoldable pub to4 : Ip → Option ℕ
to4 ip = if leb v4_prefix ip && ltb ip v4_end then some (ip - v4_prefix) else none

-- The value of one or more decimal digits, at most `top`.
digits_value : ℕ → ℕ → Text → Option ℕ
unfolding is_digit
digits_value top acc [] = if leb acc top then some acc else none
digits_value top acc (c ∷ s) =
    let rest = digits_value top (acc * 10 + (c - b'0')) s in if is_digit c then rest else none

leading_zero : Text → Bool
leading_zero [] = false
leading_zero (c ∷ []) = false
leading_zero (c ∷ d ∷ s) = c == b'0'

octet : Text → Option ℕ
unfolding digits_value leading_zero
octet [] = none
octet (c ∷ s) = if leading_zero (c ∷ s) then none else digits_value 255 0 (c ∷ s)

bind {ℓ κ} : {A : Type ℓ} {B : Type κ} → Option A → (A → Option B) → Option B
bind none f = none
bind (some a) f = f a

four_octets : List Text → Option ℕ
unfolding octet bind
four_octets (a ∷ b ∷ c ∷ d ∷ []) = bind (octet a) λ w.
    bind (octet b)
      λ x. bind (octet c) λ y. bind (octet d) λ z. some (((w * 256 + x) * 256 + y) * 256 + z)
four_octets _ = none

-- `parseIPv4`: four decimal fields with no leading zero
unfoldable pub parse_ipv4 : Text → Option ℕ
unfolding four_octets split
parse_ipv4 s = four_octets (split b'.' s)

hex_digit : ℕ → Option ℕ
hex_digit c =
    if leb b'0' c && leb c b'9'
    then some (c - b'0')
    else if leb b'a' c && leb c b'f'
    then some (c - b'a' + 10)
    else if leb b'A' c && leb c b'F'
    then some (c - b'A' + 10)
    else none

-- The hex digits at the front of a text, at most `room`: their value, their number, what follows.
-- One digit more than there is room for is an error.
hex_group : ℕ → ℕ → ℕ → Text → Option (ℕ × ℕ × Text)
unfolding hex_digit bind
hex_group room acc count [] = some (acc, count, [])
hex_group zero acc count (c ∷ s) = elim (hex_digit c) [
  | none ↦ some (acc, count, c ∷ s)
  | some d ↦ none
]
hex_group (suc room) acc count (c ∷ s) = elim (hex_digit c) [
  | none ↦ some (acc, count, c ∷ s)
  | some d ↦ hex_group room (acc * 16 + d) (suc count) s
]

-- What the groups of `parseIPv6` have read: the 16-bit groups, those before the ellipsis, the rest.
abbrev Groups : Type 0
Groups = List ℕ × Option (List ℕ)

-- after a group: the end, a colon and the next group, or an ellipsis
after_group :
    Text
    → List ℕ
    → Option (List ℕ)
    → (Text → List ℕ → Option (List ℕ) → Option Groups)
    → Option Groups
after_group [] gs before next = some (gs, before)
after_group (c ∷ []) gs before next = none
after_group (c ∷ d ∷ s) gs before next =
    if not (c == b':')
    then none
    else if not (d == b':')
    then next (d ∷ s) gs before
    else elim before [
      | some _ ↦ none
      | none ↦ elim s [ [] ↦ some (gs, some gs) | e ∷ t ↦ next (e ∷ t) gs (some gs) ]
    ]

-- a dot after a group: the last two groups are written as an IPv4 address
trailing_ipv4 : Text → List ℕ → Option (List ℕ) → Option Groups
unfolding parse_ipv4 bind
trailing_ipv4 s gs before = elim before [
  | none ↦
      if length gs == 6
      then bind (parse_ipv4 s) (λ v. some (gs ++ (v / 65536) ∷ (v % 65536) ∷ [], none))
      else none
  | some front ↦
      if leb (length gs) 6
      then bind (parse_ipv4 s) (λ v. some (gs ++ (v / 65536) ∷ (v % 65536) ∷ [], some front))
      else none
]

starts_with_dot : Text → Bool
starts_with_dot [] = false
starts_with_dot (c ∷ _) = c == b'.'

-- The loop of `parseIPv6`; each round fills two of the 16 bytes, so eight rounds are all there are.
groups_loop : ℕ → Text → List ℕ → Option (List ℕ) → Option Groups
unfolding hex_group after_group trailing_ipv4 starts_with_dot bind
groups_loop zero s gs before = none
groups_loop (suc rounds) s gs before = bind (hex_group 4 0 0 s) λ (acc, count, rest).
    if count == 0
    then none
    else if starts_with_dot rest
    then trailing_ipv4 s gs before
    else after_group rest (gs ++ acc ∷ []) before (groups_loop rounds)

zeros : ℕ → List ℕ
zeros zero = []
zeros (suc n) = 0 ∷ zeros n

drop_front : List ℕ → List ℕ → List ℕ
drop_front [] gs = gs
drop_front (_ ∷ front) [] = []
drop_front (_ ∷ front) (_ ∷ gs) = drop_front front gs

value_of : ℕ → List ℕ → ℕ
value_of acc [] = acc
value_of acc (g ∷ gs) = value_of (acc * 65536 + g) gs

-- Expands the ellipsis, which stands for at least one group.
expand : Groups → Option ℕ
unfolding zeros drop_front value_of
expand (gs, none) = if length gs == 8 then some (value_of 0 gs) else none
expand (gs, some front) =
    if ltb (length gs) 8
    then some (value_of 0 (front ++ (zeros (8 - length gs) ++ drop_front front gs)))
    else none

-- `parseIPv6` with no zone
unfoldable pub parse_ipv6 : Text → Option ℕ
unfolding groups_loop expand bind
parse_ipv6 (c ∷ d ∷ s) =
    if c == b':' && d == b':'
    then elim s [ [] ↦ some 0 | e ∷ t ↦ bind (groups_loop 8 (e ∷ t) [] (some [])) expand ]
    else bind (groups_loop 8 (c ∷ d ∷ s) [] none) expand
parse_ipv6 s = bind (groups_loop 8 s [] none) expand

-- Whether the first of the three bytes `.`, `:`, `%` in a text is a dot or a colon.
pub data Family : Type 0 where
  v4 v6 unknown : Family

family : Text → Family
family [] = unknown
family (c ∷ s) =
    let rest = family s in
    if c == b'.' then v4 else if c == b':' then v6 else if c == b'%' then unknown else rest

-- `netip.ParseAddr`, with no zone: the address and whether it was written as IPv4
unfoldable pub parse_addr : Text → Option (ℕ × Bool)
unfolding family parse_ipv4 parse_ipv6 bind has_byte
parse_addr s = elim (family s) [
  | v4 ↦ bind (parse_ipv4 s) λ a. some (v4_prefix + a, true)
  | v6 ↦ if has_byte b'%' s then none else bind (parse_ipv6 s) λ a. some (a, false)
  | unknown ↦ none
]

-- `net.ParseIP`; `none` is nil
unfoldable pub parse_ip : Text → Option Ip
unfolding parse_addr bind
parse_ip s = bind (parse_addr s) λ r. some r.0

-- An `IPNet` has a mask of 4 bytes (then `base` is an IPv4 address) or of 16.
pub record IpNet : Type 0 where
  pub wide : Bool
  pub base : ℕ
  pub ones : ℕ

-- `x & mask` for a mask of `ones` in `bits`
unfoldable pub mask_bits : ℕ → ℕ → ℕ → ℕ
mask_bits bits ones x = (x / 2 ^ (bits - ones)) * 2 ^ (bits - ones)

unfoldable pub net_of : ℕ → Bool → ℕ → IpNet
unfolding mask_bits
net_of a true n = record { wide = false; base = mask_bits 32 n (a - v4_prefix); ones = n }
net_of a false n = record { wide = true; base = mask_bits 128 n a; ones = n }

pub mask_length : Bool → Text → Option ℕ
unfolding digits_value
mask_length v4_text [] = none
mask_length v4_text (c ∷ s) = digits_value (if v4_text then 32 else 128) 0 (c ∷ s)

-- `net.ParseCIDR`, of which the program uses the network
unfoldable pub parse_cidr : Text → Option IpNet
unfolding cut parse_addr mask_length net_of bind
parse_cidr s = elim (cut b'/' s).1 [
  | none ↦ none
  | some mask ↦
      bind (parse_addr (cut b'/' s).0)
        λ (a, v4_text). bind (mask_length v4_text mask) λ n. some (net_of a v4_text n)
]

unfoldable pub same_prefix : ℕ → ℕ → ℕ → ℕ → Bool
same_prefix bits ones a b = a / 2 ^ (bits - ones) == b / 2 ^ (bits - ones)

v4_contains : Option ℕ → ℕ → ℕ → Bool
unfolding same_prefix
v4_contains none base ones = false
v4_contains (some a) base ones = same_prefix 32 ones base a

-- `ipnet.Contains(ip)`. A 16-byte network inside ::ffff:0:0/96 counts as an IPv4 network.
unfoldable pub net_contains : IpNet → Ip → Bool
unfolding to4 v4_contains same_prefix
net_contains net ip =
    if net.wide
    then elim (to4 net.base) [
      | some base ↦ v4_contains (to4 ip) base (net.ones - 96)
      | none ↦ elim (to4 ip) [ some _ ↦ false | none ↦ same_prefix 128 net.ones net.base ip ]
    ]
    else v4_contains (to4 ip) net.base net.ones

hex_char : ℕ → ℕ
hex_char d = if ltb d 10 then b'0' + d else b'a' + (d - 10)

-- hexadecimal of a 16-bit number with no leading zeros
hex_text : ℕ → Text
unfolding hex_char
hex_text g =
    let low = hex_char (g % 16) ∷ [] in
    let two = hex_char (g / 16 % 16) ∷ low in
    let three = hex_char (g / 256 % 16) ∷ two in
    if ltb g 16
    then low
    else if ltb g 256
    then two
    else if ltb g 4096
    then three
    else hex_char (g / 4096) ∷ three

groups_of : ℕ → ℕ → List ℕ → List ℕ
groups_of zero a acc = acc
groups_of (suc n) a acc = groups_of n (a / 65536) ((a % 65536) ∷ acc)

run_length : List ℕ → ℕ
run_length [] = 0
run_length (g ∷ gs) = if g == 0 then suc (run_length gs) else 0

-- the first longest run of two or more zero groups: where it starts and its length
best_run : ℕ → ℕ → ℕ → List ℕ → ℕ × ℕ
unfolding run_length
best_run i start len [] = (start, len)
best_run i start len (g ∷ gs) =
    let n = run_length (g ∷ gs) in
    let better = leb 2 n && ltb len n in
    best_run (suc i) (if better then i else start) (if better then n else len) gs

write_groups : ℕ → ℕ → ℕ → ℕ → List ℕ → Text
unfolding hex_text
write_groups i start len skip [] = []
write_groups i start len (suc skip) (g ∷ gs) = write_groups (suc i) start len skip gs
write_groups i start len zero (g ∷ gs) =
    let run = b':' ∷ b':' ∷ write_groups (suc i) start len (len - 1) gs in
    let after_run = hex_text g ++ write_groups (suc i) start len zero gs in
    if leb 2 len && i == start
    then run
    else if i == 0 || (leb 2 len && i == start + len)
    then after_run
    else b':' ∷ after_run

-- `ip.String()`
unfoldable pub ip_string : Ip → Text
unfolding to4 itoa join groups_of best_run write_groups
ip_string ip = elim (to4 ip) [
  | some a ↦
      join
        (itoa (a / 16777216) ∷ itoa (a / 65536 % 256) ∷ itoa (a / 256 % 256) ∷ itoa (a % 256) ∷ [])
        (b'.' ∷ [])
  | none ↦ let gs = groups_of 8 ip [] in let r = best_run 0 0 0 gs in write_groups 0 r.0 r.1 0 gs
]
