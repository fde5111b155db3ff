-- ===== src/Vpc/Match/Ports.antt =====
-- What a port range in a rule means, for the texts that AWS ranges are rendered to.
use aws_explorer.Prelude.{
  ℕ, ◌^◌, ◌≤◌, ◌<◌, ◌≡◌, refl, ap, sym, subst, ◌↔◌, true, false, ◌||◌, some, [], ◌∷◌, ◌++◌, arith,
  if◌then◌else◌,
}
use aws_explorer.Go.Text.{Text, str, eq_text, is_space, trim_space, equal_fold, has_byte}
use aws_explorer.Go.Number.{ℤ, pos, negsuc, is_neg, leb_int, is_digit, itoa}
use aws_explorer.Vpc.Match.{
  parse_port_range, port_match, eq_int, covers_all_ports, is_port, in_port_range, atoi_port, both,
}
use aws_explorer.Vpc.Match.Digits.{
  NoSpace, NoSpace-append, IsDigits-NoSpace, itoa-IsDigits, itoa-cons, atoi_port-itoa,
  trim_space-NoSpace, cut-IsDigits, has_byte-IsDigits, has_byte-append, digit-ne-All,
}

-- "from-to", as AWS port ranges are rendered
abbrev pub range_text : ℕ → ℕ → Text
range_text from to = itoa from ++ b'-' ∷ itoa to

dash-not-digit : is_digit b'-' ≡ false
unfolding is_digit
dash-not-digit = refl

dash-not-space : is_space b'-' ≡ false
unfolding is_space
dash-not-space = refl

itoa-NoSpace : (n : ℕ) → NoSpace (itoa n)
itoa-NoSpace n = IsDigits-NoSpace (itoa n) (itoa-IsDigits n)

range_text-NoSpace : (from to : ℕ) → NoSpace (range_text from to)
range_text-NoSpace from to =
    NoSpace-append (itoa from) _ (itoa-NoSpace from) (dash-not-space, itoa-NoSpace to)

-- The parser of port ranges reads back what is printed.
pub parse_port_range-range_text :
    (from to : ℕ)
    → from < 2 ^ 63
    → to < 2 ^ 63
    → parse_port_range (range_text from to) ≡ some (pos from, pos to)
unfolding parse_port_range both
parse_port_range-range_text from to h k = rw (
  cut-IsDigits b'-' (itoa from) (itoa to) dash-not-digit (itoa-IsDigits from),
  trim_space-NoSpace (itoa from) (itoa-NoSpace from),
  trim_space-NoSpace (itoa to) (itoa-NoSpace to),
  atoi_port-itoa from h,
  atoi_port-itoa to k,
)

-- A text that begins with a digit is neither empty nor "All".
not_all :
    (c : ℕ) (s : Text)
    → is_digit c ≡ true
    → (equal_fold (c ∷ s) (str "All") || eq_text (c ∷ s) []) ≡ false
unfolding eq_text
not_all c s h = rw (digit-ne-All c s h)

port_match-trimmed :
    (c : ℕ) (s : Text) (port : ℤ)
    → is_digit c ≡ true
    → trim_space (c ∷ s) ≡ c ∷ s
    → is_neg port ≡ false
    → port_match (c ∷ s) port ≡ (
        if has_byte b'-' (c ∷ s)
        then in_port_range (parse_port_range (c ∷ s)) port
        else is_port (atoi_port (c ∷ s)) port)
unfolding port_match
port_match-trimmed c s port h t n = rw (t, not_all c s h, n) (ground arith)

-- A single port p in a rule lets exactly the port p pass.
pub port_match-single : (p q : ℕ) → p < 2 ^ 63 → (port_match (itoa p) (pos q) ≡ true) ↔ (p ≡ q)
unfolding is_port eq_int leb_int is_neg
port_match-single p q h =
    let (c, s, e, d) = itoa-cons p in
    let m =
      port_match-trimmed c s (pos q) d.0
        (subst (λ t. trim_space t ≡ t) e (trim_space-NoSpace (itoa p) (itoa-NoSpace p))) refl in
    let m' =
      subst
        (λ t. port_match t (pos q) ≡ (
          if has_byte b'-' t
          then in_port_range (parse_port_range t) (pos q)
          else is_port (atoi_port t) (pos q)))
        (sym e) m in
    rw (m', has_byte-IsDigits b'-' (itoa p) dash-not-digit (itoa-IsDigits p), atoi_port-itoa p h)
      (ground arith)

-- A range from-to in a rule lets exactly the ports between its ends pass.
pub port_match-range :
    (from to q : ℕ)
    → from < 2 ^ 63
    → to < 2 ^ 63
    → (port_match (range_text from to) (pos q) ≡ true) ↔ ((from ≤ q) × (q ≤ to))
unfolding in_port_range leb_int is_neg
port_match-range from to q h k =
    let (c, s, e, d) = itoa-cons from in
    let r = s ++ b'-' ∷ itoa to in
    let e' : range_text from to ≡ c ∷ r = ap (λ t. t ++ b'-' ∷ itoa to) e in
    let m =
      port_match-trimmed c r (pos q) d.0
        (subst (λ t. trim_space t ≡ t) e' (trim_space-NoSpace _ (range_text-NoSpace from to)))
        refl in
    let m' =
      subst
        (λ t. port_match t (pos q) ≡ (
          if has_byte b'-' t
          then in_port_range (parse_port_range t) (pos q)
          else is_port (atoi_port t) (pos q)))
        (sym e') m in
    rw (m', has_byte-append b'-' (itoa from) (itoa to), parse_port_range-range_text from to h k)
      (ground arith)

-- A request for any port passes a range exactly if the range covers the ports 1 to 65535.
pub port_match-any :
    (from to n : ℕ)
    → from < 2 ^ 63
    → to < 2 ^ 63
    → (port_match (range_text from to) (negsuc n) ≡ true) ↔ ((from ≤ 1) × (65535 ≤ to))
unfolding port_match covers_all_ports leb_int is_neg
port_match-any from to n h k =
    let (c, s, e, d) = itoa-cons from in
    let e' : range_text from to ≡ c ∷ (s ++ b'-' ∷ itoa to) = ap (λ t. t ++ b'-' ∷ itoa to) e in
    rw
      (
        trim_space-NoSpace _ (range_text-NoSpace from to),
        subst (λ t. (equal_fold t (str "All") || eq_text t []) ≡ false) (sym e') (not_all c _ d.0),
        parse_port_range-range_text from to h k,
      )
      (ground arith)
