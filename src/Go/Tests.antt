-- ===== src/Go/Tests.antt =====
-- Runs of the standard library's functions.
use aws_explorer.Prelude.{◌≡◌, refl, some, none, true, false, Option, Bool}
use aws_explorer.Go.Text.{str, trim_space, equal_fold, Text}
use aws_explorer.Go.Net.{parse_ip, ip_string, parse_cidr, net_contains}

round : Text → Option Text
round s = elim (parse_ip s) [ none ↦ none | some a ↦ some (ip_string a) ]

contained : Text → Text → Option Bool
contained c s = elim (parse_cidr c) [
  | none ↦ none
  | some n ↦ elim (parse_ip s) [ none ↦ none | some a ↦ some (net_contains n a) ]
]

v4_text : round (str "10.0.3.255") ≡ some (str "10.0.3.255")
unfolding round parse_ip ip_string str
v4_text = refl

v6_text : round (str "2001:DB8:0:0:1:0:0:1") ≡ some (str "2001:db8::1:0:0:1")
unfolding round parse_ip ip_string str
v6_text = refl

v6_loopback : round (str "::1") ≡ some (str "::1")
unfolding round parse_ip ip_string str
v6_loopback = refl

v6_embedded : round (str "::ffff:1.2.3.4") ≡ some (str "1.2.3.4")
unfolding round parse_ip ip_string str
v6_embedded = refl

v6_tail : round (str "fe80::") ≡ some (str "fe80::")
unfolding round parse_ip ip_string str
v6_tail = refl

not_an_address : round (str "10.0.03.1") ≡ none
unfolding round parse_ip ip_string str
not_an_address = refl

inside : contained (str "10.1.0.0/16") (str "10.1.200.3") ≡ some true
unfolding contained parse_cidr net_contains parse_ip str
inside = refl

outside : contained (str "10.1.0.0/16") (str "10.2.0.1") ≡ some false
unfolding contained parse_cidr net_contains parse_ip str
outside = refl

v6_net : contained (str "::/0") (str "10.2.0.1") ≡ some false
unfolding contained parse_cidr net_contains parse_ip str
v6_net = refl

trimmed : trim_space (str " a b  ") ≡ str "a b"
unfolding trim_space str
trimmed = refl

folded : equal_fold (str "BlackHole") (str "blackhole") ≡ true
unfolding equal_fold str
folded = refl
