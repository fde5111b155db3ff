-- ===== src/Vpc/Findings/Probe.antt =====
-- The probe of `naclAllowsPort` against the evaluation of the tracer.
use aws_explorer.Prelude.{
  ℕ, ◌<◌, ◌^◌, ◌≡◌, ◌≢◌, refl, sym, ap, ◌∙◌, inl, inr, Bool, true, false, ◌&&◌, some, List, [], ◌∷◌,
  Memᴰ, arith, Bool-cases, Option-cases, find, Memᴰ-filter, Memᴰ-sort,
}
use aws_explorer.Go.Text.{Text, str, eq_text_iff, trim_space, has_byte}
use aws_explorer.Go.Number.{pos}
use aws_explorer.Go.Net.{Ip, to4, net_contains, parse_cidr, same_prefix, net_of}
use aws_explorer.Vpc.Types.{NaclRule, NaclInfo}
use aws_explorer.Vpc.Match.{cidr_contains_ip}
use aws_explorer.Vpc.Nacl.{
  is_allow, has_direction, lower_number, rules_for_dir, rule_matches, nacl_allows,
}
use aws_explorer.Vpc.Nacl.Laws.{decides, nacl_allows-some, nacl_allows-none}
use aws_explorer.Vpc.Findings.Nacls.{
  matches_probe, covers_every_source, probe, nacl_allows_port, all_probes,
}

to4-lt : (ip : Ip) (a : ℕ) → to4 ip ≡ some a → a < 2 ^ 32
unfolding to4
to4-lt ip a h = ground arith

zero_prefix : (a : ℕ) → a < 2 ^ 32 → same_prefix 32 0 0 a ≡ true
unfolding same_prefix
zero_prefix a h = ground arith

parse_everywhere :
    parse_cidr (trim_space (str "0.0.0.0/0")) ≡ some (record { wide = false; base = 0; ones = 0 })
unfolding parse_cidr trim_space str net_of
parse_everywhere = refl

slash : has_byte b'/' (trim_space (str "0.0.0.0/0")) ≡ true
unfolding has_byte trim_space str
slash = refl

-- 0.0.0.0/0 contains every IPv4 address.
everywhere :
    (ip : Ip) (a : ℕ) → to4 ip ≡ some a → cidr_contains_ip (str "0.0.0.0/0") (some ip) ≡ true
unfolding cidr_contains_ip net_contains
everywhere ip a h = rw (slash, parse_everywhere, h) (zero_prefix a (to4-lt ip a h))

module _ (port : ℕ) (ip : Ip) (a : ℕ) (is_v4 : to4 ip ≡ some a) where
  abbrev matches : NaclRule → Bool
  matches = rule_matches (str "tcp") (pos port) (some ip)

  matches_and :
      (r : NaclRule) → matches r ≡ matches_probe port r && cidr_contains_ip r.cidr (some ip)
  unfolding rule_matches matches_probe
  matches_and r = ground arith

  narrow :
      (s : NaclRule)
      → s.cidr ≢ str "::/0"
      → cidr_contains_ip s.cidr (some ip) ≡ false
      → covers_every_source s ≡ false
  unfolding covers_every_source
  narrow s v h = ground (
    arith,
    eq_text_iff s.cidr (str "0.0.0.0/0"),
    eq_text_iff s.cidr (str "::/0"),
    λ (q : s.cidr ≡ str "0.0.0.0/0").
        ap (λ c. cidr_contains_ip c (some ip)) q ∙ everywhere ip a is_v4,
  )

  probe_lem :
      (rs : List NaclRule) (r : NaclRule)
      → ((s : NaclRule) → Memᴰ s rs → is_allow s ≡ false → s.cidr ≢ str "::/0")
      → find matches rs ≡ some r
      → is_allow r ≡ true
      → probe port rs ≡ true
  unfolding find probe
  probe_lem [] r v h y = ground arith
  probe_lem (s ∷ rs) r v h y =
      let ih = λ (g : find matches rs ≡ some r). probe_lem rs r (λ t m. v t (Memᴰ.tail m)) g y in
      elim (Bool-cases (matches_probe port s)) [
        | inr e ↦
            rw e (ih (rw (matches_and s ∙ ap (λ b. b && cidr_contains_ip s.cidr (some ip)) e) at h))
        | inl e ↦ elim (Bool-cases (is_allow s)) [
          | inl b ↦ rw (e, b) refl
          | inr b ↦ elim (Bool-cases (matches s)) [
            | inl m ↦
                let q : s ≡ r = let h' = rw m at h in ground arith in
                absurd (ground (arith, ap is_allow q))
            | inr m ↦
                rw (e, b, narrow s (v s (Memᴰ.head refl) b) (ground (arith, matches_and s)))
                  (ih (rw m at h))
          ]
        ]
      ]

  -- A port that the ACL lets pass to an IPv4 peer passes the probe, unless the ACL denies all IPv6
  -- sources, which the probe takes to be every source.
  pub nacl_allows-probe :
      (nacl : NaclInfo) (dir : Text)
      → ((s : NaclRule) → Memᴰ s nacl.rules → is_allow s ≡ false → s.cidr ≢ str "::/0")
      → (nacl_allows (some nacl) dir (str "tcp") (pos port) (some ip)).0 ≡ true
      → nacl_allows_port nacl dir port ≡ true
  unfolding nacl_allows_port rules_for_dir
  nacl_allows-probe nacl dir v h =
      elim (Option-cases (decides nacl dir (str "tcp") (pos port) (some ip))) [
        | inl e ↦
            absurd (ground (arith, nacl_allows-none nacl dir (str "tcp") (pos port) (some ip) e))
        | inr (r, e) ↦
            probe_lem (rules_for_dir nacl dir) r
              (λ s m.
                v s (Memᴰ-filter (has_direction dir) nacl.rules (Memᴰ-sort lower_number _ m)).0)
              e (sym (nacl_allows-some nacl dir (str "tcp") (pos port) (some ip) r e) ∙ h)
      ]

pub all_probes-false :
    (nacl : NaclInfo) (dir : Text) (ps : List ℕ)
    → all_probes nacl dir ps ≡ false
    → (p : ℕ) × Memᴰ p ps × (nacl_allows_port nacl dir p ≡ false)
unfolding all_probes
all_probes-false nacl dir [] h = ground arith
all_probes-false nacl dir (p ∷ ps) h = elim (Bool-cases (nacl_allows_port nacl dir p)) [
  | inl e ↦ let (q, m, d) = all_probes-false nacl dir ps (rw e at h) in (q, Memᴰ.tail m, d)
  | inr e ↦ (p, Memᴰ.head refl, e)
]
