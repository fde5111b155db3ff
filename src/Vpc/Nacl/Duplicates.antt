-- ===== src/Vpc/Nacl/Duplicates.antt =====
-- The verdict of a network ACL whatever its rule numbers, repeated ones included.
use aws_explorer.Prelude.{
  ◌≤◌, ◌<◌, ◌≡◌, ◌⊎◌, inl, inr, ⊎_elim, true, false, some, List, ◌∷◌, ◌++◌, Memᴰ, arith, filter,
  find-sort, filter-split, Memᴰ-filter_of,
}
use aws_explorer.Go.Text.{Text}
use aws_explorer.Go.Number.{ℤ}
use aws_explorer.Go.Net.{Ip}
use aws_explorer.Prelude.{Option}
use aws_explorer.Vpc.Types.{NaclRule, NaclInfo}
use aws_explorer.Vpc.Nacl.{
  has_direction, lower_number, rules_for_dir, rule_matches, is_allow, nacl_allows,
}
use aws_explorer.Vpc.Nacl.Laws.{lower_number-IsWeakOrder, nacl_allows-some, nacl_allows-none}

module _ (nacl : NaclInfo) (dir proto : Text) (port : ℤ) (ip : Option Ip) where
  -- A rule of the direction whose protocol, port and CIDR cover the traffic.
  abbrev pub Applies : NaclRule → Type 0
  Applies r = (has_direction dir r ≡ true) × (rule_matches proto port ip r ≡ true)

  -- A rule that applies, at a place in the ACL such that those that apply before it have a greater
  -- number, and those after it no smaller one.
  abbrev pub Decides : NaclRule → Type 0
  Decides r =
      (before : List NaclRule) × (after : List NaclRule) × (nacl.rules ≡ before ++ r ∷ after)
      × Applies r
      × ((s : NaclRule) → Memᴰ s before → Applies s → r.rule_number < s.rule_number)
      × ((s : NaclRule) → Memᴰ s after → Applies s → r.rule_number ≤ s.rule_number)

  -- Whatever the rule numbers, either no rule of the ACL applies and the traffic is denied, or the
  -- verdict is the action of a rule that applies and has the lowest number of those that do, the
  -- first in the order of the ACL if several have it.
  pub nacl_allows-Decides :
      (((r : NaclRule) → Memᴰ r nacl.rules → ¬ Applies r)
        × ((nacl_allows (some nacl) dir proto port ip).0 ≡ false))
      ⊎ ((r : NaclRule) × Decides r × ((nacl_allows (some nacl) dir proto port ip).0 ≡ is_allow r))
  unfolding rules_for_dir lower_number
  nacl_allows-Decides =
      let p = rule_matches proto port ip in
      ⊎_elim
        (λ (n, f). inl (
          (λ r m (d, a).
              let k = n r (Memᴰ-filter_of (has_direction dir) nacl.rules m d) in
              absurd (ground arith)),
          nacl_allows-none nacl dir proto port ip f,
        ))
        (λ (r, f, (before, after, q, y, b, a)).
          let (front, back, s, d, fr, ba) =
            filter-split (has_direction dir) nacl.rules before after r q in
          inr (
            r,
            (
              front,
              back,
              s,
              (d, y),
              (λ t m (e, g). let k = b t (fr t m e) g in ground arith),
              (λ t m (e, g). let k = a t (ba t m e) g in ground arith),
            ),
            nacl_allows-some nacl dir proto port ip r f,
          ))
        (find-sort lower_number p lower_number-IsWeakOrder (filter (has_direction dir) nacl.rules))
