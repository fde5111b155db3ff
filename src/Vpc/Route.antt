-- ===== src/Vpc/Route.antt =====
-- Route lookup of internal/vpctui/pathtrace.go.
pub mod Laws
use aws_explorer.Prelude.{
  ℕ, Bool, true, false, Option, none, some, List, [], ◌∷◌, if◌then◌else◌, ltb,
}
use aws_explorer.Go.Net.{Ip, IpNet, parse_cidr, net_contains}
use aws_explorer.Vpc.Types.{Route, RouteTableInfo}

-- The length of the prefix by which a route covers an address; `none` where it does not.
unfoldable pub covers : Ip → Route → Option ℕ
covers ip r = elim (parse_cidr r.destination) [
  | none ↦ none
  | some net ↦ if net_contains net ip then some net.ones else none
]

-- `best` and `bestOnes`, which is -1 while there is none
abbrev pub Best : Type 0
Best = Option (Route × ℕ)

longer : Best → Route → ℕ → Best
longer none r ones = some (r, ones)
longer (some (b, best_ones)) r ones =
    if ltb best_ones ones then some (r, ones) else some (b, best_ones)

-- The body of the loop: `continue` where the route does not cover the address.
consider : Best → Route → Option ℕ → Best
unfolding longer
consider best r none = best
consider best r (some ones) = longer best r ones

unfoldable pub best_route : Ip → Best → List Route → Best
unfolding consider covers
best_route ip best [] = best
best_route ip best (r ∷ rs) = best_route ip (consider best r (covers ip r)) rs

route_of : Best → Option Route
route_of none = none
route_of (some (r, ones)) = some r

unfoldable pub longest_prefix_route : Option RouteTableInfo → Ip → Option Route
unfolding best_route route_of
longest_prefix_route none ip = none
longest_prefix_route (some rt) ip = route_of (best_route ip none rt.routes)
