-- ===== src/Vpc/Route/Laws.antt =====
-- The chosen route is a most specific one.
use mathlib.Core.List.Memᴰ
use aws_explorer.Prelude.{ℕ, ◌≤◌, ◌≡◌, Option, none, some, List, Memᴰ}
use aws_explorer.Go.Net.{Ip}
use aws_explorer.Vpc.Types.{Route, RouteTableInfo}
use aws_explorer.Vpc.Route.{covers, Best}

-- No route of the list covers the address by a longer prefix.
abbrev pub NoLonger : Ip → List Route → ℕ → Type 0
NoLonger ip rs n = (s : Route) (m : ℕ) → Memᴰ s rs → covers ip s ≡ some m → m ≤ n

-- What the loop promises of its result, for the routes it has seen.
abbrev IsBest : Ip → List Route → Best → Type 0
IsBest ip rs none = (s : Route) → Memᴰ s rs → covers ip s ≡ none
IsBest ip rs (some (r, n)) = Memᴰ r rs × (covers ip r ≡ some n) × NoLonger ip rs n

-- A route of the table that covers the address, and by the longest prefix; or no route covers it.
abbrev pub IsLongestPrefix : RouteTableInfo → Ip → Option Route → Type 0
IsLongestPrefix rt ip none = (s : Route) → Memᴰ s rt.routes → covers ip s ≡ none
IsLongestPrefix rt ip (some r) =
    (n : ℕ) × Memᴰ r rt.routes × (covers ip r ≡ some n) × NoLonger ip rt.routes n
