-- ===== src/Inventory/Dedupe.antt =====
-- `Dedupe` and `Richness` of internal/summary/summary.go, and the key and type label that
-- internal/acctsnap/acctsnap.go gives a resource.
pub mod Merge
pub mod Laws
pub mod Unique
use aws_explorer.Prelude.{
  ℕ, zero, suc, ◌+◌, Bool, true, false, ◌&&◌, not, Option, none, some, List, [], ◌∷◌, ◌++◌,
  if◌then◌else◌, ltb, length,
}
use aws_explorer.Go.Text.{Text, str, eq_text, cat}
use aws_explorer.Go.Map.{Dict, get, put}
use aws_explorer.Inventory.Types.{Resource}

-- one point for a field that is set
unfoldable pub point_for : Text → ℕ
point_for s = if not (eq_text s []) then 1 else 0

unfoldable pub point_for_time : Option ℕ → ℕ
point_for_time none = 0
point_for_time (some t) = 1

unfoldable pub richness : Resource → ℕ
unfolding point_for point_for_time
richness r =
    point_for r.state
    + point_for r.az
    + point_for_time r.created_at
    + length r.summary
    + length r.details

-- `byARN` and `out`
pub record Deduping : Type 0 where
  pub by_arn : Dict ℕ
  pub out : List Resource

-- `if Richness(r) > Richness(out[idx]) { out[idx] = r }`; an index out of range, which would panic,
-- does not arise.
unfoldable pub replace_if_richer : ℕ → Resource → List Resource → List Resource
unfolding richness
replace_if_richer i r [] = []
replace_if_richer zero r (x ∷ xs) = if ltb (richness x) (richness r) then r ∷ xs else x ∷ xs
replace_if_richer (suc i) r (x ∷ xs) = x ∷ replace_if_richer i r xs

unfoldable pub dedupe_seen : Deduping → Resource → Option ℕ → Deduping
unfolding replace_if_richer put
dedupe_seen d r none = record { by_arn = put r.arn (length d.out) d.by_arn; out = d.out ++ r ∷ [] }
dedupe_seen d r (some i) = record d { out = replace_if_richer i r d.out }

-- the body of the loop
unfoldable pub dedupe_step : Deduping → Resource → Deduping
unfolding dedupe_seen get
dedupe_step d r =
    if eq_text r.arn []
    then record d { out = d.out ++ r ∷ [] }
    else dedupe_seen d r (get r.arn d.by_arn)

unfoldable pub dedupe_all : Deduping → List Resource → Deduping
unfolding dedupe_step
dedupe_all d [] = d
dedupe_all d (r ∷ rs) = dedupe_all (dedupe_step d r) rs

unfoldable pub dedupe_resources : List Resource → List Resource
unfolding dedupe_all
dedupe_resources rs = (dedupe_all (record { by_arn = []; out = [] }) rs).out

unfoldable pub type_label : Resource → Text
type_label r =
    if not (eq_text r.service []) && not (eq_text r.type [])
    then cat (r.service ∷ str "/" ∷ r.type ∷ [])
    else if not (eq_text r.service [])
    then r.service
    else r.type

unfoldable pub entry_key : Resource → Text
unfolding type_label
entry_key r =
    let key = cat (type_label r ∷ str "|" ∷ r.region ∷ str "|" ∷ r.id ∷ []) in
    if not (eq_text r.arn [])
    then r.arn
    else if eq_text r.id []
    then cat (key ∷ str "|" ∷ r.name ∷ [])
    else key
