-- ===== src/Vpc/Findings/Types.antt =====
-- The findings of internal/vpctui/findings.go and the labels of their resources.
use mathlib.Core.List.Memᴰ
use aws_explorer.Prelude.{
  ℕ, ◌≡◌, refl, Memᴰ, Bool, true, false, ◌&&◌, not, List, [], ◌∷◌, if◌then◌else◌,
}
use aws_explorer.Go.Text.{Text, str, eq_text, cat}
use aws_explorer.Vpc.Types.{SgInfo, RouteTableInfo, SubnetInfo, NatGwInfo, NaclInfo}

-- `SevInfo`, `SevWarning`, `SevCritical`
pub data Severity : Type 0 where
  info warning critical : Severity

-- the number of a severity
unfoldable pub rank_of : Severity → ℕ
rank_of info = 0
rank_of warning = 1
rank_of critical = 2

pub record Finding : Type 0 where
  pub severity : Severity
  pub resource : Text
  pub title : Text
  pub detail : Text
  pub fix : Text

label_of : Text → Text → Text
label_of id name =
    if not (eq_text name []) && not (eq_text name (str "-"))
    then cat (id ∷ str " (" ∷ name ∷ str ")" ∷ [])
    else id

unfoldable pub sg_label : SgInfo → Text
unfolding label_of
sg_label sg = label_of sg.id sg.name

unfoldable pub rt_label_name : RouteTableInfo → Text
unfolding label_of
rt_label_name rt = label_of rt.id rt.name

unfoldable pub subnet_label : SubnetInfo → Text
unfolding label_of
subnet_label s = label_of s.id s.name

unfoldable pub nat_label : NatGwInfo → Text
unfolding label_of
nat_label n = label_of n.id n.name

unfoldable pub nacl_label : NaclInfo → Text
unfolding label_of
nacl_label n = label_of n.id n.name

-- what an `if` around one `append` appends
unfoldable pub when : Bool → Finding → List Finding
when true f = f ∷ []
when false f = []

pub Memᴰ-when : (b : Bool) (x : Finding) {f : Finding} → Memᴰ f (when b x) → (b ≡ true) × (f ≡ x)
unfolding when
Memᴰ-when true x m = (refl, Memᴰ.eq_of_singleton m)
Memᴰ-when false x m = absurd (Memᴰ.not-nil m)

pub Memᴰ-when_of : (b : Bool) (x : Finding) → b ≡ true → Memᴰ x (when b x)
unfolding when
Memᴰ-when_of b x h = rw h (Memᴰ.head refl)
