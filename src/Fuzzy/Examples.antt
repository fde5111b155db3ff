-- ===== src/Fuzzy/Examples.antt =====
-- Runs of the finder, and the theorems at concrete inputs.
use aws_explorer.Prelude.{
  IsOrderedBy, arith, take, ◌≡◌, ◌↔◌, refl, some, List, [], ◌∷◌, Memᴰ, get_elem?,
}
use aws_explorer.Go.Text.{Text, str, to_lower, contains}
use aws_explorer.Go.Number.{ℤ, pos}
use aws_explorer.Fuzzy.{score, rank}
use aws_explorer.Fuzzy.Laws.{IsSubsequence, score_iff, rank_iff}
use aws_explorer.Fuzzy.Order.{IsBetter, rank-IsOrderedBy, rank-take}

abbrev instances : List Text
instances = str "db-1" ∷ str "web" ∷ str "prod-web-3" ∷ []

score_test : score (str "PW") (str "prod-web-3") ≡ some (pos 19)
unfolding score str contains to_lower
score_test = refl

substring_test : score (str "web") (str "web") ≡ some (pos 72)
unfolding score str contains to_lower
substring_test = refl

score_iff_example :
    ((z : ℤ) × (score (str "PW") (str "prod-web-3") ≡ some z))
    ↔ IsSubsequence (to_lower (str "PW")) (to_lower (str "prod-web-3"))
score_iff_example = score_iff (str "PW") (str "prod-web-3")

rank_iff_example :
    Memᴰ (record { index = 1; score = pos 72 }) (rank (str "web") instances 0)
    ↔ ((c : Text) × (get_elem? instances 1 ≡ some c) × (score (str "web") c ≡ some (pos 72)))
rank_iff_example = rank_iff (str "web") instances 1 (pos 72)

rank-IsOrderedBy_example : IsOrderedBy IsBetter (rank (str "web") instances 1)
rank-IsOrderedBy_example = rank-IsOrderedBy (str "web") instances 1

rank-take_example : rank (str "web") instances 1 ≡ take 1 (rank (str "web") instances 0)
rank-take_example = rank-take (str "web") instances 1 (omega arith)
