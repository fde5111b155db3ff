-- ===== src/Fuzzy.antt =====
-- The finder's subsequence scoring of internal/fuzzy/fuzzy.go, over the bytes of its texts.
pub mod Laws
pub mod Order
mod Examples
use aws_explorer.Prelude.{
  ℕ, zero, suc, ◌+◌, ◌-◌, ◌/◌, Bool, true, false, ◌&&◌, ◌||◌, Option, none, some, List, [], ◌∷◌,
  if◌then◌else◌, ◌==◌, ltb, length, take, sort,
}
use aws_explorer.Go.Text.{Text, to_lower, contains}
use aws_explorer.Go.Number.{ℤ, pos, negsuc}

-- `z + n` and `z - n`
unfoldable pub add_int : ℤ → ℕ → ℤ
add_int (pos a) n = pos (a + n)
add_int (negsuc a) n = if ltb a n then pos (n - suc a) else negsuc (a - n)

unfoldable pub sub_int : ℤ → ℕ → ℤ
sub_int (negsuc a) n = negsuc (a + n)
sub_int (pos a) n = if ltb a n then negsuc (n - suc a) else pos (a - n)

unfoldable pub less_int : ℤ → ℤ → Bool
less_int (pos a) (pos b) = ltb a b
less_int (pos a) (negsuc b) = false
less_int (negsuc a) (pos b) = true
less_int (negsuc a) (negsuc b) = ltb b a

abbrev pub match_score : ℕ
match_score = 4

abbrev pub consecutive_bonus : ℕ
consecutive_bonus = 6

abbrev pub word_start_bonus : ℕ
word_start_bonus = 8

abbrev pub substring_bonus : ℕ
substring_bonus = 40

abbrev pub gap_penalty : ℕ
gap_penalty = 1

unfoldable pub is_separator : ℕ → Bool
is_separator c =
    c == b'-' || c == b'_' || c == b'.' || c == b'/' || c == b':' || c == b' ' || c == 9

-- The loop's variables: `before` is the target's last character, `qi > 0` and `ti == prevMatch+1` are
-- `started` and `adjacent`.
pub record Scan : Type 0 where
  pub score : ℤ
  pub before : Option ℕ
  pub started : Bool
  pub adjacent : Bool

-- `ti == 0 || isSeparator(t[ti-1])`
unfoldable pub at_word_start : Option ℕ → Bool
unfolding is_separator
at_word_start none = true
at_word_start (some c) = is_separator c

unfoldable pub skip : ℕ → Scan → Scan
unfolding sub_int
skip c s = record s {
  score = if s.started then sub_int s.score gap_penalty else s.score;
  before = some c;
  adjacent = false;
}

unfoldable pub hit : ℕ → Scan → Scan
unfolding add_int at_word_start
hit c s =
    let matched = add_int s.score match_score in
    let run = if s.adjacent then add_int matched consecutive_bonus else matched in
    record {
      score = if at_word_start s.before then add_int run word_start_bonus else run;
      before = some c;
      started = true;
      adjacent = true;
    }

-- The loop, over what is left of the target and of the query; what stays of the query is not found.
unfoldable pub scan : Scan → Text → Text → ℤ × Text
unfolding skip hit
scan s [] t = (s.score, [])
scan s (q ∷ qs) [] = (s.score, q ∷ qs)
scan s (q ∷ qs) (c ∷ t) =
    let missed = scan (skip c s) (q ∷ qs) t in
    let found = scan (hit c s) qs t in if c == q then found else missed

unfoldable pub finished : ℕ → ℤ × Text → Option ℤ
unfolding sub_int
finished n (score, []) = some (sub_int score (n / 8))
finished n (score, q ∷ qs) = none

unfoldable pub start_scan : Text → Text → Scan
unfolding contains
start_scan q t = record {
  score = if contains t q then pos substring_bonus else pos 0;
  before = none;
  started = false;
  adjacent = false;
}

unfoldable pub score_lower : Text → Text → Option ℤ
unfolding scan finished start_scan
score_lower [] t = some (pos 0)
score_lower (q ∷ qs) [] = none
score_lower (q ∷ qs) (c ∷ t) =
    finished (length (c ∷ t)) (scan (start_scan (q ∷ qs) (c ∷ t)) (q ∷ qs) (c ∷ t))

-- `Score`, where `none` is `(0, false)`
unfoldable pub score : Text → Text → Option ℤ
unfolding score_lower
score query target = score_lower (to_lower query) (to_lower target)

pub record Hit : Type 0 where
  pub index : ℕ
  pub score : ℤ

unfoldable pub add_hit : ℕ → Option ℤ → List Hit → List Hit
add_hit i none hits = hits
add_hit i (some s) hits = record { index = i; score = s } ∷ hits

-- the loop over the candidates
unfoldable pub hits_from : ℕ → Text → List Text → List Hit
unfolding add_hit score
hits_from i query [] = []
hits_from i query (c ∷ cs) = add_hit i (score query c) (hits_from (suc i) query cs)

unfoldable pub better : Hit → Hit → Bool
unfolding less_int
better a b = less_int b.score a.score

-- A limit of 0 is none; a negative one acts as 0.
unfoldable pub rank : Text → List Text → ℕ → List Hit
unfolding hits_from sort better
rank query candidates limit =
    let hits = sort better (hits_from 0 query candidates) in
    if ltb 0 limit && ltb limit (length hits) then take limit hits else hits
