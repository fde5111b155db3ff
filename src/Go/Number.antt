-- ===== src/Go/Number.antt =====
-- Decimal numbers: `strconv.Itoa` and `%d`, and the 64-bit `int` of the platform.
use aws_explorer.Prelude.{
  ℕ, zero, suc, ◌+◌, ◌-◌, ◌/◌, ◌%◌, ◌^◌, ◌≡◌, refl, Bool, true, false, ◌&&◌, [], ◌∷◌, ◌++◌, ltb,
  leb, if◌then◌else◌,
}
use aws_explorer.Go.Text.{Text}

-- Signed integers; `negsuc n` is -(n + 1).
pub data ℤ : Type 0 where
  pos : ℕ → ℤ
  negsuc : ℕ → ℤ

-- The `int` that a 64-bit pattern stands for.
unfoldable pub signed64 : ℕ → ℤ
signed64 n = if ltb n (2 ^ 63) then pos n else negsuc (2 ^ 64 - n - 1)

unfoldable pub is_neg : ℤ → Bool
is_neg (pos n) = false
is_neg (negsuc n) = true

-- `a <= b` on `int`
unfoldable pub leb_int : ℤ → ℤ → Bool
leb_int (pos a) (pos b) = leb a b
leb_int (pos a) (negsuc b) = false
leb_int (negsuc a) (pos b) = true
leb_int (negsuc a) (negsuc b) = leb b a

unfoldable pub is_digit : ℕ → Bool
is_digit c = leb b'0' c && leb c b'9'

unfoldable pub itoa_loop : ℕ → ℕ → Text
itoa_loop zero n = []
itoa_loop (suc fuel) n =
    let rest = itoa_loop fuel (n / 10) ++ (b'0' + n % 10) ∷ [] in
    if ltb n 10 then (b'0' + n) ∷ [] else rest

-- `strconv.Itoa` of a number that is not negative. A number has fewer digits than its value plus one.
unfoldable pub itoa : ℕ → Text
unfolding itoa_loop
itoa n = itoa_loop (suc n) n

-- `%d`
unfoldable pub itoa_int : ℤ → Text
unfolding itoa
itoa_int (pos n) = itoa n
itoa_int (negsuc n) = b'-' ∷ itoa (suc n)

-- A loop that reads decimal digits keeps what it has read in an accumulator.
module _ {ℓ} {S : Type ℓ} (step : S → ℕ → S) where
  unfoldable pub fold_text : S → Text → S
  fold_text s [] = s
  fold_text s (c ∷ t) = fold_text (step s c) t

  pub fold_text-append : (s : S) (t u : Text) → fold_text s (t ++ u) ≡ fold_text (fold_text s t) u
  unfolding fold_text
  fold_text-append s [] u = refl
  fold_text-append s (c ∷ t) u = fold_text-append (step s c) t u
