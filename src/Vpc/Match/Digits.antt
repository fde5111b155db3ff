-- ===== src/Vpc/Match/Digits.antt =====
-- Decimal texts: what `strconv.Itoa` writes, `atoiPort` reads back, and trimming leaves alone.
use aws_explorer.Prelude.{
  List-cases, ◌≢◌, subst, ℕ, zero, suc, ◌+◌, ◌*◌, ◌/◌, ◌%◌, ◌^◌, ◌<◌, ◌≡◌, refl, ◌∙◌, ap, true,
  false, Option, some, [], ◌∷◌, ◌++◌, arith, ltb, Bool-cases, inl, inr, ◌==◌,
}
use aws_explorer.Go.Text.{
  Text, str, is_space, trim_left, trim_right, snoc_trimmed, trim_space, equal_fold, has_byte, cut,
}
use aws_explorer.Go.Number.{pos, signed64, is_digit, itoa, itoa_loop}
use aws_explorer.Vpc.Match.{atoi_step, atoi_loop, atoi_port, as_int}

-- Every character is a decimal digit.
abbrev pub IsDigits : Text → Type 0
IsDigits [] = Unit
IsDigits (c ∷ s) = (is_digit c ≡ true) × IsDigits s

IsDigits-append : (s t : Text) → IsDigits s → IsDigits t → IsDigits (s ++ t)
IsDigits-append [] t h k = k
IsDigits-append (c ∷ s) t h k = (h.0, IsDigits-append s t h.1 k)

digit_char : (d : ℕ) → d < 10 → is_digit (b'0' + d) ≡ true
unfolding is_digit
digit_char d h = ground arith

itoa_loop-IsDigits : (fuel n : ℕ) → IsDigits (itoa_loop fuel n)
unfolding itoa_loop
itoa_loop-IsDigits zero n = tt
itoa_loop-IsDigits (suc fuel) n = elim (Bool-cases (ltb n 10)) [
  | inl e ↦ rw e (digit_char n (ground arith), tt)
  | inr e ↦ rw e (
      IsDigits-append _ _ (itoa_loop-IsDigits fuel (n / 10))
        (digit_char (n % 10) (omega arith), tt))
]

pub itoa-IsDigits : (n : ℕ) → IsDigits (itoa n)
unfolding itoa
itoa-IsDigits n = itoa_loop-IsDigits (suc n) n

-- one more digit
atoi_step-digit :
    (n d : ℕ) → d < 10 → n * 10 + d < 2 ^ 64 → atoi_step (some n) (b'0' + d) ≡ some (n * 10 + d)
unfolding atoi_step is_digit
atoi_step-digit n d h k = ground arith

atoi_loop-append : (n : Option ℕ) (s t : Text) → atoi_loop n (s ++ t) ≡ atoi_loop (atoi_loop n s) t
unfolding atoi_loop
atoi_loop-append n [] t = refl
atoi_loop-append n (c ∷ s) t = atoi_loop-append (atoi_step n c) s t

atoi_loop-itoa_loop :
    (fuel n : ℕ) → n < fuel → n < 2 ^ 64 → atoi_loop (some 0) (itoa_loop fuel n) ≡ some n
unfolding itoa_loop
atoi_loop-itoa_loop zero n h k = absurd (omega arith)
atoi_loop-itoa_loop (suc fuel) n h k = elim (Bool-cases (ltb n 10)) [
  | inl e ↦ rw e (
      unfold atoi_loop in
      (atoi_step-digit 0 n (ground arith) (omega arith) ∙ ap some (omega arith)))
  | inr e ↦
      rw (e, atoi_loop-append, atoi_loop-itoa_loop fuel (n / 10) (ground arith) (omega arith))
        (unfold atoi_loop in
          (atoi_step-digit (n / 10) (n % 10) (omega arith) (omega arith) ∙ ap some (omega arith)))
]

snoc-ne-nil : (s : Text) (c : ℕ) → s ++ c ∷ [] ≢ []
snoc-ne-nil [] c h = ground arith
snoc-ne-nil (d ∷ s) c h = ground arith

itoa-ne-nil : (n : ℕ) → itoa n ≢ []
unfolding itoa itoa_loop
itoa-ne-nil n h = elim (Bool-cases (ltb n 10)) [
  | inl e ↦ ground arith
  | inr e ↦ snoc-ne-nil (itoa_loop n (n / 10)) (b'0' + n % 10) (ground arith)
]

-- What is printed is not empty and begins with a digit.
pub itoa-cons : (n : ℕ) → (c : ℕ) × (s : Text) × (itoa n ≡ c ∷ s) × IsDigits (c ∷ s)
itoa-cons n = elim (List-cases (itoa n)) [
  | inl e ↦ absurd (itoa-ne-nil n e)
  | inr (c, s, e) ↦ (c, s, e, subst IsDigits e (itoa-IsDigits n))
]

signed64-pos : (n : ℕ) → n < 2 ^ 63 → signed64 n ≡ pos n
unfolding signed64
signed64-pos n h = ground arith

atoi_port-cons : (c : ℕ) (s : Text) → atoi_port (c ∷ s) ≡ as_int (atoi_loop (some 0) (c ∷ s))
unfolding atoi_port
atoi_port-cons c s = refl

-- The port parser reads back what is printed, for every number below the sign bit.
pub atoi_port-itoa : (n : ℕ) → n < 2 ^ 63 → atoi_port (itoa n) ≡ some (pos n)
unfolding as_int itoa
atoi_port-itoa n h =
    let (c, s, e, d) = itoa-cons n in
    let r : atoi_loop (some 0) (itoa n) ≡ some n =
      atoi_loop-itoa_loop (suc n) n (omega arith) (omega arith) in
    rw (e, atoi_port-cons, ← e, r) (ap some (signed64-pos n h))

-- A digit is none of the characters that the parsers look for.
digit-is_space : (c : ℕ) → is_digit c ≡ true → is_space c ≡ false
unfolding is_digit is_space
digit-is_space c h = ground arith

-- Trimming leaves a text with no space alone.
abbrev pub NoSpace : Text → Type 0
NoSpace [] = Unit
NoSpace (c ∷ s) = (is_space c ≡ false) × NoSpace s

pub NoSpace-append : (s t : Text) → NoSpace s → NoSpace t → NoSpace (s ++ t)
NoSpace-append [] t h k = k
NoSpace-append (c ∷ s) t h k = (h.0, NoSpace-append s t h.1 k)

pub IsDigits-NoSpace : (s : Text) → IsDigits s → NoSpace s
IsDigits-NoSpace [] h = tt
IsDigits-NoSpace (c ∷ s) h = (digit-is_space c h.0, IsDigits-NoSpace s h.1)

trim_left-NoSpace : (s : Text) → NoSpace s → trim_left s ≡ s
unfolding trim_left
trim_left-NoSpace [] h = refl
trim_left-NoSpace (c ∷ s) h = rw (h.0)

trim_right-NoSpace : (s : Text) → NoSpace s → trim_right s ≡ s
unfolding trim_right snoc_trimmed
trim_right-NoSpace [] h = refl
trim_right-NoSpace (c ∷ []) h = rw (h.0)
trim_right-NoSpace (c ∷ d ∷ s) h = let ih = trim_right-NoSpace (d ∷ s) h.1 in ap (snoc_trimmed c) ih

pub trim_space-NoSpace : (s : Text) → NoSpace s → trim_space s ≡ s
unfolding trim_space
trim_space-NoSpace s h = rw (trim_left-NoSpace s h) (trim_right-NoSpace s h)

-- A text of digits is cut at the separator behind it.
digit-ne : (b c : ℕ) → is_digit c ≡ true → is_digit b ≡ false → (c == b) ≡ false
digit-ne b c h k = ground (arith, ap is_digit)

pub cut-IsDigits :
    (b : ℕ) (s rest : Text)
    → is_digit b ≡ false
    → IsDigits s
    → cut b (s ++ b ∷ rest) ≡ (s, some rest)
unfolding cut
cut-IsDigits b [] rest k h = ground arith
cut-IsDigits b (c ∷ s) rest k h = rw (digit-ne b c h.0 k, cut-IsDigits b s rest k h.1)

pub has_byte-IsDigits : (b : ℕ) (s : Text) → is_digit b ≡ false → IsDigits s → has_byte b s ≡ false
unfolding has_byte
has_byte-IsDigits b [] k h = refl
has_byte-IsDigits b (c ∷ s) k h = rw (digit-ne b c h.0 k) (has_byte-IsDigits b s k h.1)

pub has_byte-append : (b : ℕ) (s rest : Text) → has_byte b (s ++ b ∷ rest) ≡ true
unfolding has_byte
has_byte-append b [] rest = ground arith
has_byte-append b (c ∷ s) rest = ground (arith, has_byte-append b s rest)

-- A text that begins with a digit is not the word "All".
pub digit-ne-All : (c : ℕ) (s : Text) → is_digit c ≡ true → equal_fold (c ∷ s) (str "All") ≡ false
unfolding equal_fold is_digit str
digit-ne-All c s h = ground arith
