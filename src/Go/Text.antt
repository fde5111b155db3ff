-- ===== src/Go/Text.antt =====
-- Go strings as lists of code points, and the functions of `strings` that the program calls. The
-- case functions act on ASCII letters, which is what AWS identifiers and enumerations consist of.
use Prim.Native.Char.{code}
use aws_explorer.Prelude.{
  ℕ, ◌+◌, ◌-◌, String, ◌≡◌, refl, ap₂, subst, ◌↔◌, Memᴰ, any→Memᴰ, Memᴰ→any, Bool, true, false,
  ◌&&◌, ◌||◌, Option, none, some, List, [], ◌∷◌, ◌++◌, arith, ltb, leb, ◌==◌, if◌then◌else◌, any,
  map,
}

abbrev pub Text : Type 0
Text = List ℕ

-- A literal. It stays shut in proofs, which keeps long messages folded.
unfoldable pub str : String → Text
str String.[] = []
str (String.◌∷◌ c s) = code c ∷ str s

unfoldable pub eq_text : Text → Text → Bool
eq_text [] [] = true
eq_text [] (d ∷ t) = false
eq_text (c ∷ s) [] = false
eq_text (c ∷ s) (d ∷ t) = c == d && eq_text s t

pub eq_text_sound : (s t : Text) → eq_text s t ≡ true → s ≡ t
unfolding eq_text
eq_text_sound [] [] h = refl
eq_text_sound [] (d ∷ t) h = ground arith
eq_text_sound (c ∷ s) [] h = ground arith
eq_text_sound (c ∷ s) (d ∷ t) h = ap₂ ◌∷◌ (ground arith) (eq_text_sound s t (ground arith))

pub eq_text_refl : (s : Text) → eq_text s s ≡ true
unfolding eq_text
eq_text_refl [] = refl
eq_text_refl (c ∷ s) = ground (arith, eq_text_refl s)

pub eq_text_iff : (s t : Text) → (eq_text s t ≡ true) ↔ (s ≡ t)
eq_text_iff s t = (eq_text_sound s t, λ e. rw e (eq_text_refl t))

-- `s < t`
unfoldable pub less_text : Text → Text → Bool
less_text [] [] = false
less_text [] (d ∷ t) = true
less_text (c ∷ s) [] = false
less_text (c ∷ s) (d ∷ t) = ltb c d || (c == d && less_text s t)

-- `unicode.IsSpace`
unfoldable pub is_space : ℕ → Bool
is_space c =
    (leb 9 c && leb c 13)
    || c == 32
    || c == 0x85
    || c == 0xA0
    || c == 0x1680
    || (leb 0x2000 c && leb c 0x200a)
    || c == 0x2028
    || c == 0x2029
    || c == 0x202f
    || c == 0x205f
    || c == 0x3000

unfoldable pub trim_left : Text → Text
unfolding is_space
trim_left [] = []
trim_left (c ∷ s) = let rest = trim_left s in if is_space c then rest else c ∷ s

unfoldable pub snoc_trimmed : ℕ → Text → Text
unfolding is_space
snoc_trimmed c [] = if is_space c then [] else c ∷ []
snoc_trimmed c (d ∷ s) = c ∷ d ∷ s

unfoldable pub trim_right : Text → Text
unfolding snoc_trimmed
trim_right [] = []
trim_right (c ∷ s) = snoc_trimmed c (trim_right s)

-- `strings.TrimSpace`
unfoldable pub trim_space : Text → Text
unfolding trim_left trim_right
trim_space s = trim_right (trim_left s)

abbrev pub lower : ℕ → ℕ
lower c = if leb b'A' c && leb c b'Z' then c + 32 else c

abbrev pub upper : ℕ → ℕ
upper c = if leb b'a' c && leb c b'z' then c - 32 else c

-- `strings.ToLower`, `strings.ToUpper`, `strings.EqualFold`
unfoldable pub to_lower : Text → Text
to_lower s = map lower s

unfoldable pub to_upper : Text → Text
to_upper s = map upper s

unfoldable pub equal_fold : Text → Text → Bool
unfolding to_lower eq_text
equal_fold s t = eq_text (to_lower s) (to_lower t)

-- `strings.HasPrefix s p`
unfoldable pub has_prefix : Text → Text → Bool
has_prefix s [] = true
has_prefix [] (d ∷ p) = false
has_prefix (c ∷ s) (d ∷ p) = c == d && has_prefix s p

-- `strings.Contains s p`
unfoldable pub contains : Text → Text → Bool
unfolding has_prefix
contains [] p = has_prefix [] p
contains (c ∷ s) p = has_prefix (c ∷ s) p || contains s p

-- `strings.Contains` and `strings.IndexByte` of one byte
unfoldable pub has_byte : ℕ → Text → Bool
unfolding any
has_byte b s = any (λ c. c == b) s

-- `strings.Cut` at one byte: the text before its first place and, if it stands there, after it
unfoldable pub cut : ℕ → Text → Text × Option Text
cut b [] = ([], none)
cut b (c ∷ s) = let rest = cut b s in if c == b then ([], some s) else (c ∷ rest.0, rest.1)

-- `strings.Split` at one byte
split_cons : ℕ → List Text → List Text
split_cons c [] = (c ∷ []) ∷ []
split_cons c (w ∷ ws) = (c ∷ w) ∷ ws

unfoldable pub split : ℕ → Text → List Text
unfolding split_cons
split b [] = [] ∷ []
split b (c ∷ s) = let rest = split b s in if c == b then [] ∷ rest else split_cons c rest

-- `strings.Join`
unfoldable pub join : List Text → Text → Text
join [] sep = []
join (w ∷ []) sep = w
join (w ∷ v ∷ ws) sep = w ++ (sep ++ join (v ∷ ws) sep)

-- concatenation of several parts, as `+` and `Sprintf` make it
unfoldable pub cat : List Text → Text
cat [] = []
cat (w ∷ ws) = w ++ cat ws

-- a set of strings, as a list, has a string
unfoldable pub member : Text → List Text → Bool
unfolding any
member k = any (λ x. eq_text x k)

pub member_iff : (k : Text) (ks : List Text) → (member k ks ≡ true) ↔ Memᴰ k ks
unfolding member
member_iff k ks = (
  λ e.
      let (x, m, q) = any→Memᴰ (λ x. eq_text x k) ks e in
      subst (λ y. Memᴰ y ks) (eq_text_sound x k q) m,
  λ m. Memᴰ→any (λ x. eq_text x k) ks m (eq_text_refl k),
)

escaped : Text → Text
escaped [] = []
escaped (c ∷ s) = let rest = escaped s in if c == b'"' || c == 92 then 92 ∷ c ∷ rest else c ∷ rest

-- `%q` of a text of printable characters
unfoldable pub quoted : Text → Text
unfolding escaped
quoted s = cat (str "\"" ∷ escaped s ∷ str "\"" ∷ [])
