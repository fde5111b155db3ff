-- ===== src/Arn/Laws.antt =====
-- ARNs that are built are taken apart into what they were built from.
use aws_explorer.Prelude.{
  ℕ, suc, ◌==◌, ◌≡◌, ◌≢◌, refl, sym, subst, ap, ◌∙◌, true, false, none, some, [], ◌∷◌, ◌++◌, arith,
  inl, inr, Bool-cases, any, append-nil,
}
use aws_explorer.Go.Text.{Text, str, eq_text, has_byte, has_prefix, cut, cat}
use aws_explorer.Arn.{
  ec2_arn, trim_prefix, split_colons, typed, split_resource, arn_of_parts, parse_arn,
}

-- A text is cut at the first place of a byte that the part before it does not have.
cut_before : (b : ℕ) (w rest : Text) → has_byte b w ≡ false → cut b (w ++ b ∷ rest) ≡ (w, some rest)
unfolding cut has_byte any
cut_before b [] rest h = ground arith
cut_before b (c ∷ w) rest h =
    let ih = cut_before b w rest in
    elim (Bool-cases (c == b)) [
      | inl e ↦ absurd (ground arith)
      | inr e ↦ rw (e, ih (ground arith)) refl
    ]

has_byte_after : (b : ℕ) (w rest : Text) → has_byte b (w ++ b ∷ rest) ≡ true
unfolding has_byte any
has_byte_after b [] rest = ground arith
has_byte_after b (c ∷ w) rest = ground (arith, has_byte_after b w rest)

next_part :
    (n : ℕ) (w rest : Text)
    → has_byte b':' w ≡ false
    → split_colons (suc n) (w ++ b':' ∷ rest) ≡ w ∷ split_colons n rest
unfolding split_colons
next_part n w rest h =
    subst
      (λ p.
        (elim p.1 [ none ↦ p.0 ∷ [] | some r ↦ p.0 ∷ split_colons n r ]) ≡ w ∷ split_colons n rest)
      (sym (cut_before b':' w rest h)) refl

header_parts :
    (rest : Text)
    → split_colons 5 (str "arn:aws:ec2:" ++ rest)
      ≡ str "arn" ∷ str "aws" ∷ str "ec2" ∷ split_colons 2 rest
unfolding split_colons cut str
header_parts rest = refl

no_leading_slash :
    (type rest : Text)
    → type ≢ []
    → has_byte b'/' type ≡ false
    → trim_prefix (type ++ rest) (str "/") ≡ type ++ rest
unfolding trim_prefix has_prefix has_byte any str
no_leading_slash [] rest n h = absurd (n refl)
no_leading_slash (c ∷ type) rest n h = ground arith

resource_parts :
    (type id : Text) → has_byte b'/' type ≡ false → split_resource (type ++ b'/' ∷ id) ≡ (type, id)
unfolding split_resource typed
resource_parts type id h = rw (has_byte_after b'/' type id, cut_before b'/' type id h) refl

all_parts :
    (region account resource : Text)
    → has_byte b':' region ≡ false
    → has_byte b':' account ≡ false
    → split_colons 5 (str "arn:aws:ec2:" ++ (region ++ b':' ∷ (account ++ b':' ∷ resource)))
      ≡ str "arn" ∷ str "aws" ∷ str "ec2" ∷ region ∷ account ∷ resource ∷ []
unfolding split_colons
all_parts region account resource h k =
    header_parts (region ++ b':' ∷ (account ++ b':' ∷ resource))
    ∙ ap (λ ws. str "arn" ∷ str "aws" ∷ str "ec2" ∷ ws)
        (next_part 1 region (account ++ b':' ∷ resource) h
          ∙ ap (λ ws. region ∷ ws) (next_part 0 account resource k))

is_arn_scheme : eq_text (str "arn") (str "arn") ≡ true
unfolding eq_text str
is_arn_scheme = refl

of_parts :
    (region account type id : Text)
    → type ≢ []
    → has_byte b'/' type ≡ false
    → arn_of_parts (str "arn" ∷ str "aws" ∷ str "ec2" ∷ region ∷ account ∷ (type ++ b'/' ∷ id) ∷ [])
      ≡ some (record {
        partition = str "aws";
        service = str "ec2";
        region = region;
        account_id = account;
        resource_type = type;
        resource_id = id;
      })
unfolding arn_of_parts
of_parts region account type id t h =
    rw (is_arn_scheme, no_leading_slash type (b'/' ∷ id) t h, resource_parts type id h) refl

built :
    (region account type id : Text)
    → account ≢ []
    → id ≢ []
    → ec2_arn region account type id
      ≡ str "arn:aws:ec2:" ++ (region ++ b':' ∷ (account ++ b':' ∷ (type ++ b'/' ∷ id)))
unfolding ec2_arn cat str eq_text
built region [] type id a i = absurd (a refl)
built region (c ∷ account) type [] a i = absurd (i refl)
built region (c ∷ account) type (d ∷ id) a i = rw (append-nil (d ∷ id)) refl

-- An ARN of an EC2 resource parses into what it was built from, if the account and the ID are not
-- empty, the region and the account have no colon, and the type is not empty and has no slash.
pub parse_arn-ec2_arn :
    (region account type id : Text)
    → account ≢ []
    → id ≢ []
    → type ≢ []
    → has_byte b':' region ≡ false
    → has_byte b':' account ≡ false
    → has_byte b'/' type ≡ false
    → parse_arn (ec2_arn region account type id)
      ≡ some (record {
        partition = str "aws";
        service = str "ec2";
        region = region;
        account_id = account;
        resource_type = type;
        resource_id = id;
      })
unfolding parse_arn
parse_arn-ec2_arn region account type id a i t no_colon no_colon' no_slash =
    rw
      (
        built region account type id a i,
        all_parts region account (type ++ b'/' ∷ id) no_colon no_colon',
      )
      (of_parts region account type id t no_slash)
