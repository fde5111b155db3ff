-- ===== src/Inventory/Dedupe/Merge.antt =====
-- The deduplication without its index: every resource is merged into the first one of its ARN.
use aws_explorer.Prelude.{
  ℕ, suc, ◌≡◌, ◌≢◌, refl, sym, ap, ◌∙◌, subst, inl, inr, Bool, true, false, Option, none, some,
  List, [], ◌∷◌, ◌++◌, if◌then◌else◌, arith, ltb, length, Bool-cases,
}
use aws_explorer.Go.Text.{Text, eq_text, eq_text_iff, eq_text_sound}
use aws_explorer.Go.Map.{Dict, get, put, get-put}
use aws_explorer.Inventory.Types.{Resource}
use aws_explorer.Inventory.Dedupe.{
  richness, Deduping, replace_if_richer, dedupe_seen, dedupe_step, dedupe_all, dedupe_resources,
}

-- The richer of two resources; the earlier one if they are equally rich.
unfoldable pub richer : Resource → Resource → Resource
richer x r = if ltb (richness x) (richness r) then r else x

-- Merged into the first resource of the same ARN, or appended.
unfoldable pub place : Resource → List Resource → List Resource
unfolding richer
place r [] = r ∷ []
place r (x ∷ xs) =
    let later = x ∷ place r xs in if eq_text x.arn r.arn then richer x r ∷ xs else later

unfoldable pub merge : Resource → List Resource → List Resource
unfolding place
merge r out = if eq_text r.arn [] then out ++ r ∷ [] else place r out

unfoldable pub merge_all : List Resource → List Resource → List Resource
unfolding merge
merge_all out [] = out
merge_all out (r ∷ rs) = merge_all (merge r out) rs

later : Option ℕ → Option ℕ
later none = none
later (some i) = some (suc i)

-- Where the first resource of an ARN stands.
index_of : Text → List Resource → Option ℕ
unfolding later
index_of a [] = none
index_of a (x ∷ xs) = if eq_text x.arn a then some 0 else later (index_of a xs)

-- The index names the places of all ARNs.
Indexed : Dict ℕ → List Resource → Type 0
Indexed m out = (a : Text) → a ≢ [] → get a m ≡ index_of a out

or_at : Option ℕ → Option ℕ → Option ℕ
or_at (some i) o = some i
or_at none o = o

later-or_at :
    (o : Option ℕ) (b : Bool) (n : ℕ)
    → later (or_at o (if b then some n else none))
      ≡ or_at (later o) (if b then some (suc n) else none)
unfolding later or_at
later-or_at (some i) b n = refl
later-or_at none true n = refl
later-or_at none false n = refl

later-none : (o : Option ℕ) → later o ≡ none → o ≡ none
unfolding later
later-none none h = refl
later-none (some i) h = ground arith

later-some : (o : Option ℕ) (i : ℕ) → later o ≡ some i → (j : ℕ) × (o ≡ some j) × (i ≡ suc j)
unfolding later
later-some none i h = ground arith
later-some (some j) i h = (j, refl, ground arith)

index_of-append :
    (a : Text) (xs : List Resource) (r : Resource)
    → index_of a (xs ++ r ∷ [])
      ≡ or_at (index_of a xs) (if eq_text r.arn a then some (length xs) else none)
unfolding index_of or_at later
index_of-append a [] r = refl
index_of-append a (x ∷ xs) r =
    let ih = index_of-append a xs r in
    elim (Bool-cases (eq_text x.arn a)) [
      | inl e ↦ rw e refl
      | inr e ↦ rw (e, ih) (later-or_at (index_of a xs) (eq_text r.arn a) (length xs))
    ]

place_new :
    (r : Resource) (xs : List Resource) → index_of r.arn xs ≡ none → place r xs ≡ xs ++ r ∷ []
unfolding place index_of
place_new r [] h = refl
place_new r (x ∷ xs) h = elim (Bool-cases (eq_text x.arn r.arn)) [
  | inl e ↦ let h' = rw e at h in ground arith
  | inr e ↦ rw e (ap (◌∷◌ x) (place_new r xs (later-none _ (rw e at h))))
]

place_at :
    (r : Resource) (xs : List Resource) (i : ℕ)
    → index_of r.arn xs ≡ some i
    → place r xs ≡ replace_if_richer i r xs
unfolding place index_of replace_if_richer richer
place_at r [] i h = ground arith
place_at r (x ∷ xs) i h = elim (Bool-cases (eq_text x.arn r.arn)) [
  | inl e ↦
      let q : i ≡ 0 = let h' = rw e at h in ground arith in
      rw (e, q)
        (elim (Bool-cases (ltb (richness x) (richness r))) [
          | inl l ↦ rw l refl
          | inr l ↦ rw l refl
        ])
  | inr e ↦ let (j, a, q) = later-some _ i (rw e at h) in rw (e, q) (ap (◌∷◌ x) (place_at r xs j a))
]

pub richer-arn : (x r : Resource) → x.arn ≡ r.arn → (richer x r).arn ≡ x.arn
unfolding richer
richer-arn x r q = elim (Bool-cases (ltb (richness x) (richness r))) [
  | inl e ↦ rw e (sym q)
  | inr e ↦ rw e refl
]

index_of-place :
    (a : Text) (r : Resource) (xs : List Resource) (i : ℕ)
    → index_of r.arn xs ≡ some i
    → index_of a (place r xs) ≡ index_of a xs
unfolding place index_of
index_of-place a r [] i h = ground arith
index_of-place a r (x ∷ xs) i h = elim (Bool-cases (eq_text x.arn r.arn)) [
  | inl e ↦ rw (e, richer-arn x r (eq_text_sound x.arn r.arn e)) refl
  | inr e ↦ let (j, b, q) = later-some _ i (rw e at h) in rw (e, index_of-place a r xs j b) refl
]

or_at-none : (o : Option ℕ) → or_at o none ≡ o
unfolding or_at
or_at-none none = refl
or_at-none (some i) = refl

new-Indexed :
    (d : Deduping) (r : Resource)
    → Indexed d.by_arn d.out
    → index_of r.arn d.out ≡ none
    → Indexed (put r.arn (length d.out) d.by_arn) (d.out ++ r ∷ [])
unfolding Indexed or_at
new-Indexed d r v h a n = elim (Bool-cases (eq_text r.arn a)) [
  | inl e ↦
      let q = subst (λ w. index_of w d.out ≡ none) (eq_text_sound r.arn a e) h in
      rw (get-put a r.arn (length d.out) d.by_arn, index_of-append a d.out r, e, q) refl
  | inr e ↦
      rw (get-put a r.arn (length d.out) d.by_arn, index_of-append a d.out r, e, v a n)
        (sym (or_at-none (index_of a d.out)))
]

bare-Indexed :
    (d : Deduping) (r : Resource)
    → eq_text r.arn [] ≡ true
    → Indexed d.by_arn d.out
    → Indexed d.by_arn (d.out ++ r ∷ [])
unfolding Indexed
bare-Indexed d r e v a n =
    let q : eq_text r.arn a ≡ false =
      ground (arith, eq_text_iff r.arn a, eq_text_iff a [], eq_text_sound r.arn [] e) in
    rw (index_of-append a d.out r, q, v a n) (sym (or_at-none (index_of a d.out)))

-- One step with the index merges the resource, and the index stays right.
seen-Indexed :
    (d : Deduping) (r : Resource) (o : Option ℕ)
    → eq_text r.arn [] ≡ false
    → Indexed d.by_arn d.out
    → index_of r.arn d.out ≡ o
    → Indexed (dedupe_seen d r o).by_arn (dedupe_seen d r o).out
      × ((dedupe_seen d r o).out ≡ place r d.out)
unfolding dedupe_seen Indexed
seen-Indexed d r none s v h = (new-Indexed d r v h, sym (place_new r d.out h))
seen-Indexed d r (some i) s v h = (
  λ a n. v a n ∙ sym (index_of-place a r d.out i h) ∙ ap (index_of a) (place_at r d.out i h),
  sym (place_at r d.out i h),
)

step-Indexed :
    (d : Deduping) (r : Resource)
    → Indexed d.by_arn d.out
    → Indexed (dedupe_step d r).by_arn (dedupe_step d r).out
      × ((dedupe_step d r).out ≡ merge r d.out)
unfolding dedupe_step merge Indexed
step-Indexed d r v = elim (Bool-cases (eq_text r.arn [])) [
  | inl e ↦ rw e (bare-Indexed d r e v, refl)
  | inr e ↦ rw e (
      seen-Indexed d r (get r.arn d.by_arn) e v
        (sym (v r.arn (λ q. ground (arith, eq_text_iff r.arn [])))))
]

dedupe_all-merge :
    (d : Deduping) (rs : List Resource)
    → Indexed d.by_arn d.out
    → (dedupe_all d rs).out ≡ merge_all d.out rs
unfolding dedupe_all merge_all
dedupe_all-merge d [] v = refl
dedupe_all-merge d (r ∷ rs) v =
    let (w, q) = step-Indexed d r v in
    dedupe_all-merge (dedupe_step d r) rs w ∙ ap (λ out. merge_all out rs) q

-- Deduplication by the index is merging one resource after the other.
pub dedupe_resources-merge : (rs : List Resource) → dedupe_resources rs ≡ merge_all [] rs
unfolding dedupe_resources Indexed index_of get
dedupe_resources-merge rs = dedupe_all-merge (record { by_arn = []; out = [] }) rs (λ a n. refl)
