-- ===== src/Fuzzy/Order.antt =====
-- The order and the number of the hits.
use mathlib.Core.List.Memᴰ
use aws_explorer.Prelude.{
  ℕ, zero, suc, ◌≤◌, ◌<◌, ◌≡◌, refl, sym, ap, inl, inr, ⊎_elim, true, false, ◌&&◌, List, [], ◌∷◌,
  Memᴰ, ltb, arith, Bool-cases, length, take, sort, IsWeakOrder, ◌⊎◌, Option-cases, IsOrderedBy,
  IsOrderedBy-weaken, IsStably, sort-IsOrderedBy,
}
use aws_explorer.Go.Text.{Text}
use aws_explorer.Go.Number.{ℤ, pos, negsuc}
use aws_explorer.Fuzzy.{less_int, score, Hit, add_hit, hits_from, better, rank}

less_int_asym : (a b : ℤ) → less_int a b ≡ true → less_int b a ≡ false
unfolding less_int
less_int_asym (pos a) (pos b) h = ground arith
less_int_asym (pos a) (negsuc b) h = ground arith
less_int_asym (negsuc a) (pos b) h = refl
less_int_asym (negsuc a) (negsuc b) h = ground arith

less_int_trans : (a b c : ℤ) → less_int a b ≡ false → less_int b c ≡ false → less_int a c ≡ false
unfolding less_int
less_int_trans (pos a) (pos b) (pos c) h k = ground arith
less_int_trans (pos a) (pos b) (negsuc c) h k = refl
less_int_trans (pos a) (negsuc b) (pos c) h k = ground arith
less_int_trans (pos a) (negsuc b) (negsuc c) h k = refl
less_int_trans (negsuc a) (pos b) c h k = ground arith
less_int_trans (negsuc a) (negsuc b) (pos c) h k = ground arith
less_int_trans (negsuc a) (negsuc b) (negsuc c) h k = ground arith

better-IsWeakOrder : IsWeakOrder better
unfolding better
better-IsWeakOrder = record {
  asym = λ x y h. less_int_asym y.score x.score h;
  trans = λ x y z h k. less_int_trans x.score y.score z.score h k;
}

-- `a < b` on integers
abbrev pub IsBelow : ℤ → ℤ → Type 0
IsBelow (pos a) (pos b) = a < b
IsBelow (pos a) (negsuc b) = ⊥
IsBelow (negsuc a) (pos b) = Unit
IsBelow (negsuc a) (negsuc b) = b < a

less_int-IsBelow : (a b : ℤ) → less_int a b ≡ true → IsBelow a b
unfolding less_int
less_int-IsBelow (pos a) (pos b) h = ground arith
less_int-IsBelow (pos a) (negsuc b) h = ground arith
less_int-IsBelow (negsuc a) (pos b) h = tt
less_int-IsBelow (negsuc a) (negsuc b) h = ground arith

less_int_total : (a b : ℤ) → less_int a b ≡ false → less_int b a ≡ false → a ≡ b
unfolding less_int
less_int_total (pos a) (pos b) h k = ap pos (ground arith)
less_int_total (pos a) (negsuc b) h k = ground arith
less_int_total (negsuc a) (pos b) h k = ground arith
less_int_total (negsuc a) (negsuc b) h k = ap negsuc (ground arith)

-- The first has the higher score, or the scores are the same and it is the earlier candidate.
abbrev pub IsBetter : Hit → Hit → Type 0
IsBetter x y = IsBelow y.score x.score ⊎ ((x.score ≡ y.score) × (x.index < y.index))

abbrev IsEarlier : Hit → Hit → Type 0
IsEarlier x y = x.index < y.index

IsStably-IsBetter : (x y : Hit) → IsStably better better-IsWeakOrder IsEarlier x y → IsBetter x y
unfolding better
IsStably-IsBetter x y (h, inl k) = inl (less_int-IsBelow y.score x.score k)
IsStably-IsBetter x y (h, inr k) = elim (Bool-cases (less_int y.score x.score)) [
  | inl e ↦ inl (less_int-IsBelow y.score x.score e)
  | inr e ↦ inr (less_int_total x.score y.score h e, k)
]

index-hits_from :
    (i : ℕ) (query : Text) (cs : List Text) (h : Hit) → Memᴰ h (hits_from i query cs) → i ≤ h.index
unfolding hits_from add_hit
index-hits_from i query [] h m = absurd (Memᴰ.not-nil m)
index-hits_from i query (c ∷ cs) h m = elim (Option-cases (score query c)) [
  | inl e ↦ omega (arith, index-hits_from (suc i) query cs h (rw e at m))
  | inr (z, e) ↦
      ⊎_elim (λ q. omega (arith, ap (λ (x : Hit). x.index) q))
        (λ t. omega (arith, index-hits_from (suc i) query cs h t)) (Memᴰ.cases_cons (rw e at m))
]

hits_from-IsOrderedBy :
    (i : ℕ) (query : Text) (cs : List Text) → IsOrderedBy IsEarlier (hits_from i query cs)
unfolding hits_from add_hit
hits_from-IsOrderedBy i query [] = tt
hits_from-IsOrderedBy i query (c ∷ cs) =
    let rest = hits_from-IsOrderedBy (suc i) query cs in
    elim (Option-cases (score query c)) [
      | inl e ↦ rw e rest
      | inr (z, e) ↦ rw e ((λ y m. omega (arith, index-hits_from (suc i) query cs y m)), rest)
    ]

Memᴰ-take : (n : ℕ) (xs : List Hit) {x : Hit} → Memᴰ x (take n xs) → Memᴰ x xs
Memᴰ-take zero xs m = absurd (Memᴰ.not-nil m)
Memᴰ-take (suc n) [] m = m
Memᴰ-take (suc n) (x ∷ xs) m =
    ⊎_elim Memᴰ.head (λ t. Memᴰ.tail (Memᴰ-take n xs t)) (Memᴰ.cases_cons m)

take-IsOrderedBy :
    (n : ℕ) (xs : List Hit) → IsOrderedBy IsBetter xs → IsOrderedBy IsBetter (take n xs)
take-IsOrderedBy zero xs s = tt
take-IsOrderedBy (suc n) [] s = tt
take-IsOrderedBy (suc n) (x ∷ xs) s = (λ y m. s.0 y (Memᴰ-take n xs m), take-IsOrderedBy n xs s.1)

take_all : (n : ℕ) (xs : List Hit) → length xs ≤ n → take n xs ≡ xs
take_all zero [] h = refl
take_all zero (x ∷ xs) h = ground arith
take_all (suc n) [] h = refl
take_all (suc n) (x ∷ xs) h = ap (◌∷◌ x) (take_all n xs (omega arith))

-- Each hit has a higher score than every later one, or the same score and a smaller index among the
-- candidates, whatever the limit.
pub rank-IsOrderedBy :
    (query : Text) (candidates : List Text) (limit : ℕ)
    → IsOrderedBy IsBetter (rank query candidates limit)
unfolding rank
rank-IsOrderedBy query candidates limit =
    let found = hits_from 0 query candidates in
    let s : IsOrderedBy IsBetter (sort better found) =
      IsOrderedBy-weaken (IsStably better better-IsWeakOrder IsEarlier) IsBetter IsStably-IsBetter _
        (sort-IsOrderedBy better better-IsWeakOrder IsEarlier found
          (hits_from-IsOrderedBy 0 query candidates)) in
    elim (Bool-cases (ltb 0 limit && ltb limit (length (sort better found)))) [
      | inl e ↦ rw e (take-IsOrderedBy limit (sort better found) s)
      | inr e ↦ rw e s
    ]

-- With a limit that is not 0 the hits are the first ones, up to the limit, of those without a limit.
pub rank-take :
    (query : Text) (candidates : List Text) (limit : ℕ)
    → 0 < limit
    → rank query candidates limit ≡ take limit (rank query candidates 0)
unfolding rank
rank-take query candidates limit p =
    let hits = sort better (hits_from 0 query candidates) in
    elim (Bool-cases (ltb 0 limit && ltb limit (length hits))) [
      | inl e ↦ rw e refl
      | inr e ↦ rw e (sym (take_all limit hits (ground arith)))
    ]
