-- ===== src/Fuzzy/Laws.antt =====
-- What the finder matches, and what it ranks.
use mathlib.Core.List.Memᴰ
use aws_explorer.Prelude.{
  ℕ, zero, suc, ◌+◌, ◌≡◌, refl, sym, ap, ◌∙◌, subst, ◌↔◌, ◌⊎◌, inl, inr, ⊎_elim, Option, none, some,
  List, [], ◌∷◌, Memᴰ, ◌==◌, arith, Bool-cases, Option-cases, length, get_elem?, Memᴰ-sort,
  Memᴰ-sort_of,
}
use aws_explorer.Go.Text.{Text, to_lower}
use aws_explorer.Go.Number.{ℤ}
use aws_explorer.Fuzzy.{
  Scan, skip, hit, scan, finished, start_scan, score_lower, score, Hit, add_hit, hits_from, better,
  rank,
}

-- The query's characters stand in the target in this order.
abbrev pub IsSubsequence : Text → Text → Type 0
IsSubsequence [] t = Unit
IsSubsequence (q ∷ qs) [] = ⊥
IsSubsequence (q ∷ qs) (c ∷ t) = ((c ≡ q) × IsSubsequence qs t) ⊎ IsSubsequence (q ∷ qs) t

longer-IsSubsequence :
    (qs : Text) (c : ℕ) (t : Text) → IsSubsequence qs t → IsSubsequence qs (c ∷ t)
longer-IsSubsequence [] c t s = tt
longer-IsSubsequence (q ∷ qs) c t s = inr s

tail-IsSubsequence : (q : ℕ) (qs t : Text) → IsSubsequence (q ∷ qs) t → IsSubsequence qs t
tail-IsSubsequence q qs [] s = absurd s
tail-IsSubsequence q qs (c ∷ t) (inl (e, s)) = longer-IsSubsequence qs c t s
tail-IsSubsequence q qs (c ∷ t) (inr s) = longer-IsSubsequence qs c t (tail-IsSubsequence q qs t s)

-- The greedy loop finds the whole query in a target that it is a subsequence of.
scan_complete : (s : Scan) (qs t : Text) → IsSubsequence qs t → (scan s qs t).1 ≡ []
unfolding scan
scan_complete s [] t h = refl
scan_complete s (q ∷ qs) [] h = absurd h
scan_complete s (q ∷ qs) (c ∷ t) h = elim (Bool-cases (c == q)) [
  | inl e ↦ rw e (scan_complete (hit c s) qs t (⊎_elim (λ p. p.1) (tail-IsSubsequence q qs t) h))
  | inr e ↦
      rw e
        (scan_complete (skip c s) (q ∷ qs) t (⊎_elim (λ p. let w = p.0 in ground arith) (λ t. t) h))
]

scan_sound : (s : Scan) (qs t : Text) → (scan s qs t).1 ≡ [] → IsSubsequence qs t
unfolding scan
scan_sound s [] t h = tt
scan_sound s (q ∷ qs) [] h = ground arith
scan_sound s (q ∷ qs) (c ∷ t) h = elim (Bool-cases (c == q)) [
  | inl e ↦ inl (ground arith, scan_sound (hit c s) qs t (rw e at h))
  | inr e ↦ inr (scan_sound (skip c s) (q ∷ qs) t (rw e at h))
]

finished_iff : (n : ℕ) (r : ℤ × Text) → ((z : ℤ) × (finished n r ≡ some z)) ↔ (r.1 ≡ [])
unfolding finished
finished_iff n (z, []) = (λ h. refl, λ h. (_, refl))
finished_iff n (z, q ∷ qs) = (λ (w, h). ground arith, λ h. ground arith)

scan_iff :
    (n : ℕ) (s : Scan) (qs t : Text)
    → ((z : ℤ) × (finished n (scan s qs t) ≡ some z)) ↔ IsSubsequence qs t
scan_iff n s qs t = (
  λ h. scan_sound s qs t ((finished_iff n (scan s qs t)).0 h),
  λ h. (finished_iff n (scan s qs t)).1 (scan_complete s qs t h),
)

score_lower_iff : (q t : Text) → ((z : ℤ) × (score_lower q t ≡ some z)) ↔ IsSubsequence q t
unfolding score_lower
score_lower_iff [] t = (λ h. tt, λ h. (_, refl))
score_lower_iff (q ∷ qs) [] = (λ (w, h). ground arith, λ h. absurd h)
score_lower_iff (q ∷ qs) (c ∷ t) =
    scan_iff (length (c ∷ t)) (start_scan (q ∷ qs) (c ∷ t)) (q ∷ qs) (c ∷ t)

-- A target has a score if and only if the query is a subsequence of it, case ignored.
pub score_iff :
    (query target : Text)
    → ((z : ℤ) × (score query target ≡ some z)) ↔ IsSubsequence (to_lower query) (to_lower target)
unfolding score
score_iff query target = score_lower_iff (to_lower query) (to_lower target)

-- A hit stands for a candidate `n` places on, with its score.
abbrev IsHit : ℕ → Text → List Text → Hit → Type 0
IsHit i query cs h =
    (n : ℕ) × (c : Text) × (h.index ≡ i + n)
    × (get_elem? cs n ≡ some c)
    × (score query c ≡ some h.score)

next_hit :
    (i : ℕ) (query c : Text) (cs : List Text) (h : Hit)
    → IsHit (suc i) query cs h
    → IsHit i query (c ∷ cs) h
next_hit i query c cs h (n, d, p, q, r) = (suc n, d, omega arith, q, r)

hits_from-IsHit :
    (i : ℕ) (query : Text) (cs : List Text) (h : Hit)
    → Memᴰ h (hits_from i query cs)
    → IsHit i query cs h
unfolding hits_from add_hit
hits_from-IsHit i query [] h m = absurd (Memᴰ.not-nil m)
hits_from-IsHit i query (c ∷ cs) h m = elim (Option-cases (score query c)) [
  | inl e ↦ next_hit i query c cs h (hits_from-IsHit (suc i) query cs h (rw e at m))
  | inr (z, e) ↦
      ⊎_elim
        (λ p. (
          0,
          c,
          ap (λ (x : Hit). x.index) p ∙ omega arith,
          refl,
          e ∙ ap (λ (x : Hit). some x.score) (sym p),
        ))
        (λ t. next_hit i query c cs h (hits_from-IsHit (suc i) query cs h t))
        (Memᴰ.cases_cons (rw e at m))
]

score_of : Text → Option Text → Option ℤ
score_of query none = none
score_of query (some c) = score query c

Memᴰ-add_hit :
    (i : ℕ) (o : Option ℤ) (h : Hit) (hits : List Hit) → Memᴰ h hits → Memᴰ h (add_hit i o hits)
unfolding add_hit
Memᴰ-add_hit i none h hits m = m
Memᴰ-add_hit i (some z) h hits m = Memᴰ.tail m

at_index :
    (i j : ℕ) (z : ℤ) (hits : List Hit)
    → i ≡ j
    → Memᴰ (record { index = i; score = z }) hits
    → Memᴰ (record { index = j; score = z }) hits
at_index i j z hits q m = subst (λ k. Memᴰ (record { index = k; score = z }) hits) q m

Memᴰ-hits_from :
    (i : ℕ) (query : Text) (cs : List Text) (n : ℕ) (c : Text) (z : ℤ)
    → get_elem? cs n ≡ some c
    → score query c ≡ some z
    → Memᴰ (record { index = i + n; score = z }) (hits_from i query cs)
unfolding hits_from add_hit score_of
Memᴰ-hits_from i query [] n c z p q = ground arith
Memᴰ-hits_from i query (d ∷ cs) zero c z p q =
    let r : score query d ≡ some z = ap (score_of query) p ∙ q in
    rw r (at_index i (i + 0) z _ (omega arith) (Memᴰ.head refl))
Memᴰ-hits_from i query (d ∷ cs) (suc n) c z p q =
    at_index (suc i + n) (i + suc n) z _ (omega arith)
      (Memᴰ-add_hit i (score query d) _ _ (Memᴰ-hits_from (suc i) query cs n c z p q))

zero_add : (n : ℕ) → 0 + n ≡ n
zero_add n = omega arith

-- Without a limit, the hits are exactly the candidates with a score, by index.
pub rank_iff :
    (query : Text) (candidates : List Text) (i : ℕ) (z : ℤ)
    → Memᴰ (record { index = i; score = z }) (rank query candidates 0)
      ↔ ((c : Text) × (get_elem? candidates i ≡ some c) × (score query c ≡ some z))
unfolding rank
rank_iff query candidates i z = (
  λ m.
      let (n, c, p, q, r) = hits_from-IsHit 0 query candidates _ (Memᴰ-sort better _ m) in
      (c, ap (get_elem? candidates) (p ∙ zero_add n) ∙ q, r),
  λ (c, p, q).
      Memᴰ-sort_of better _
        (at_index (0 + i) i z _ (zero_add i) (Memᴰ-hits_from 0 query candidates i c z p q)),
)
