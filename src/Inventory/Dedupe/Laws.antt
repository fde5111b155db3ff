-- ===== src/Inventory/Dedupe/Laws.antt =====
-- What deduplication keeps.
use mathlib.Core.List.Memᴰ
use aws_explorer.Prelude.{
  ◌≤◌, ◌≡◌, refl, sym, ap, ◌∙◌, subst, ◌⊎◌, inl, inr, ⊎_elim, List, [], ◌∷◌, ◌++◌, Memᴰ, arith, ltb,
  Bool-cases,
}
use aws_explorer.Go.Text.{eq_text, eq_text_sound}
use aws_explorer.Inventory.Types.{Resource}
use aws_explorer.Inventory.Dedupe.{richness, dedupe_resources}
use aws_explorer.Inventory.Dedupe.Merge.{richer, place, merge, merge_all, dedupe_resources-merge}

-- A resource of the same ARN, at least as rich.
pub record IsCovered (r : Resource) (out : List Resource) : Type 0 where
  pub by : Resource
  pub listed : Memᴰ by out
  pub same : by.arn ≡ r.arn
  pub rich : richness r ≤ richness by

IsCovered-cons :
    {r : Resource} {out : List Resource} (x : Resource) → IsCovered r out → IsCovered r (x ∷ out)
IsCovered-cons x c = record { by = c.by; listed = Memᴰ.tail c.listed; same = c.same; rich = c.rich }

richer-IsCovered :
    (q x r : Resource) (xs : List Resource)
    → x.arn ≡ r.arn
    → q.arn ≡ r.arn
    → (richness q ≤ richness x) ⊎ (q ≡ r)
    → IsCovered q (richer x r ∷ xs)
unfolding richer
richer-IsCovered q x r xs a b c = elim (Bool-cases (ltb (richness x) (richness r))) [
  | inl e ↦ rw e (record {
    by = r;
    listed = Memᴰ.head refl;
    same = sym b;
    rich =
        ⊎_elim (λ l. ground arith) (λ p. subst (λ w. richness w ≤ richness r) (sym p) (omega arith))
          c;
  })
  | inr e ↦ rw e (record {
    by = x;
    listed = Memᴰ.head refl;
    same = a ∙ sym b;
    rich = ⊎_elim (λ l. l) (λ p. subst (λ w. richness w ≤ richness x) (sym p) (ground arith)) c;
  })
]

place-IsCovered_new : (r : Resource) (out : List Resource) → IsCovered r (place r out)
unfolding place
place-IsCovered_new r [] = record {
  by = r;
  listed = Memᴰ.head refl;
  same = refl;
  rich = omega arith;
}
place-IsCovered_new r (x ∷ xs) = elim (Bool-cases (eq_text x.arn r.arn)) [
  | inl e ↦ rw e (richer-IsCovered r x r xs (eq_text_sound x.arn r.arn e) refl (inr refl))
  | inr e ↦ rw e (IsCovered-cons x (place-IsCovered_new r xs))
]

tail-IsCovered :
    {q x : Resource} {xs : List Resource} (c : IsCovered q (x ∷ xs)) → Memᴰ c.by xs → IsCovered q xs
tail-IsCovered c t = record { by = c.by; listed = t; same = c.same; rich = c.rich }

place-IsCovered :
    (q r : Resource) (out : List Resource) → IsCovered q out → IsCovered q (place r out)
unfolding place
place-IsCovered q r [] c = absurd (Memᴰ.not-nil c.listed)
place-IsCovered q r (x ∷ xs) c = elim (Bool-cases (eq_text x.arn r.arn)) [
  | inl e ↦ rw e (
      ⊎_elim
        (λ p.
          richer-IsCovered q x r xs (eq_text_sound x.arn r.arn e)
            (sym c.same ∙ ap (λ (w : Resource). w.arn) p ∙ eq_text_sound x.arn r.arn e)
            (inl (subst (λ w. richness q ≤ richness w) p c.rich)))
        (λ t. IsCovered-cons (richer x r) (tail-IsCovered c t)) (Memᴰ.cases_cons c.listed))
  | inr e ↦ rw e (
      ⊎_elim
        (λ p. record {
          by = x;
          listed = Memᴰ.head refl;
          same = ap (λ (w : Resource). w.arn) (sym p) ∙ c.same;
          rich = subst (λ w. richness q ≤ richness w) p c.rich;
        })
        (λ t. IsCovered-cons x (place-IsCovered q r xs (tail-IsCovered c t)))
        (Memᴰ.cases_cons c.listed))
]

append-IsCovered :
    (q r : Resource) (out : List Resource) → IsCovered q out → IsCovered q (out ++ r ∷ [])
append-IsCovered q r out c = record {
  by = c.by;
  listed = Memᴰ.append_left _ c.listed;
  same = c.same;
  rich = c.rich;
}

merge-IsCovered :
    (q r : Resource) (out : List Resource) → IsCovered q out → IsCovered q (merge r out)
unfolding merge
merge-IsCovered q r out c = elim (Bool-cases (eq_text r.arn [])) [
  | inl e ↦ rw e (append-IsCovered q r out c)
  | inr e ↦ rw e (place-IsCovered q r out c)
]

merge-IsCovered_new : (r : Resource) (out : List Resource) → IsCovered r (merge r out)
unfolding merge
merge-IsCovered_new r out = elim (Bool-cases (eq_text r.arn [])) [
  | inl e ↦ rw e (record {
    by = r;
    listed = Memᴰ.append_right out (Memᴰ.head refl);
    same = refl;
    rich = omega arith;
  })
  | inr e ↦ rw e (place-IsCovered_new r out)
]

merge_all-IsCovered :
    (q : Resource) (out rs : List Resource)
    → IsCovered q out ⊎ Memᴰ q rs
    → IsCovered q (merge_all out rs)
unfolding merge_all
merge_all-IsCovered q out [] c = ⊎_elim (λ d. d) (λ m. absurd (Memᴰ.not-nil m)) c
merge_all-IsCovered q out (r ∷ rs) c = merge_all-IsCovered q (merge r out) rs (
    ⊎_elim (λ d. inl (merge-IsCovered q r out d))
      (λ m.
        ⊎_elim
          (λ p. inl (subst (λ w. IsCovered w (merge r out)) (sym p) (merge-IsCovered_new r out)))
          inr (Memᴰ.cases_cons m))
      c)

-- Every resource has one of its ARN, at least as rich, among the deduplicated ones.
pub dedupe_resources-IsCovered :
    (rs : List Resource) (r : Resource) → Memᴰ r rs → IsCovered r (dedupe_resources rs)
dedupe_resources-IsCovered rs r m =
    subst (IsCovered r) (sym (dedupe_resources-merge rs)) (merge_all-IsCovered r [] rs (inr m))
