-- ===== src/Go/Keys.antt =====
-- The keys of a Go map are distinct, and so are those of two maps together.
use mathlib.Core.List.Memᴰ
use aws_explorer.Prelude.{
  ◌≡◌, ◌≢◌, ◌∙◌, sym, ◌⊎◌, inl, inr, ⊎_elim, true, List, [], ◌∷◌, Memᴰ, arith, Bool-cases,
  Memᴰ-filter, IsOrderedBy, append-IsOrderedBy, filter-IsOrderedBy,
}
use aws_explorer.Go.Text.{Text, eq_text}
use aws_explorer.Go.Map.{Dict, put, keys_of, is_none, is_missing, union_keys, differs, get-keys_of}

-- Every key once.
abbrev pub IsDistinct : List Text → Type 0
IsDistinct = IsOrderedBy (λ j k. j ≢ k)

module _ {V : Type 0} where
  Memᴰ-keys_of-put :
      (k j : Text) (v : V) (m : Dict V)
      → Memᴰ j (keys_of (put k v m))
      → (j ≡ k) ⊎ Memᴰ j (keys_of m)
  unfolding put keys_of
  Memᴰ-keys_of-put k j v [] t = inl (Memᴰ.eq_of_singleton t)
  Memᴰ-keys_of-put k j v ((i, w) ∷ m) t = elim (Bool-cases (eq_text i k)) [
    | inl e ↦ inr (rw e at t)
    | inr e ↦
        ⊎_elim (λ q. inr (Memᴰ.head q))
          (λ s. ⊎_elim inl (λ u. inr (Memᴰ.tail u)) (Memᴰ-keys_of-put k j v m s))
          (Memᴰ.cases_cons (rw e at t))
  ]

  pub put-IsDistinct :
      (k : Text) (v : V) (m : Dict V) → IsDistinct (keys_of m) → IsDistinct (keys_of (put k v m))
  unfolding put keys_of
  put-IsDistinct k v [] d = ((λ j t. absurd (Memᴰ.not-nil t)), tt)
  put-IsDistinct k v ((i, w) ∷ m) d = elim (Bool-cases (eq_text i k)) [
    | inl e ↦ rw e d
    | inr e ↦ rw e (
      (λ j t. ⊎_elim (λ q r. differs k i e (sym (r ∙ q))) (d.0 j) (Memᴰ-keys_of-put k j v m t)),
      put-IsDistinct k v m d.1,
    )
  ]

  pub union_keys-IsDistinct :
      (a b : Dict V) → IsDistinct (keys_of a) → IsDistinct (keys_of b) → IsDistinct (union_keys a b)
  unfolding union_keys is_missing is_none
  union_keys-IsDistinct a b d e =
      append-IsOrderedBy _ (keys_of a) _ d
        (filter-IsOrderedBy _ (λ k. is_missing k a) (keys_of b) e)
        (λ j k m n q.
          let (v, h) = get-keys_of j a m in
          let (_, g) = Memᴰ-filter (λ k. is_missing k a) (keys_of b) n in
          let g' : is_missing j a ≡ true = rw q g in let h' = rw h at g' in absurd (ground arith))
