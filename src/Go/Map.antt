-- ===== src/Go/Map.antt =====
-- Go maps with string keys as association lists. A map is ranged over in the order of the list,
-- which the program never depends on.
use mathlib.Core.List.Memᴰ
use aws_explorer.Prelude.{
  ◌≡◌, ◌≢◌, ◌∙◌, refl, ap, ap₂, sym, ◌⊎◌, inl, inr, ⊎_elim, Bool, true, false, Option, none, some,
  List, [], ◌∷◌, ◌++◌, Memᴰ, filter, if◌then◌else◌, arith, Bool-cases, Option-cases, Memᴰ-filter,
  Memᴰ-filter_of,
}
use aws_explorer.Go.Text.{Text, eq_text, eq_text_iff, eq_text_sound, eq_text_refl}

abbrev pub Dict : Type 0 → Type 0
Dict V = List (Text × V)

pub differs : (k j : Text) → eq_text j k ≡ false → k ≢ j
differs k j e q = ground (arith, eq_text_refl k, ap (λ w. eq_text w k) q)

module _ {V : Type 0} where
  -- `v, ok := m[k]`
  unfoldable pub get : Text → Dict V → Option V
  get k [] = none
  get k ((j, v) ∷ m) = if eq_text j k then some v else get k m

  -- `m[k] = v`
  unfoldable pub put : Text → V → Dict V → Dict V
  put k v [] = (k, v) ∷ []
  put k v ((j, w) ∷ m) = if eq_text j k then (j, v) ∷ m else (j, w) ∷ put k v m

  -- the keys that `range m` visits
  unfoldable pub keys_of : Dict V → List Text
  keys_of [] = []
  keys_of ((k, _) ∷ m) = k ∷ keys_of m

  unfoldable pub is_none : Option V → Bool
  is_none none = true
  is_none (some _) = false

  unfoldable pub is_missing : Text → Dict V → Bool
  unfolding get is_none
  is_missing k m = is_none (get k m)

  -- the keys of two maps, each once if each map has its keys once
  unfoldable pub union_keys : Dict V → Dict V → List Text
  unfolding keys_of is_missing filter
  union_keys a b = keys_of a ++ filter (λ k. is_missing k a) (keys_of b)

  pub get-put :
      (j k : Text) (v : V) (m : Dict V)
      → get j (put k v m) ≡ (if eq_text k j then some v else get j m)
  unfolding get put
  get-put j k v [] = refl
  get-put j k v ((i, w) ∷ m) =
      ground (arith, eq_text_iff k j, eq_text_iff i k, eq_text_iff i j, get-put j k v m)

  Memᴰ-keys_of : (k : Text) (m : Dict V) {v : V} → get k m ≡ some v → Memᴰ k (keys_of m)
  unfolding get keys_of
  Memᴰ-keys_of k [] h = ground arith
  Memᴰ-keys_of k ((j, w) ∷ m) h = elim (Bool-cases (eq_text j k)) [
    | inl e ↦ Memᴰ.head (sym (eq_text_sound j k e))
    | inr e ↦ Memᴰ.tail (Memᴰ-keys_of k m (rw e at h))
  ]

  is_missing_of : (k : Text) (m : Dict V) → get k m ≡ none → is_missing k m ≡ true
  unfolding is_missing is_none
  is_missing_of k m h = rw h refl

  get-cases : (k : Text) (m : Dict V) → (get k m ≡ none) ⊎ ((v : V) × (get k m ≡ some v))
  get-cases k m = Option-cases (get k m)

  -- Every key with a value in one of the maps is visited.
  pub Memᴰ-union_keys :
      (k : Text) (a b : Dict V) {v : V}
      → (get k a ≡ some v) ⊎ (get k b ≡ some v)
      → Memᴰ k (union_keys a b)
  unfolding union_keys
  Memᴰ-union_keys k a b (inl h) = Memᴰ.append_left _ (Memᴰ-keys_of k a h)
  Memᴰ-union_keys k a b (inr h) =
      ⊎_elim
        (λ n. Memᴰ.append_right _ (
          Memᴰ-filter_of (λ k. is_missing k a) (keys_of b) (Memᴰ-keys_of k b h)
            (is_missing_of k a n)))
        (λ (w, s). Memᴰ.append_left _ (Memᴰ-keys_of k a s)) (get-cases k a)

  pub get-keys_of : (k : Text) (m : Dict V) → Memᴰ k (keys_of m) → (v : V) × (get k m ≡ some v)
  unfolding get keys_of
  get-keys_of k [] t = absurd (Memᴰ.not-nil t)
  get-keys_of k ((j, w) ∷ m) t = elim (Bool-cases (eq_text j k)) [
    | inl e ↦ rw e (w, refl)
    | inr e ↦ rw e (⊎_elim (λ q. absurd (differs k j e q)) (get-keys_of k m) (Memᴰ.cases_cons t))
  ]

  -- Every key that is visited has a value in one of the maps.
  pub get-union_keys :
      (k : Text) (a b : Dict V)
      → Memᴰ k (union_keys a b)
      → (v : V) × ((get k a ≡ some v) ⊎ (get k b ≡ some v))
  unfolding union_keys
  get-union_keys k a b m =
      ⊎_elim (λ t. let (v, h) = get-keys_of k a t in (v, inl h))
        (λ t.
          let (t', _) = Memᴰ-filter (λ k. is_missing k a) (keys_of b) t in
          let (v, h) = get-keys_of k b t' in (v, inr h))
        (Memᴰ.append_cases (keys_of a) m)

  pub Memᴰ-get : (k : Text) (m : Dict V) {v : V} → get k m ≡ some v → Memᴰ (k, v) m
  unfolding get
  Memᴰ-get k [] h = ground arith
  Memᴰ-get k ((j, w) ∷ m) {v} h = elim (Bool-cases (eq_text j k)) [
    | inl e ↦
        let q : w ≡ v = let h' = rw e at h in ground arith in
        Memᴰ.head (ap₂ (λ a b. (a, b)) (sym (eq_text_sound j k e)) (sym q))
    | inr e ↦ Memᴰ.tail (Memᴰ-get k m (rw e at h))
  ]

  pub Memᴰ-put :
      (k : Text) (v : V) (m : Dict V) {p : Text × V} → Memᴰ p (put k v m) → (p ≡ (k, v)) ⊎ Memᴰ p m
  unfolding put
  Memᴰ-put k v [] t = inl (Memᴰ.eq_of_singleton t)
  Memᴰ-put k v ((j, w) ∷ m) t = elim (Bool-cases (eq_text j k)) [
    | inl e ↦
        ⊎_elim (λ q. inl (q ∙ ap (λ i. (i, v)) (eq_text_sound j k e))) (λ t'. inr (Memᴰ.tail t'))
          (Memᴰ.cases_cons (rw e at t))
    | inr e ↦
        ⊎_elim (λ q. inr (Memᴰ.head q))
          (λ t'. ⊎_elim inl (λ t''. inr (Memᴰ.tail t'')) (Memᴰ-put k v m t'))
          (Memᴰ.cases_cons (rw e at t))
  ]
