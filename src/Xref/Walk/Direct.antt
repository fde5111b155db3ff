-- ===== src/Xref/Walk/Direct.antt =====
-- A walk lists everything that the query leads to directly.
use mathlib.Core.List.Memᴰ
use aws_explorer.Prelude.{
  ℕ, zero, suc, ◌≡◌, refl, sym, subst, inl, inr, ⊎_elim, Bool, false, List, [], ◌∷◌, ◌++◌, Memᴰ,
  Bool-cases, Memᴰ-sort_of,
}
use aws_explorer.Go.Text.{Text}
use aws_explorer.Go.Text.{member}
use aws_explorer.Xref.Types.{Reference, Link}
use aws_explorer.Xref.Index.{all_forms}
use aws_explorer.Xref.Index.Rows.{member→Memᴰ}
use aws_explorer.Xref.Walk.{
  Hop, is_start, is_visited, join_path, dedupe_key, FrontierNode, new_frontier, Walk, list_row,
  expand, visit, visit_all, visit_frontier, walk_rounds, less_link, sort_links, initial, walk_links,
}

-- A row with a key.
pub record IsListed (all_paths : Bool) (k : Text) (out : List Link) : Type 0 where
  pub row : Link
  pub listed : Memᴰ row out
  pub key : dedupe_key all_paths row.reference row.path ≡ k

module _ (hops : Text → List Hop) (set : List Text) (all_paths : Bool) where
  -- Every key seen has a row.
  AllListed : Walk → Type 0
  AllListed w = (k : Text) → Memᴰ k w.row_seen → IsListed all_paths k w.out

  -- From one walk to the next, rows stay and the keys seen have rows.
  record Grows (w w' : Walk) : Type 0 where
    stays : (k : Text) → IsListed all_paths k w.out → IsListed all_paths k w'.out
    seen : AllListed w → AllListed w'

  same-Grows : (w : Walk) → Grows w w
  same-Grows w = record { stays = λ k l. l; seen = λ a. a }

  trans-Grows : (u v w : Walk) → Grows u v → Grows v w → Grows u w
  trans-Grows u v w g h = record {
    stays = λ k l. h.stays k (g.stays k l);
    seen = λ a. h.seen (g.seen a);
  }

  more-IsListed :
      (k : Text) (xs ys : List Link) → IsListed all_paths k xs → IsListed all_paths k (xs ++ ys)
  more-IsListed k xs ys l = record {
    row = l.row;
    listed = Memᴰ.append_left _ l.listed;
    key = l.key;
  }

  added-IsListed :
      (d : ℕ) (ref : Reference) (path k : Text) (out : List Link)
      → k ≡ dedupe_key all_paths ref path
      → IsListed all_paths k (out ++ record { reference = ref; depth = d; path = path } ∷ [])
  added-IsListed d ref path k out q = record {
    row = record { reference = ref; depth = d; path = path };
    listed = Memᴰ.append_right out (Memᴰ.head refl);
    key = sym q;
  }

  list_row-Grows :
      (d : ℕ) (ref : Reference) (path : Text) (w : Walk)
      → Grows w (list_row hops set all_paths d ref path w)
  unfolding list_row AllListed
  list_row-Grows d ref path w =
      elim (Bool-cases (member (dedupe_key all_paths ref path) w.row_seen)) [
        | inl e ↦ rw e (same-Grows w)
        | inr e ↦ rw e (record {
          stays = λ k l. more-IsListed k w.out _ l;
          seen = λ a k m.
              ⊎_elim (added-IsListed d ref path k w.out) (λ t. more-IsListed k w.out _ (a k t))
                (Memᴰ.cases_cons m);
        })
      ]

  list_row-IsListed :
      (d : ℕ) (ref : Reference) (path : Text) (w : Walk)
      → AllListed w
      → IsListed all_paths
          (dedupe_key all_paths ref path)
          (list_row hops set all_paths d ref path w).out
  unfolding list_row AllListed
  list_row-IsListed d ref path w a =
      elim (Bool-cases (member (dedupe_key all_paths ref path) w.row_seen)) [
        | inl e ↦ rw e (a (dedupe_key all_paths ref path) (member→Memᴰ _ w.row_seen e))
        | inr e ↦ rw e (added-IsListed d ref path _ w.out refl)
      ]

  expand-Grows : (id path : Text) (w : Walk) → Grows w (expand hops set all_paths id path w)
  unfolding expand AllListed
  expand-Grows id path w = elim (Bool-cases (is_visited w.visited id)) [
    | inl e ↦ rw e (same-Grows w)
    | inr e ↦ rw e (record { stays = λ k l. l; seen = λ a. a })
  ]

  visit-Grows :
      (d : ℕ) (n : FrontierNode) (w : Walk) (h : Hop) → Grows w (visit hops set all_paths d n w h)
  unfolding visit
  visit-Grows d n w h = elim (Bool-cases (is_start set h.id)) [
    | inl e ↦ rw e (same-Grows w)
    | inr e ↦ rw e (
        trans-Grows _ _ _ (list_row-Grows d h.reference (join_path n.path h.via) w)
          (expand-Grows h.id (join_path n.path h.via) _))
  ]

  visit-IsListed :
      (d : ℕ) (n : FrontierNode) (w : Walk) (h : Hop)
      → is_start set h.id ≡ false
      → AllListed w
      → IsListed all_paths
          (dedupe_key all_paths h.reference (join_path n.path h.via))
          (visit hops set all_paths d n w h).out
  unfolding visit
  visit-IsListed d n w h e a = rw e (
      (expand-Grows h.id (join_path n.path h.via) _).stays _
        (list_row-IsListed d h.reference (join_path n.path h.via) w a))

  visit_all-Grows :
      (d : ℕ) (n : FrontierNode) (w : Walk) (hs : List Hop)
      → Grows w (visit_all hops set all_paths d n w hs)
  unfolding visit_all
  visit_all-Grows d n w [] = same-Grows w
  visit_all-Grows d n w (h ∷ hs) =
      trans-Grows _ _ _ (visit-Grows d n w h)
        (visit_all-Grows d n (visit hops set all_paths d n w h) hs)

  visit_all-IsListed :
      (d : ℕ) (n : FrontierNode) (w : Walk) (hs : List Hop) (h : Hop)
      → Memᴰ h hs
      → is_start set h.id ≡ false
      → AllListed w
      → IsListed all_paths
          (dedupe_key all_paths h.reference (join_path n.path h.via))
          (visit_all hops set all_paths d n w hs).out
  unfolding visit_all
  visit_all-IsListed d n w [] h m e a = absurd (Memᴰ.not-nil m)
  visit_all-IsListed d n w (k ∷ hs) h m e a =
      let w' = visit hops set all_paths d n w k in
      ⊎_elim
        (λ q. (visit_all-Grows d n w' hs).stays _ (
          subst
            (λ x.
              IsListed all_paths (dedupe_key all_paths x.reference (join_path n.path x.via)) w'.out)
            (sym q)
            (visit-IsListed d n w k (subst (λ (x : Hop). is_start set x.id ≡ false) q e) a)))
        (λ t. visit_all-IsListed d n w' hs h t e ((visit-Grows d n w k).seen a)) (Memᴰ.cases_cons m)

  visit_frontier-Grows :
      (d : ℕ) (w : Walk) (ns : List FrontierNode)
      → Grows w (visit_frontier hops set all_paths d w ns)
  unfolding visit_frontier
  visit_frontier-Grows d w [] = same-Grows w
  visit_frontier-Grows d w (n ∷ ns) =
      trans-Grows _ _ _ (visit_all-Grows d n w (hops n.id))
        (visit_frontier-Grows d (visit_all hops set all_paths d n w (hops n.id)) ns)

  visit_frontier-IsListed :
      (d : ℕ) (w : Walk) (ns : List FrontierNode) (n : FrontierNode) (h : Hop)
      → Memᴰ n ns
      → Memᴰ h (hops n.id)
      → is_start set h.id ≡ false
      → AllListed w
      → IsListed all_paths
          (dedupe_key all_paths h.reference (join_path n.path h.via))
          (visit_frontier hops set all_paths d w ns).out
  unfolding visit_frontier
  visit_frontier-IsListed d w [] n h m i e a = absurd (Memᴰ.not-nil m)
  visit_frontier-IsListed d w (k ∷ ns) n h m i e a =
      let w' = visit_all hops set all_paths d k w (hops k.id) in
      ⊎_elim
        (λ q. (visit_frontier-Grows d w' ns).stays _ (
          subst
            (λ (x : FrontierNode).
              IsListed all_paths (dedupe_key all_paths h.reference (join_path x.path h.via)) w'.out)
            (sym q)
            (visit_all-IsListed d k w (hops k.id) h
              (subst (λ (x : FrontierNode). Memᴰ h (hops x.id)) q i) e a)))
        (λ t.
          visit_frontier-IsListed d w' ns n h t i e ((visit_all-Grows d k w (hops k.id)).seen a))
        (Memᴰ.cases_cons m)

  walk_rounds-stays :
      (rounds d : ℕ) (w : Walk) (ns : List FrontierNode) (k : Text)
      → IsListed all_paths k w.out
      → IsListed all_paths k (walk_rounds hops set all_paths rounds d w ns).out
  unfolding walk_rounds
  walk_rounds-stays zero d w ns k l = l
  walk_rounds-stays (suc rounds) d w [] k l = l
  walk_rounds-stays (suc rounds) d w (n ∷ ns) k l =
      let w' = visit_frontier hops set all_paths d (record w { next = [] }) (n ∷ ns) in
      walk_rounds-stays rounds (suc d) w' w'.next k
        ((visit_frontier-Grows d (record w { next = [] }) (n ∷ ns)).stays k l)

  first_round-IsListed :
      (rounds d : ℕ) (w : Walk) (ns : List FrontierNode) (n : FrontierNode) (h : Hop)
      → Memᴰ n ns
      → Memᴰ h (hops n.id)
      → is_start set h.id ≡ false
      → AllListed w
      → IsListed all_paths
          (dedupe_key all_paths h.reference (join_path n.path h.via))
          (walk_rounds hops set all_paths (suc rounds) d w ns).out
  unfolding walk_rounds AllListed
  first_round-IsListed rounds d w [] n h m i e a = absurd (Memᴰ.not-nil m)
  first_round-IsListed rounds d w (k ∷ ns) n h m i e a =
      let w' = visit_frontier hops set all_paths d (record w { next = [] }) (k ∷ ns) in
      walk_rounds-stays rounds (suc d) w' w'.next _
        (visit_frontier-IsListed d (record w { next = [] }) (k ∷ ns) n h m i e a)

  sort-IsListed :
      (k : Text) (out : List Link)
      → IsListed all_paths k out
      → IsListed all_paths k (sort_links out)
  unfolding sort_links
  sort-IsListed k out l = record {
    row = l.row;
    listed = Memᴰ-sort_of less_link out l.listed;
    key = l.key;
  }

Memᴰ-new_frontier :
    (s : Text) (ss : List Text) → Memᴰ s ss → Memᴰ (record { id = s; path = [] }) (new_frontier ss)
unfolding new_frontier
Memᴰ-new_frontier s ss m = Memᴰ.map (λ t. record { id = t; path = [] }) m

-- Every hop from a start that does not lead back to the query has a row with its key.
pub walk_links-IsListed :
    (hops : Text → List Hop) (starts : List Text) (all_paths : Bool) (rounds : ℕ) (s : Text)
    (h : Hop)
    → Memᴰ s starts
    → Memᴰ h (hops s)
    → is_start (all_forms starts) h.id ≡ false
    → IsListed all_paths
        (dedupe_key all_paths h.reference (join_path [] h.via))
        (walk_links hops starts (suc rounds) all_paths)
unfolding walk_links initial AllListed
walk_links-IsListed hops starts all_paths rounds s h m i e =
    sort-IsListed hops (all_forms starts) all_paths _ _ (
      first_round-IsListed hops (all_forms starts) all_paths rounds 1 (initial starts)
        (new_frontier starts) (record { id = s; path = [] }) h (Memᴰ-new_frontier s starts m) i e
        (λ k t. absurd (Memᴰ.not-nil t)))
