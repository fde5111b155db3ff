-- ===== src/Xref/Walk/Chain.antt =====
-- Every row of a walk is justified by a chain of hops from the query.
use mathlib.Core.List.Memᴰ
use aws_explorer.Prelude.{
  ℕ, zero, suc, ◌+◌, ◌≤◌, ◌≡◌, refl, sym, subst, ◌⊎◌, inl, inr, ⊎_elim, Bool, false, List, [], ◌∷◌,
  ◌++◌, Memᴰ, arith, Bool-cases, Memᴰ-sort,
}
use aws_explorer.Go.Text.{Text}
use aws_explorer.Go.Text.{member}
use aws_explorer.Xref.Types.{Link}
use aws_explorer.Xref.Index.{all_forms}
use aws_explorer.Xref.Walk.{
  Hop, is_start, is_visited, join_path, dedupe_key, FrontierNode, new_frontier, Walk, list_row,
  expand, visit, visit_all, visit_frontier, walk_rounds, less_link, sort_links, initial, walk_links,
}

-- An identifier that `n` hops lead to from a start, and the path of relationship labels.
pub data Chain (hops : Text → List Hop) (starts : List Text) : ℕ → Text → Text → Type 0 where
  start : {s : Text} → Memᴰ s starts → Chain hops starts zero s []
  step :
      {n : ℕ} {id path : Text} (h : Hop)
      → Chain hops starts n id path
      → Memᴰ h (hops id)
      → Chain hops starts (suc n) h.id (join_path path h.via)

-- A row stands for the last hop of a chain of as many hops as its depth; its path is the chain's
-- path, and the hop does not lead back to the query.
pub record IsJustified (hops : Text → List Hop) (starts : List Text) (l : Link) : Type 0 where
  pub before : ℕ
  pub id : Text
  pub path : Text
  pub hop : Hop
  pub chain : Chain hops starts before id path
  pub listed : Memᴰ hop (hops id)
  pub depth : l.depth ≡ suc before
  pub reference : l.reference ≡ hop.reference
  pub label : l.path ≡ join_path path hop.via
  pub outside : is_start (all_forms starts) hop.id ≡ false

module _ (hops : Text → List Hop) (starts : List Text) (all_paths : Bool) where
  abbrev set : List Text
  set = all_forms starts

  -- The rows so far have at most `d` hops, and the next frontier stands at `d` hops.
  record Inv (d : ℕ) (w : Walk) : Type 0 where
    rows : (l : Link) → Memᴰ l w.out → IsJustified hops starts l × (l.depth ≤ d)
    nodes : (n : FrontierNode) → Memᴰ n w.next → Chain hops starts d n.id n.path

  Memᴰ-snoc :
      {A : Type 0} (xs : List A) (x : A) {y : A} → Memᴰ y (xs ++ x ∷ []) → Memᴰ y xs ⊎ (y ≡ x)
  Memᴰ-snoc xs x m = ⊎_elim inl (λ t. inr (Memᴰ.eq_of_singleton t)) (Memᴰ.append_cases xs m)

  module _ (d : ℕ) (node : FrontierNode) (c : Chain hops starts d node.id node.path) where
    listed_row :
        (h : Hop) (l : Link)
        → Memᴰ h (hops node.id)
        → is_start set h.id ≡ false
        → l ≡ record { reference = h.reference; depth = suc d; path = join_path node.path h.via }
        → IsJustified hops starts l × (l.depth ≤ suc d)
    listed_row h l m o q =
        subst (λ l. IsJustified hops starts l × (l.depth ≤ suc d)) (sym q)
          (
            record {
              before = d;
              id = node.id;
              path = node.path;
              hop = h;
              chain = c;
              listed = m;
              depth = refl;
              reference = refl;
              label = refl;
              outside = o;
            },
            omega arith,
          )

    list_row-Inv :
        (h : Hop) (w : Walk)
        → Memᴰ h (hops node.id)
        → is_start set h.id ≡ false
        → Inv (suc d) w
        → Inv
            (suc d)
            (list_row hops set all_paths (suc d) h.reference (join_path node.path h.via) w)
    unfolding list_row
    list_row-Inv h w m o v =
        elim (Bool-cases
          (member (dedupe_key all_paths h.reference (join_path node.path h.via)) w.row_seen)) [
            | inl e ↦ rw e v
            | inr e ↦ rw e (record {
              rows = λ l t. ⊎_elim (v.rows l) (listed_row h l m o) (Memᴰ-snoc w.out _ t);
              nodes = v.nodes;
            })
          ]

    next_node :
        (h : Hop) (n : FrontierNode)
        → Memᴰ h (hops node.id)
        → n ≡ record { id = h.id; path = join_path node.path h.via }
        → Chain hops starts (suc d) n.id n.path
    next_node h n m q =
        subst (λ n. Chain hops starts (suc d) n.id n.path) (sym q) (Chain.step h c m)

    expand-Inv :
        (h : Hop) (w : Walk)
        → Memᴰ h (hops node.id)
        → Inv (suc d) w
        → Inv (suc d) (expand hops set all_paths h.id (join_path node.path h.via) w)
    unfolding expand
    expand-Inv h w m v = elim (Bool-cases (is_visited w.visited h.id)) [
      | inl e ↦ rw e v
      | inr e ↦ rw e (record {
        rows = v.rows;
        nodes = λ n t. ⊎_elim (v.nodes n) (next_node h n m) (Memᴰ-snoc w.next _ t);
      })
    ]

    visit-Inv :
        (h : Hop) (w : Walk)
        → Memᴰ h (hops node.id)
        → Inv (suc d) w
        → Inv (suc d) (visit hops set all_paths (suc d) node w h)
    unfolding visit
    visit-Inv h w m v = elim (Bool-cases (is_start set h.id)) [
      | inl e ↦ rw e v
      | inr e ↦ rw e (expand-Inv h _ m (list_row-Inv h w m e v))
    ]

    visit_all-Inv :
        (hs : List Hop) (w : Walk)
        → ((h : Hop) → Memᴰ h hs → Memᴰ h (hops node.id))
        → Inv (suc d) w
        → Inv (suc d) (visit_all hops set all_paths (suc d) node w hs)
    unfolding visit_all
    visit_all-Inv [] w inside v = v
    visit_all-Inv (h ∷ hs) w inside v =
        visit_all-Inv hs (visit hops set all_paths (suc d) node w h) (λ k m. inside k (Memᴰ.tail m))
          (visit-Inv h w (inside h (Memᴰ.head refl)) v)

  abbrev AreChains : ℕ → List FrontierNode → Type 0
  AreChains d ns = (n : FrontierNode) → Memᴰ n ns → Chain hops starts d n.id n.path

  visit_frontier-Inv :
      (d : ℕ) (ns : List FrontierNode) (w : Walk)
      → AreChains d ns
      → Inv (suc d) w
      → Inv (suc d) (visit_frontier hops set all_paths (suc d) w ns)
  unfolding visit_frontier
  visit_frontier-Inv d [] w c v = v
  visit_frontier-Inv d (n ∷ ns) w c v =
      visit_frontier-Inv d ns (visit_all hops set all_paths (suc d) n w (hops n.id))
        (λ k m. c k (Memᴰ.tail m))
        (visit_all-Inv d n (c n (Memᴰ.head refl)) (hops n.id) w (λ h m. m) v)

  abbrev AreJustified : ℕ → List Link → Type 0
  AreJustified d ls = (l : Link) → Memᴰ l ls → IsJustified hops starts l × (l.depth ≤ d)

  deeper : (d e : ℕ) (ls : List Link) → d ≤ e → AreJustified d ls → AreJustified e ls
  deeper d e ls le v l m = let (j, b) = v l m in (j, omega arith)

  next_round : (d : ℕ) (w : Walk) → AreJustified d w.out → Inv (suc d) (record w { next = [] })
  next_round d w v = record {
    rows = deeper d (suc d) w.out (omega arith) v;
    nodes = λ n m. absurd (Memᴰ.not-nil m);
  }

  walk_rounds-Inv :
      (rounds d : ℕ) (w : Walk) (ns : List FrontierNode)
      → AreChains d ns
      → AreJustified d w.out
      → AreJustified (d + rounds) (walk_rounds hops set all_paths rounds (suc d) w ns).out
  unfolding walk_rounds
  walk_rounds-Inv zero d w ns c v = deeper d (d + 0) w.out (omega arith) v
  walk_rounds-Inv (suc rounds) d w [] c v = deeper d (d + suc rounds) w.out (omega arith) v
  walk_rounds-Inv (suc rounds) d w (n ∷ ns) c v =
      let w' = visit_frontier hops set all_paths (suc d) (record w { next = [] }) (n ∷ ns) in
      let i = visit_frontier-Inv d (n ∷ ns) (record w { next = [] }) c (next_round d w v) in
      deeper (suc d + rounds) (d + suc rounds) _ (omega arith)
        (walk_rounds-Inv rounds (suc d) w' w'.next i.nodes i.rows)

  start-Chain_of :
      (s : Text) (n : FrontierNode)
      → Memᴰ s starts
      → n ≡ record { id = s; path = [] }
      → Chain hops starts zero n.id n.path
  start-Chain_of s n m q = subst (λ n. Chain hops starts zero n.id n.path) (sym q) (Chain.start m)

  start-Chain_all :
      (ss : List Text) (n : FrontierNode)
      → ((s : Text) → Memᴰ s ss → Memᴰ s starts)
      → Memᴰ n (new_frontier ss)
      → Chain hops starts zero n.id n.path
  unfolding new_frontier
  start-Chain_all [] n inside m = absurd (Memᴰ.not-nil m)
  start-Chain_all (s ∷ ss) n inside (Memᴰ.head q) = start-Chain_of s n (inside s (Memᴰ.head refl)) q
  start-Chain_all (s ∷ ss) n inside (Memᴰ.tail t) =
      start-Chain_all ss n (λ k m. inside k (Memᴰ.tail m)) t

  start-Chain :
      (n : FrontierNode) → Memᴰ n (new_frontier starts) → Chain hops starts zero n.id n.path
  start-Chain n m = start-Chain_all starts n (λ s t. t) m

  -- Every row is the last hop of a chain of hops from a start, with the chain's relationships as its
  -- path and its length, at most the depth asked for, as its depth; the hop does not lead back to the
  -- query.
  pub walk_links-IsJustified :
      (max_depth : ℕ) (l : Link)
      → Memᴰ l (walk_links hops starts max_depth all_paths)
      → IsJustified hops starts l × (l.depth ≤ max_depth)
  unfolding walk_links sort_links initial
  walk_links-IsJustified max_depth l m =
      let i =
        walk_rounds-Inv max_depth 0 (initial starts) (new_frontier starts) start-Chain
          (λ k t. absurd (Memᴰ.not-nil t)) l (Memᴰ-sort less_link _ m) in
      let (j, b) = i in (j, omega arith)
