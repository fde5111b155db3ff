-- ===== src/Vpc/SnapshotDiff.antt =====
-- The comparison of two snapshots in internal/vpctui/snapshotdiff.go.
pub mod Facts
pub mod Laws
use aws_explorer.Prelude.{
  ℕ, suc, Bool, true, false, ◌&&◌, ◌||◌, not, ◌==◌, ltb, Option, none, some, List, [], ◌∷◌, ◌++◌,
  if◌then◌else◌, filter, flat_map, sort,
}
use aws_explorer.Go.Text.{Text, str, eq_text, less_text, member}
use aws_explorer.Go.Map.{Dict, get, union_keys}
use aws_explorer.Vpc.Types.{Snapshot}
use aws_explorer.Vpc.SnapshotDiff.Facts.{DiffSection, diff_sections}

pub data ChangeKind : Type 0 where
  added removed modified : ChangeKind

unfoldable pub change_rank : ChangeKind → ℕ
change_rank added = 0
change_rank removed = 1
change_rank modified = 2

unfoldable pub glyph : ChangeKind → Text
glyph added = str "+"
glyph removed = str "-"
glyph modified = str "~"

pub record SnapshotChange : Type 0 where
  pub kind : ChangeKind
  pub type : Text
  pub id : Text
  pub added_facts : List Text
  pub removed_facts : List Text

-- the facts of the first list that the second does not have, sorted
unfoldable pub facts_beyond : List Text → List Text → List Text
unfolding sort filter less_text
facts_beyond fs known = sort less_text (filter (λ f. not (member f known)) fs)

unfoldable pub fact_diff : List Text → List Text → List Text × List Text
unfolding facts_beyond
fact_diff old neu = (facts_beyond neu old, facts_beyond old neu)

unfoldable modified_change : Text → Text → List Text × List Text → List SnapshotChange
modified_change type id ([], []) = []
modified_change type id (f ∷ fs, removed_facts) =
    record {
      kind = modified;
      type = type;
      id = id;
      added_facts = f ∷ fs;
      removed_facts = removed_facts;
    }
    ∷ []
modified_change type id ([], f ∷ fs) =
    record { kind = modified; type = type; id = id; added_facts = []; removed_facts = f ∷ fs } ∷ []

-- the cases of the `switch` for one resource
unfoldable pub diff_resource :
    Text → Text → Option (List Text) → Option (List Text) → List SnapshotChange
unfolding modified_change fact_diff
diff_resource type id none (some _) =
    record { kind = added; type = type; id = id; added_facts = []; removed_facts = [] } ∷ []
diff_resource type id (some _) none =
    record { kind = removed; type = type; id = id; added_facts = []; removed_facts = [] } ∷ []
diff_resource type id none none = []
diff_resource type id (some o) (some n) = modified_change type id (fact_diff o n)

unfoldable pub diff_one_section : Text → Dict (List Text) → Dict (List Text) → List SnapshotChange
unfolding flat_map sort less_text union_keys get diff_resource
diff_one_section type old neu =
    flat_map (λ id. diff_resource type id (get id old) (get id neu))
      (sort less_text (union_keys old neu))

unfoldable pub less_change : SnapshotChange → SnapshotChange → Bool
unfolding less_text change_rank
less_change a b =
    if not (eq_text a.type b.type)
    then less_text a.type b.type
    else if not (change_rank a.kind == change_rank b.kind)
    then ltb (change_rank a.kind) (change_rank b.kind)
    else less_text a.id b.id

unfoldable pub diff_snapshots : Snapshot → Snapshot → List SnapshotChange
unfolding sort flat_map less_change diff_one_section
diff_snapshots old neu =
    sort less_change
      (flat_map (λ sec. diff_one_section sec.name (sec.facts old) (sec.facts neu)) diff_sections)

count_change : ChangeKind → ℕ × ℕ × ℕ → ℕ × ℕ × ℕ
count_change added (a, r, m) = (suc a, r, m)
count_change removed (a, r, m) = (a, suc r, m)
count_change modified (a, r, m) = (a, r, suc m)

count_changes : ℕ × ℕ × ℕ → List SnapshotChange → ℕ × ℕ × ℕ
unfolding count_change
count_changes n [] = n
count_changes n (c ∷ cs) = count_changes (count_change c.kind n) cs

unfoldable pub diff_counts : List SnapshotChange → ℕ × ℕ × ℕ
unfolding count_changes
diff_counts cs = count_changes (0, 0, 0) cs
