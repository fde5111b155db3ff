-- ===== src/Inventory/Diff.antt =====
-- The diff of two inventory snapshots of internal/acctsnap/acctsnap.go.
pub mod Laws
pub mod Changes
pub mod Same
pub mod Once
pub mod Order
use aws_explorer.Prelude.{
  ℕ, suc, Bool, true, false, not, Option, none, some, List, [], ◌∷◌, ◌++◌, if◌then◌else◌, sort,
}
use aws_explorer.Go.Text.{Text, str, eq_text, less_text, cat}
use aws_explorer.Go.Map.{Dict, get, put, union_keys}
use aws_explorer.Inventory.Types.{Entry, Snapshot, ChangeKind, added, removed, modified, Change}

-- `oldM`, `neuM`: the last entry of a key stays
unfoldable pub index_entries : Dict Entry → List Entry → Dict Entry
unfolding put
index_entries m [] = m
index_entries m (e ∷ es) = index_entries (put e.key e m) es

unfoldable pub or_none : Text → Text
or_none s = if eq_text s [] then str "(none)" else s

unfoldable pub change : ChangeKind → Entry → List Text → Change
change kind e deltas = record {
  kind = kind;
  type = e.type;
  name = e.name;
  id = e.id;
  region = e.region;
  key = e.key;
  deltas = deltas;
}

unfoldable pub delta_text : Text → Text → Text → Text
unfolding or_none cat
delta_text field old neu = cat (field ∷ str ": " ∷ or_none old ∷ str " → " ∷ or_none neu ∷ [])

unfoldable pub field_delta : Text → Text → Text → List Text
unfolding delta_text
field_delta field old neu = if not (eq_text old neu) then delta_text field old neu ∷ [] else []

-- the zero value of a missing key
unfoldable pub value_of : Option Text → Text
value_of none = []
value_of (some v) = v

-- `inOld && inNew && ov == nv`
unfoldable pub is_same_tag : Option Text → Option Text → Bool
is_same_tag none n = false
is_same_tag (some o) none = false
is_same_tag (some o) (some n) = eq_text o n

-- the loop over the sorted keys
unfoldable pub tag_deltas : Dict Text → Dict Text → List Text → List Text
unfolding get is_same_tag value_of delta_text
tag_deltas o n [] = []
tag_deltas o n (k ∷ ks) =
    let rest = tag_deltas o n ks in
    if is_same_tag (get k o) (get k n)
    then rest
    else delta_text (cat (str "tag " ∷ k ∷ [])) (value_of (get k o)) (value_of (get k n)) ∷ rest

unfoldable pub entry_deltas : Entry → Entry → List Text
unfolding field_delta tag_deltas union_keys sort less_text
entry_deltas o n =
    field_delta (str "name") o.name n.name
    ++ field_delta (str "state") o.state n.state
    ++ tag_deltas o.tags n.tags (sort less_text (union_keys o.tags n.tags))

unfoldable pub modified_change : Entry → List Text → List Change
unfolding change
modified_change n [] = []
modified_change n (d ∷ ds) = change modified n (d ∷ ds) ∷ []

-- The switch. A key stands in one of the maps, so the last case, where the source compares two zero
-- entries, does not arise.
unfoldable pub changes_at : Option Entry → Option Entry → List Change
unfolding change modified_change entry_deltas
changes_at none (some n) = change added n [] ∷ []
changes_at (some o) none = change removed o [] ∷ []
changes_at (some o) (some n) = modified_change n (entry_deltas o n)
changes_at none none = []

-- the loop over the sorted keys
unfoldable pub changes : Dict Entry → Dict Entry → List Text → List Change
unfolding changes_at get
changes old neu [] = []
changes old neu (k ∷ ks) = changes_at (get k old) (get k neu) ++ changes old neu ks

unfoldable pub kind_text : ChangeKind → Text
kind_text added = str "added"
kind_text removed = str "removed"
kind_text modified = str "modified"

unfoldable pub less_change : Change → Change → Bool
unfolding kind_text less_text
less_change a b =
    if not (eq_text a.type b.type)
    then less_text a.type b.type
    else if not (eq_text (kind_text a.kind) (kind_text b.kind))
    then less_text (kind_text a.kind) (kind_text b.kind)
    else less_text a.key b.key

unfoldable pub diff : Snapshot → Snapshot → List Change
unfolding index_entries union_keys changes sort less_change
diff old neu =
    let old_m = index_entries [] old.entries in
    let neu_m = index_entries [] neu.entries in
    sort less_change (changes old_m neu_m (sort less_text (union_keys old_m neu_m)))

unfoldable pub count_kind : ChangeKind → ℕ × ℕ × ℕ → ℕ × ℕ × ℕ
count_kind added (a, r, m) = (suc a, r, m)
count_kind removed (a, r, m) = (a, suc r, m)
count_kind modified (a, r, m) = (a, r, suc m)

-- the loop of `Counts`
unfoldable pub count_loop : ℕ × ℕ × ℕ → List Change → ℕ × ℕ × ℕ
unfolding count_kind
count_loop n [] = n
count_loop n (c ∷ cs) = count_loop (count_kind c.kind n) cs

unfoldable pub counts : List Change → ℕ × ℕ × ℕ
unfolding count_loop
counts cs = count_loop (0, 0, 0) cs
