-- ===== src/Inventory/Examples.antt =====
-- Runs of the snapshot diff, and the theorems at concrete inputs.
use aws_explorer.Prelude.{none, List, [], ◌∷◌, Memᴰ, ◌≡◌, refl, ◌↔◌}
use aws_explorer.Go.Lex.{Lex}
use aws_explorer.Go.Text.{Text, str, eq_text}
use aws_explorer.Inventory.Types.{Resource, Entry, Snapshot, Change, modified, added}
use aws_explorer.Inventory.Dedupe.{dedupe_resources}
use aws_explorer.Inventory.Dedupe.Merge.{merge_all, dedupe_resources-merge}
use aws_explorer.Inventory.Dedupe.Laws.{IsCovered, dedupe_resources-IsCovered}
use aws_explorer.Inventory.Dedupe.Unique.{IsUnique, dedupe_resources-IsUnique}
use aws_explorer.Inventory.Diff.{diff, entry_deltas, change}
use aws_explorer.Inventory.Diff.Laws.{latest}
use aws_explorer.Inventory.Diff.Changes.{IsChange, diff_iff}
use aws_explorer.Inventory.Diff.Same.{IsUnchanged, diff-nil_iff}

abbrev web : Entry
web = record {
  key = str "arn:web";
  id = str "i-1";
  name = str "web";
  type = str "ec2/instance";
  region = str "eu-west-1";
  state = str "running";
  tags = (str "env", str "prod") ∷ [];
}

abbrev stopped_web : Entry
stopped_web = record web { state = str "stopped"; tags = [] }

abbrev table : Entry
table = record web { key = str "arn:table"; type = str "dynamodb/table"; id = str "t-1" }

abbrev before : Snapshot
before = record { taken_at = 100; account_id = str "1"; regions = []; entries = stopped_web ∷ [] }

abbrev after : Snapshot
after = record before { taken_at = 200; entries = table ∷ web ∷ [] }

abbrev table_added : Change
table_added = change added table []

kinds_test :
    diff before after ≡ table_added ∷ change modified web (entry_deltas stopped_web web) ∷ []
unfolding diff eq_text str
kinds_test = refl

deltas_test :
    entry_deltas stopped_web web
    ≡ str "state: stopped → running" ∷ str "tag env: (none) → prod" ∷ []
unfolding entry_deltas eq_text str
deltas_test = refl

diff_iff_example :
    Memᴰ table_added (diff before after)
    ↔ IsChange
        (latest table_added.key before.entries)
        (latest table_added.key after.entries)
        table_added
diff_iff_example = diff_iff before after table_added

diff-nil_iff_example :
    (diff before after ≡ [])
    ↔ ((k : Text) → IsUnchanged (latest k before.entries) (latest k after.entries))
diff-nil_iff_example = diff-nil_iff before after

-- the instance as the tag sweep finds it, and as its collector does
abbrev swept : Resource
swept = record {
  service = str "ec2";
  type = str "instance";
  region = str "eu-west-1";
  az = [];
  account_id = [];
  id = str "i-1";
  name = str "web";
  arn = str "arn:web";
  state = [];
  created_at = none;
  tags = [];
  summary = [];
  details = [];
}

abbrev collected : Resource
collected = record swept { state = str "running"; az = str "eu-west-1a" }

abbrev nameless : Resource
nameless = record swept { arn = [] }

abbrev scanned : List Resource
scanned = swept ∷ nameless ∷ collected ∷ nameless ∷ []

dedupe_test : dedupe_resources scanned ≡ collected ∷ nameless ∷ nameless ∷ []
unfolding dedupe_resources eq_text str
dedupe_test = refl

dedupe_resources-merge_example : dedupe_resources scanned ≡ merge_all [] scanned
dedupe_resources-merge_example = dedupe_resources-merge scanned

dedupe_resources-IsCovered_example : IsCovered swept (dedupe_resources scanned)
dedupe_resources-IsCovered_example = dedupe_resources-IsCovered scanned swept (Memᴰ.head refl)

dedupe_resources-IsUnique_example : IsUnique (dedupe_resources scanned)
dedupe_resources-IsUnique_example = dedupe_resources-IsUnique scanned
