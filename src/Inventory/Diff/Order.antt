-- ===== src/Inventory/Diff/Order.antt =====
-- The order of the changes of a diff.
use aws_explorer.Prelude.{List, [], ◌∷◌}
use aws_explorer.Go.Text.{Text}
use aws_explorer.Go.Lex.{Lex}
use aws_explorer.Inventory.Types.{Change}
use aws_explorer.Inventory.Diff.{kind_text}

-- resource type, name of the kind, key
abbrev pub change_order : List (Change → Text)
change_order =
    (λ (c : Change). c.type) ∷ (λ (c : Change). kind_text c.kind) ∷ (λ (c : Change). c.key) ∷ []
