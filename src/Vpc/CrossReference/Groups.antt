-- ===== src/Vpc/CrossReference/Groups.antt =====
-- Labelled groups of resources, as internal/vpctui/xref.go and internal/vpctui/exposure.go show them.
use aws_explorer.Prelude.{Bool, true, false, not, List, [], ◌∷◌, if◌then◌else◌}
use aws_explorer.Go.Text.{Text, eq_text}

pub record XrefGroup : Type 0 where
  pub label : Text
  pub items : List Text

unfoldable pub group : Text → List Text → XrefGroup
group label items = record { label = label; items = items }

unfoldable pub is_nonempty : List Text → Bool
is_nonempty [] = false
is_nonempty (_ ∷ _) = true

-- the test of the loop that drops empty groups
unfoldable pub has_items : XrefGroup → Bool
unfolding is_nonempty
has_items g = is_nonempty g.items

-- an item that is appended if a field is set
unfoldable pub when_set : Text → Text → List Text
when_set field item = if not (eq_text field []) then item ∷ [] else []
