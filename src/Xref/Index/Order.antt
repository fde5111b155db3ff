-- ===== src/Xref/Index/Order.antt =====
-- The order of references.
use aws_explorer.Prelude.{
  ◌∙◌, ◌≡◌, ◌≢◌, refl, sym, Bool, true, false, List, [], ◌∷◌, if◌then◌else◌, Bool-cases, inl, inr,
  IsWeakOrder, sort-IsSorted, IsOrderedBy, IsOrderedBy-and, IsSorted-IsOrderedBy,
}
use aws_explorer.Go.Text.{Text, eq_text, eq_text_sound, less_text}
use aws_explorer.Go.Order.{then_by, by_field, IsWeakOrder-same, less_text_irrefl}
use aws_explorer.Go.Lex.{
  Lex, StrictLex, Agree, Lex-StrictLex, by_all, by_all-Lex, by_all-IsWeakOrder,
}
use aws_explorer.Xref.Types.{Target, Reference}
use aws_explorer.Xref.Index.{
  Index, less_fields, sort_fields, less_reference, sort_references, fresh, gathered, all_forms,
  where_used, row_key,
}
use aws_explorer.Xref.Index.Rows.{Distinct, fresh-Distinct, sort-Distinct}

-- service, type, region, identifier, relationship
abbrev pub row_order : List (Reference → Text)
row_order =
    (λ (r : Reference). r.service)
    ∷ (λ (r : Reference). r.type)
    ∷ (λ (r : Reference). r.region)
    ∷ (λ (r : Reference). r.id)
    ∷ (λ (r : Reference). r.via)
    ∷ []

if-same : (b : Bool) → (if b then false else false) ≡ false
if-same true = refl
if-same false = refl

last_field : (s t : Text) → (if eq_text s t then false else less_text s t) ≡ less_text s t
last_field s t = elim (Bool-cases (eq_text s t)) [
  | inl e ↦ rw (eq_text_sound s t e, less_text_irrefl t) (if-same (eq_text t t))
  | inr e ↦ rw e refl
]

less_reference-same : (a b : Reference) → less_reference a b ≡ by_all row_order a b
unfolding less_reference less_fields sort_fields by_all then_by by_field
less_reference-same a b = rw (last_field a.via b.via) refl

less_reference-IsWeakOrder : IsWeakOrder less_reference
less_reference-IsWeakOrder =
    IsWeakOrder-same less_reference (by_all row_order) less_reference-same
      (by_all-IsWeakOrder row_order)

Agree-row_key : (a b : Reference) → Agree row_order a b → row_key b ≡ row_key a
unfolding row_key
Agree-row_key a b (s, (t, (_, (i, (v, _))))) = rw (s, t, i, v) refl

Distinct-IsOrderedBy :
    (rs : List Reference) → Distinct rs → IsOrderedBy (λ a b. row_key b ≢ row_key a) rs
Distinct-IsOrderedBy [] d = tt
Distinct-IsOrderedBy (r ∷ rs) d = (d.0, Distinct-IsOrderedBy rs d.1)

-- The rows of a where-used answer strictly increase in the lexicographic order of service, type,
-- region, identifier and relationship, each compared as a string, so no two of them agree in all.
pub where_used-IsOrderedBy :
    (target : Target) (index : Index Reference)
    → IsOrderedBy (StrictLex row_order) (where_used target index).references
unfolding where_used sort_references
where_used-IsOrderedBy target index =
    let found = gathered (all_forms target.identifiers) index in
    let rows = (fresh [] found).0 in
    IsOrderedBy-and (Lex row_order) (λ a b. row_key b ≢ row_key a) (StrictLex row_order)
      (λ a b l n. Lex-StrictLex row_order a b l (λ g. n (Agree-row_key a b g))) _
      (IsSorted-IsOrderedBy less_reference (Lex row_order)
        (λ x y h. by_all-Lex row_order x y (sym (less_reference-same y x) ∙ h)) _
        (sort-IsSorted less_reference less_reference-IsWeakOrder rows))
      (Distinct-IsOrderedBy _ (sort-Distinct less_reference rows (fresh-Distinct [] found)))
