-- ===== src/Security/Gate.antt =====
-- The severities, the ignore list and the exit-code gate of internal/findings/finding.go.
use mathlib.Core.List.Memᴰ
use aws_explorer.Prelude.{
  ℕ, ◌≤◌, leb, ◌≡◌, ◌≢◌, refl, sym, ◌∙◌, ◌↔◌, ◌⊎◌, inl, inr, Bool, true, false, not, List, [], ◌∷◌,
  Memᴰ, arith, Bool-cases, if◌then◌else◌, any, any→Memᴰ, Memᴰ→any, filter, Memᴰ-filter,
  Memᴰ-filter_of,
}
use aws_explorer.Go.Text.{
  Text, str, eq_text, eq_text_iff, eq_text_refl, trim_space, to_lower, cat, member, member_iff,
}
use aws_explorer.Security.Types.{Severity, info, warning, critical, Finding}

-- the number of a severity
unfoldable pub severity_rank : Severity → ℕ
severity_rank info = 0
severity_rank warning = 1
severity_rank critical = 2

-- `Severity.String`
unfoldable pub severity_text : Severity → Text
severity_text info = str "INFO"
severity_text warning = str "WARNING"
severity_text critical = str "CRITICAL"

-- the tests on the name
classify : Text → Text → Text ⊎ Severity
classify name error =
    if eq_text name (str "critical")
    then inr critical
    else if eq_text name (str "warning")
    then inr warning
    else if eq_text name (str "info")
    then inr info
    else inl error

-- the text of the error, where `%q` is of a text of printable characters without quotes
unknown : Text → Text
unknown s = cat (str "unknown severity \"" ∷ s ∷ str "\" (use critical, warning or info)" ∷ [])

-- `ParseSeverity`: a severity or an error
unfoldable pub parse_severity : Text → Text ⊎ Severity
unfolding classify unknown
parse_severity s = classify (to_lower (trim_space s)) (unknown s)

-- `Drop`, with the ignored IDs as a list
unfoldable pub drop_ignored : List Finding → List Text → List Finding
unfolding filter
drop_ignored fs [] = fs
drop_ignored fs (id ∷ ids) = filter (λ f. not (member f.id (id ∷ ids))) fs

unfoldable pub any_at_or_above : List Finding → Severity → Bool
unfolding any
any_at_or_above fs min = any (λ f. leb (severity_rank min) (severity_rank f.severity)) fs

Memᴰ-drop_ignored :
    (fs : List Finding) (ids : List Text) (f : Finding)
    → Memᴰ f (drop_ignored fs ids) ↔ (Memᴰ f fs × (Memᴰ f.id ids → ⊥))
unfolding drop_ignored
Memᴰ-drop_ignored fs [] f = (λ m. (m, λ t. Memᴰ.not-nil t), λ x. x.0)
Memᴰ-drop_ignored fs (id ∷ ids) f =
    let test = λ (f : Finding). not (member f.id (id ∷ ids)) in
    (
      λ m.
          let (m', e) = Memᴰ-filter test fs m in
          (m', λ t. ground (arith, (member_iff f.id (id ∷ ids)).1 t)),
      λ (m, n). elim (Bool-cases (member f.id (id ∷ ids))) [
        | inl e ↦ absurd (n ((member_iff f.id (id ∷ ids)).0 e))
        | inr e ↦ Memᴰ-filter_of test fs m (rw e refl)
      ],
    )

-- The gate on the findings that are left fires if and only if some finding that is not ignored is at
-- least as severe as the threshold.
pub any_at_or_above-drop_ignored :
    (fs : List Finding) (ids : List Text) (min : Severity)
    → (any_at_or_above (drop_ignored fs ids) min ≡ true) ↔ (
        (f : Finding) × Memᴰ f fs
        × (Memᴰ f.id ids → ⊥)
        × (severity_rank min ≤ severity_rank f.severity))
unfolding any_at_or_above
any_at_or_above-drop_ignored fs ids min =
    let test = λ (f : Finding). leb (severity_rank min) (severity_rank f.severity) in
    (
      λ e.
          let (f, m, q) = any→Memᴰ test (drop_ignored fs ids) e in
          let (a, b) = (Memᴰ-drop_ignored fs ids f).0 m in (f, a, b, ground arith),
      λ (f, m, n, q).
          Memᴰ→any test (drop_ignored fs ids) ((Memᴰ-drop_ignored fs ids f).1 (m, n))
            (ground arith),
    )

critical_name : to_lower (severity_text critical) ≡ str "critical"
unfolding to_lower severity_text str
critical_name = refl

warning_name : to_lower (severity_text warning) ≡ str "warning"
unfolding to_lower severity_text str
warning_name = refl

info_name : to_lower (severity_text info) ≡ str "info"
unfolding to_lower severity_text str
info_name = refl

warning_not_critical : eq_text (str "warning") (str "critical") ≡ false
unfolding eq_text str
warning_not_critical = refl

info_not_critical : eq_text (str "info") (str "critical") ≡ false
unfolding eq_text str
info_not_critical = refl

info_not_warning : eq_text (str "info") (str "warning") ≡ false
unfolding eq_text str
info_not_warning = refl

classified :
    (name error : Text) (s : Severity)
    → (classify name error ≡ inr s) ↔ (name ≡ to_lower (severity_text s))
unfolding classify
classified name error critical = rw critical_name (
  λ e. ground (arith, eq_text_iff name (str "critical")),
  λ e. ground (arith, eq_text_iff name (str "critical")),
)
classified name error warning = rw warning_name (
  λ e. ground (arith, eq_text_iff name (str "warning")),
  λ e. rw (e, warning_not_critical, eq_text_refl (str "warning")) refl,
)
classified name error info = rw info_name (
  λ e. ground (arith, eq_text_iff name (str "info")),
  λ e. rw (e, info_not_critical, info_not_warning, eq_text_refl (str "info")) refl,
)

not_classified :
    (name error : Text)
    → ((s : Severity) → name ≢ to_lower (severity_text s))
    → classify name error ≡ inl error
unfolding classify
not_classified name error h =
    let a = λ (e : name ≡ str "critical"). h critical (e ∙ sym critical_name) in
    let b = λ (e : name ≡ str "warning"). h warning (e ∙ sym warning_name) in
    let c = λ (e : name ≡ str "info"). h info (e ∙ sym info_name) in
    ground (
      arith,
      eq_text_iff name (str "critical"),
      eq_text_iff name (str "warning"),
      eq_text_iff name (str "info"),
    )

-- A name parses to a severity if and only if, but for spaces around it and case, it is the severity's
-- own name; it is an error if and only if it is the name of no severity.
pub parse_severity_iff :
    (t : Text)
    → ((s : Severity)
        → (parse_severity t ≡ inr s) ↔ (to_lower (trim_space t) ≡ to_lower (severity_text s)))
      × (((e : Text) × (parse_severity t ≡ inl e))
          ↔ ((s : Severity) → to_lower (trim_space t) ≢ to_lower (severity_text s)))
unfolding parse_severity
parse_severity_iff t = (
  classified (to_lower (trim_space t)) (unknown t),
  (
    λ (e, q) s z. ground (arith, (classified (to_lower (trim_space t)) (unknown t) s).1 z, q),
    λ h. (unknown t, not_classified (to_lower (trim_space t)) (unknown t) h),
  ),
)
