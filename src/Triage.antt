-- ===== src/Triage.antt =====
-- The triage of stopped ECS tasks: internal/ecstriage/triage.go. A time is a number of ticks since the
-- zero time.
pub mod Laws
mod Examples
use aws_explorer.Prelude.{
  ℕ, ltb, ◌==◌, Bool, true, false, ◌&&◌, ◌||◌, not, Option, none, some, List, [], ◌∷◌, ◌++◌,
  if◌then◌else◌, map, find, sort,
}
use aws_explorer.Go.Text.{Text, str, eq_text, less_text, trim_space, to_lower, contains, cat}
use aws_explorer.Go.Number.{ℤ, pos, itoa_int}

pub record Container : Type 0 where
  pub name : Text
  pub exit_code : Option ℤ
  pub reason : Text

pub record Task : Type 0 where
  pub arn : Text
  pub cluster : Text
  pub region : Text
  pub group : Text
  pub stop_code : Text
  pub stopped_reason : Text
  pub stopped_at : ℕ
  pub containers : List Container

pub record Record : Type 0 where
  pub stopped_at : ℕ
  pub task : Text
  pub cluster : Text
  pub region : Text
  pub group : Text
  pub stop_code : Text
  pub reason : Text
  pub container : Text
  pub exit_code : Option ℤ
  pub exit_note : Text

is_zero : ℤ → Bool
is_zero (pos n) = n == 0
is_zero _ = false

nonzero : Option ℤ → Bool
unfolding is_zero
nonzero none = false
nonzero (some n) = not (is_zero n)

-- `c.ExitCode != nil && *c.ExitCode != 0`
unfoldable pub has_failed : Container → Bool
unfolding nonzero
has_failed c = nonzero c.exit_code

unfoldable pub has_reason : Container → Bool
has_reason c = not (eq_text (trim_space c.reason) [])

or_else : Option Container → Option Container → Option Container
or_else (some c) o = some c
or_else none o = o

-- the three choices in their order
unfoldable pub culprit : List Container → Option Container
unfolding find has_failed has_reason or_else
culprit [] = none
culprit (c ∷ cs) = or_else (find has_failed (c ∷ cs)) (or_else (find has_reason (c ∷ cs)) (some c))

unfoldable pub mentions_oom : Text → Text
mentions_oom reason =
    let r = to_lower reason in
    if contains r (str "outofmemory")
      || contains r (str "out of memory")
      || contains r (str "oomkill")
      || contains r (str "memory limit")
    then str "out-of-memory: container exceeded its memory limit — raise memory or fix the leak"
    else []

-- the cases of the `switch`, with what the last one returns
code_note : ℕ → Text → Text
code_note n reason =
    if n == 0
    then str "exited cleanly"
    else if n == 1
    then str "general application error"
    else if n == 134
    then str "SIGABRT (134 = 128+6) — likely an abort()/assert"
    else if n == 137
    then str "possible OOM-kill (137 = 128+9, SIGKILL)"
    else if n == 139
    then str "segfault (139 = 128+11, SIGSEGV)"
    else if n == 143
    then str "SIGTERM (143 = 128+15) — stopped by a signal, often a normal shutdown"
    else trim_space reason

exit_code_note : Option ℤ → Text → Text
unfolding code_note
exit_code_note none reason = trim_space reason
exit_code_note (some (pos n)) reason = code_note n reason
exit_code_note (some _) reason = trim_space reason

unfoldable pub exit_note : Container → Text
unfolding mentions_oom exit_code_note
exit_note c =
    let oom = mentions_oom c.reason in
    if not (eq_text oom []) then oom else exit_code_note c.exit_code c.reason

-- the text after the last occurrence of a byte
after_last : ℕ → Text → Option Text
after_last b [] = none
after_last b (c ∷ s) = elim (after_last b s) [
  | some t ↦ some t
  | none ↦ if c == b then some s else none
]

-- a text that is not empty, or another
nonempty_or : Option Text → Text → Text
nonempty_or none t = t
nonempty_or (some []) t = t
nonempty_or (some (c ∷ s)) t = c ∷ s

unfoldable pub short_task_id : Text → Text
unfolding after_last nonempty_or
short_task_id arn = nonempty_or (after_last b'/' arn) (nonempty_or (after_last b':' arn) arn)

-- the fields that the culprit fills
blamed : Option Container → Text × Option ℤ × Text
unfolding exit_note
blamed none = ([], none, [])
blamed (some c) = (c.name, c.exit_code, exit_note c)

unfoldable pub record_of : Task → Record
unfolding blamed culprit short_task_id
record_of t =
    let reason = trim_space t.stopped_reason in
    let (container, exit_code, note) = blamed (culprit t.containers) in
    record {
      stopped_at = t.stopped_at;
      task = short_task_id t.arn;
      cluster = t.cluster;
      region = t.region;
      group = t.group;
      stop_code = t.stop_code;
      reason = if eq_text reason [] then str "(no reason reported)" else reason;
      container = container;
      exit_code = exit_code;
      exit_note = note;
    }

-- newest first
unfoldable pub less_record : Record → Record → Bool
unfolding less_text
less_record a b =
    if not (a.stopped_at == b.stopped_at)
    then ltb b.stopped_at a.stopped_at
    else if not (eq_text a.region b.region)
    then less_text a.region b.region
    else if not (eq_text a.cluster b.cluster)
    then less_text a.cluster b.cluster
    else less_text a.task b.task

unfoldable pub classify : List Task → List Record
unfolding sort less_record record_of
classify tasks = sort less_record (map record_of tasks)

display_of : Option ℤ → Text → Text
display_of none note = if not (eq_text note []) then note else str "-"
display_of (some n) note =
    if not (eq_text note []) then cat (itoa_int n ∷ str " (" ∷ note ∷ str ")" ∷ []) else itoa_int n

unfoldable pub exit_display : Record → Text
unfolding display_of
exit_display r = display_of r.exit_code r.exit_note
