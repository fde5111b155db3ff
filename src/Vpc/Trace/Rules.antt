-- ===== src/Vpc/Trace/Rules.antt =====
-- Rules for the steps of a trace: what a step does with a result, seen from outside.
use aws_explorer.Prelude.{
  ◌≡◌, refl, ◌++◌, Bool, true, false, Option, none, some, List, [], ◌∷◌, ◌⊎◌, inl, inr, ◌≢◌,
}
use aws_explorer.Go.Text.{Text, str}
use aws_explorer.Vpc.Trace.{
  HopStatus, pass, fail, note, TraceHop, TraceResult, Run, halt, go, Step, pure, ◌>>=◌, add, block,
  reach, check, require, present, boundary,
}

-- The hops of a trace that nothing has blocked.
abbrev pub NoneFailed : List TraceHop → Type 0
NoneFailed [] = Unit
NoneFailed (h ∷ hs) = (h.status ≢ fail) × NoneFailed hs

pub NoneFailed-append :
    (hs : List TraceHop) (h : TraceHop)
    → NoneFailed hs
    → h.status ≢ fail
    → NoneFailed (hs ++ h ∷ [])
NoneFailed-append [] h n k = (k, tt)
NoneFailed-append (g ∷ hs) h n k = (n.0, NoneFailed-append hs h n.1 k)

-- A reachable verdict comes with no failed hop. A blocked one ends in its only failed hop, which the
-- summary names.
abbrev pub IsConsistent : TraceResult → Type 0
IsConsistent r =
    ((r.reachable ≡ true) × NoneFailed r.hops)
    ⊎ ((before : List TraceHop) × (last : TraceHop) × (r.reachable ≡ false)
        × (r.hops ≡ before ++ last ∷ [])
        × NoneFailed before
        × (last.status ≡ fail)
        × (r.summary ≡ str "❌ Blocked at: " ++ last.name))

abbrev pub Ensures : {A : Type 0} → Run A → Type 0
Ensures (halt r) = IsConsistent r
Ensures (go a hops) = NoneFailed hops

abbrev pub Ends : {A : Type 0} → Run A → Type 0
Ends (halt r) = IsConsistent r
Ends (go a hops) = ⊥

-- A step that keeps a trace consistent, and one that also ends it.
pub record Keeps {A : Type 0} (m : Step A) : Type 0 where
  pub apply : (hops : List TraceHop) → NoneFailed hops → Ensures (m hops)

pub record Finishes {A : Type 0} (m : Step A) : Type 0 where
  pub apply : (hops : List TraceHop) → NoneFailed hops → Ends (m hops)

bind_Ends :
    {A B : Type 0} (r : Run A) (f : A → Step B)
    → Ensures r
    → ((a : A) → Finishes (f a))
    → Ends {A = B} (elim r [ halt x ↦ halt x | go a hs ↦ f a hs ])
bind_Ends (halt r) f h k = h
bind_Ends (go a hops) f h k = (k a).apply hops h

bind_Ensures :
    {A B : Type 0} (r : Run A) (f : A → Step B)
    → Ensures r
    → ((a : A) → Keeps (f a))
    → Ensures {A = B} (elim r [ halt x ↦ halt x | go a hs ↦ f a hs ])
bind_Ensures (halt r) f h k = h
bind_Ensures (go a hops) f h k = (k a).apply hops h

pub >>=-Finishes :
    {A B : Type 0} {m : Step A} {f : A → Step B}
    → Keeps m
    → ((a : A) → Finishes (f a))
    → Finishes (m >>= f)
unfolding ◌>>=◌
>>=-Finishes {m} {f} h k = record { apply = λ hops n. bind_Ends (m hops) f (h.apply hops n) k }

pub >>=-Keeps :
    {A B : Type 0} {m : Step A} {f : A → Step B}
    → Keeps m
    → ((a : A) → Keeps (f a))
    → Keeps (m >>= f)
unfolding ◌>>=◌
>>=-Keeps {m} {f} h k = record { apply = λ hops n. bind_Ensures (m hops) f (h.apply hops n) k }

pub pure-Keeps : {A : Type 0} (a : A) → Keeps (pure a)
unfolding pure
pure-Keeps a = record { apply = λ hops n. n }

add-Keeps :
    (status : HopStatus) (name detail : Text) → status ≢ fail → Keeps (add status name detail)
unfolding add
add-Keeps status name detail k = record { apply = λ hops n. NoneFailed-append hops _ n k }

pub add_pass-Keeps : (name detail : Text) → Keeps (add pass name detail)
add_pass-Keeps name detail = add-Keeps pass name detail (λ e. cc)

pub add_note-Keeps : (name detail : Text) → Keeps (add note name detail)
add_note-Keeps name detail = add-Keeps note name detail (λ e. cc)

pub block-Keeps : {A : Type 0} (name detail : Text) → Keeps (block {A = A} name detail)
unfolding block
block-Keeps name detail = record { apply = λ hops n. inr (hops, _, refl, refl, n, refl, refl) }

pub reach-Finishes : (summary : Text) → Finishes (reach summary)
unfolding reach
reach-Finishes summary = record { apply = λ hops n. inl (refl, n) }

pub check-Keeps : (name : Text) (v : Bool × Text) → Keeps (check name v)
unfolding check
check-Keeps name (true, why) = add_pass-Keeps name why
check-Keeps name (false, why) = block-Keeps name why

pub require-Keeps : (name : Text) (v : Bool × Text) → Keeps (require name v)
unfolding require
require-Keeps name (true, why) = pure-Keeps tt
require-Keeps name (false, why) = block-Keeps name why

pub present-Keeps : {A : Type 0} (name detail : Text) (o : Option A) → Keeps (present name detail o)
unfolding present
present-Keeps name detail none = block-Keeps name detail
present-Keeps name detail (some a) = pure-Keeps a

pub boundary-Keeps :
    (same : Bool) (name skipped : Text) (v : Bool × Text) → Keeps (boundary same name skipped v)
unfolding boundary
boundary-Keeps true name skipped v = add_note-Keeps name skipped
boundary-Keeps false name skipped v = check-Keeps name v

pub ruleset step_rules = (
  >>=-Finishes, >>=-Keeps, pure-Keeps, add_pass-Keeps, add_note-Keeps, block-Keeps, reach-Finishes,
  check-Keeps, require-Keeps, present-Keeps, boundary-Keeps,
)
