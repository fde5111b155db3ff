-- ===== src/Vpc/Trace/Needs.antt =====
-- Rules for what the steps of a trace need to succeed.
use mathlib.Core.Option.{some-injective}
use aws_explorer.Prelude.{◌≡◌, refl, sym, subst, ◌↔◌, Bool, true, false, Option, none, some, List}
use aws_explorer.Go.Text.{Text}
use aws_explorer.Vpc.Trace.{
  HopStatus, TraceHop, Run, halt, go, Step, pure, ◌>>=◌, add, block, reach, check, require, present,
  boundary,
}
use aws_explorer.Vpc.Trace.Open.{Crosses}

-- A run that ended reachable, or that went on with a value of which `Q` holds.
abbrev pub Succeeds : {A : Type 0} → (A → Type 0) → Run A → Type 0
Succeeds Q (halt r) = r.reachable ≡ true
Succeeds Q (go a hops) = Q a

-- `P` is exactly what a step needs to succeed.
pub record Needs {A : Type 0} (m : Step A) (Q : A → Type 0) (P : Type 0) : Type 0 where
  pub iff : (hops : List TraceHop) → Succeeds Q (m hops) ↔ P

bind_iff :
    {A B : Type 0} (r : Run A) (f : A → Step B) (Q : B → Type 0) (P' : A → Type 0)
    → ((a : A) → Needs (f a) Q (P' a))
    → Succeeds Q (elim r [ halt x ↦ halt x | go a hs ↦ f a hs ]) ↔ Succeeds P' r
bind_iff (halt r) f Q P' k = (λ h. h, λ h. h)
bind_iff (go a hops) f Q P' k = (k a).iff hops

pub bind-Needs :
    {A B : Type 0} {m : Step A} {f : A → Step B} {Q : B → Type 0} {P : Type 0} (P' : A → Type 0)
    → Needs m P' P
    → ((a : A) → Needs (f a) Q (P' a))
    → Needs (m >>= f) Q P
unfolding ◌>>=◌
bind-Needs {m} {f} {Q} P' h k = record {
  iff = λ hops.
      let (to, from) = bind_iff (m hops) f Q P' k in
      let (up, down) = h.iff hops in (λ x. up (to x), λ x. from (down x));
}

pub reach-Needs : (summary : Text) → Needs (reach summary) (λ _. ⊥) (Unit {0})
unfolding reach
reach-Needs summary = record { iff = λ hops. (λ x. tt, λ x. refl) }

pub pure-Needs : {A : Type 0} (Q : A → Type 0) (a : A) → Needs (pure a) Q (Q a)
unfolding pure
pure-Needs Q a = record { iff = λ hops. (λ x. x, λ x. x) }

module _ (P : Type 0) where
  pub add-Needs :
      (status : HopStatus) (name detail : Text) → Needs (add status name detail) (λ _. P) P
  unfolding add
  add-Needs status name detail = record { iff = λ hops. (λ x. x, λ x. x) }

  pub require-Needs :
      (name : Text) (v : Bool × Text) → Needs (require name v) (λ _. P) ((v.0 ≡ true) × P)
  unfolding require pure block
  require-Needs name (true, why) = record { iff = λ hops. (λ x. (refl, x), λ x. x.1) }
  require-Needs name (false, why) = record { iff = λ hops. (λ x. cc, λ x. cc (x.0)) }

  pub check-Needs :
      (name : Text) (v : Bool × Text) → Needs (check name v) (λ _. P) ((v.0 ≡ true) × P)
  unfolding check add block
  check-Needs name (true, why) = record { iff = λ hops. (λ x. (refl, x), λ x. x.1) }
  check-Needs name (false, why) = record { iff = λ hops. (λ x. cc, λ x. cc (x.0)) }

  pub boundary-Needs :
      (same : Bool) (name skipped : Text) (v : Bool × Text)
      → Needs (boundary same name skipped v) (λ _. P) (Crosses same (v.0 ≡ true) × P)
  unfolding boundary add
  boundary-Needs true name skipped v = record { iff = λ hops. (λ x. (tt, x), λ x. x.1) }
  boundary-Needs false name skipped v = check-Needs name v

pub present-Needs :
    {A : Type 0} (Q : A → Type 0) (name detail : Text) (o : Option A)
    → Needs (present name detail o) Q ((a : A) × (o ≡ some a) × Q a)
unfolding present pure block
present-Needs Q name detail none = record { iff = λ hops. (λ x. cc, λ x. cc (x.1)) }
present-Needs {A} Q name detail (some a) = record {
  iff = λ hops. (λ x. (a, refl, x), λ x. subst Q (sym (some-injective a x.0 x.1)) x.2);
}

-- The same step needs the same in other words.
pub Needs-iff :
    {A : Type 0} {m : Step A} {Q : A → Type 0} (P : Type 0) {P' : Type 0}
    → Needs m Q P
    → P ↔ P'
    → Needs m Q P'
Needs-iff P h e = record {
  iff = λ hops. let (to, from) = h.iff hops in (λ x. e.0 (to x), λ x. from (e.1 x));
}

pub check-Needs_iff :
    (P R : Type 0) (name : Text) (v : Bool × Text)
    → (v.0 ≡ true) ↔ R
    → Needs (check name v) (λ _. P) (R × P)
check-Needs_iff P R name v e =
    Needs-iff _ (check-Needs P name v) (λ x. (e.0 x.0, x.1), λ x. (e.1 x.0, x.1))
