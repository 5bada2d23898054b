-- ===== src/Execution/Service/Rules.antt =====
-- app/execution/service.py: Hoare rules for the methods of the service. An action has a condition
-- before it, one after it with what it returns, and one after it when it raises.
use mathlib.Core.Path.{subst}
use sentry.Prelude.{◌≡◌, refl, Bool, true, false, Option, none, some}
use sentry.Execution.Error.{Denial, Error, Result, ok, err}
use sentry.Execution.Service.State.{
  ServiceState, Action, pure, raise, gets, attempt, continue, ◌>>=◌, raise_if, deny_found, check,
}

abbrev pub Condition : Type 1
Condition = ServiceState → Type 0

abbrev pub After : {A : Type 0} → (A → Condition) → Condition → Result A → Condition
After Q R (ok a) s = Q a s
After Q R (err e) s = R s

pub record Triple {A : Type 0} (P : Condition) (m : Action A) (Q : A → Condition) (R : Condition)
    : Type 0 where
  pub at : (s : ServiceState) → P s → After Q R (m s).0 (m s).1

module _ {A : Type 0} {P R : Condition} {Q : A → Condition} where
  pub pure-Triple : (a : A) → ((s : ServiceState) → P s → Q a s) → Triple P (pure a) Q R
  unfolding pure
  pure-Triple a h = record { at = h }

  pub raise-Triple : (e : Error) → ((s : ServiceState) → P s → R s) → Triple P (raise e) Q R
  unfolding raise
  raise-Triple e h = record { at = h }

  pub gets-Triple :
      (f : ServiceState → A) → ((s : ServiceState) → P s → Q (f s) s) → Triple P (gets f) Q R
  unfolding gets
  gets-Triple f h = record { at = h }

  -- Nothing runs in a state that cannot be.
  pub never-Triple : (m : Action A) → ((s : ServiceState) → P s → ⊥) → Triple P m Q R
  never-Triple m h = record { at = λ s p. absurd (h s p) }

module _ {A B : Type 0} {R : Condition} {Q : B → Condition} (M : A → Condition) where
  continue-After :
      (r : Result A) (f : A → Action B) (s : ServiceState)
      → ((a : A) → Triple (M a) (f a) Q R)
      → After M R r s
      → After Q R (continue r f s).0 (continue r f s).1
  continue-After (ok a) f s tf h = (tf a).at s h
  continue-After (err e) f s tf h = h

  pub bind-Triple :
      {P : Condition} {m : Action A} {f : A → Action B}
      → Triple P m M R
      → ((a : A) → Triple (M a) (f a) Q R)
      → Triple P (m >>= f) Q R
  unfolding ◌>>=◌
  bind-Triple {P} {m} {f} tm tf = record {
    at = λ s p. continue-After (m s).0 f (m s).1 tf (tm.at s p);
  }

module _ {A : Type 0} {P R : Condition} {Q : A → Condition} where
  pub attempt-Triple :
      {R' : Condition} {m : Action A} → Triple P m Q R → Triple P (attempt m) (After Q R) R'
  unfolding attempt
  attempt-Triple tm = record { at = tm.at }

module _ {P R : Condition} (implies : (s : ServiceState) → P s → R s) where
  pub raise_if-Triple :
      (test : Bool) (e : Error) → Triple P (raise_if test e) (λ _ s. P s × (test ≡ false)) R
  unfolding raise_if
  raise_if-Triple true e = record { at = implies }
  raise_if-Triple false e = record { at = λ s p. (p, refl) }

  found-After :
      (find : ServiceState → Option Denial) (found : Option Denial) (s : ServiceState)
      → find s ≡ found
      → P s
      → After (λ _ t. P t × (find t ≡ none)) R (deny_found found s).0 (deny_found found s).1
  unfolding pure raise
  found-After find none s e p = (p, e)
  found-After find (some why) s e p = implies s p

  pub check-Triple :
      (find : ServiceState → Option Denial) → Triple P (check find) (λ _ s. P s × (find s ≡ none)) R
  unfolding check
  check-Triple find = record { at = λ s p. found-After find (find s) s refl p }

module _ {A : Type 0} {Q Q' : A → Condition} (h : (a : A) (t : ServiceState) → Q' a t → Q a t) where
  After-imp : (R : Condition) (r : Result A) (s : ServiceState) → After Q' R r s → After Q R r s
  After-imp R (ok a) s q = h a s q
  After-imp R (err e) s q = q

module _ {A : Type 0} {R : Condition} {Q : A → Condition} {m : Action A} where
  -- A stronger condition before.
  pub assuming :
      {P P' : Condition} → ((s : ServiceState) → P s → P' s) → Triple P' m Q R → Triple P m Q R
  assuming h t = record { at = λ s p. t.at s (h s p) }

  -- A weaker condition after.
  pub concluding :
      {P : Condition} {Q' : A → Condition}
      → ((a : A) (t : ServiceState) → Q' a t → Q a t)
      → Triple P m Q' R
      → Triple P m Q R
  concluding h t = record { at = λ s p. After-imp h R (m s).0 (m s).1 (t.at s p) }

-- A fact of the condition that does not speak of the state is a hypothesis.
pub with_fact :
    {A : Type 0} {P R : Condition} {Q : A → Condition} {m : Action A} {F : Type 0}
    → (F → Triple P m Q R)
    → Triple (λ s. P s × F) m Q R
with_fact t = record { at = λ s h. (t h.1).at s h.0 }

module _ {A : Type 0} (Q : A → Condition) (R : Condition) where
  returned-After :
      (o : Result A × ServiceState) (a : A) (t : ServiceState)
      → o ≡ (ok a, t)
      → After Q R o.0 o.1
      → Q a t
  returned-After o a t e h = subst (λ (x : Result A × ServiceState). After Q R x.0 x.1) e h

-- What holds of an action that returned.
pub returns :
    {A : Type 0} {P R : Condition} {Q : A → Condition} {m : Action A}
    → Triple P m Q R
    → (s : ServiceState) → P s
    → (a : A) (t : ServiceState) → m s ≡ (ok a, t)
    → Q a t
returns {A} {P} {R} {Q} {m} triple s p a t e = returned-After Q R (m s) a t e (triple.at s p)
