-- ===== src/Execution/Service/Quiet.antt =====
-- app/execution/service.py: actions of the service that hand nothing to the broker and take nothing
-- durable back, with a rule for each way to build one.
use sentry.Prelude.{ℕ, ◌≡◌, refl, ◌∙◌, Bool, true, false, Option, none, some, is_empty}
use sentry.Safety.RuntimeState.{Reason}
use sentry.Domain.Market.{Uuid}
use sentry.Execution.Error.{Denial, Error, Result, ok, err}
use sentry.Execution.Store.{Method}
use sentry.Execution.Store.Grows.{Grows, Grows-refl, Grows-trans, MethodGrows}
use sentry.Execution.Service.State.{
  World, ServiceState, Action, pure, raise, gets, attempt, continue, ◌>>=◌, raise_if, deny_found,
  check, emergency_stop, latch, await, stored, store_access, next_turn,
}
use sentry.Execution.Service.Rules.{Condition, After, Triple, bind-Triple}

pub record Quiet (s t : ServiceState) : Type 0 where
  pub same_sent : t.sent ≡ s.sent
  pub grows : Grows s.store t.store
  pub still_latched :
      is_empty s.interrupted_write_intents ≡ false → is_empty t.interrupted_write_intents ≡ false

pub Quiet-refl : (s : ServiceState) → Quiet s s
Quiet-refl s = record { same_sent = refl; grows = Grows-refl s.store; still_latched = λ h. h }

pub Quiet-trans : {s t u : ServiceState} → Quiet s t → Quiet t u → Quiet s u
Quiet-trans p q = record {
  same_sent = q.same_sent ∙ p.same_sent;
  grows = Grows-trans p.grows q.grows;
  still_latched = λ h. q.still_latched (p.still_latched h);
}

pub record IsQuiet {A : Type 0} (m : Action A) : Type 0 where
  pub at : (s : ServiceState) → Quiet s (m s).1

module _ {A : Type 0} where
  pub pure-IsQuiet : (a : A) → IsQuiet (pure a)
  unfolding pure
  pure-IsQuiet a = record { at = Quiet-refl }

  pub raise-IsQuiet : (e : Error) → IsQuiet (raise {A = A} e)
  unfolding raise
  raise-IsQuiet e = record { at = Quiet-refl }

  pub gets-IsQuiet : (f : ServiceState → A) → IsQuiet (gets f)
  unfolding gets
  gets-IsQuiet f = record { at = Quiet-refl }

  pub attempt-IsQuiet : (m : Action A) → IsQuiet m → IsQuiet (attempt m)
  unfolding attempt
  attempt-IsQuiet m q = record { at = q.at }

module _ {A B : Type 0} where
  continue-Quiet :
      (r : Result A) (f : A → Action B)
      → ((a : A) → IsQuiet (f a))
      → (s : ServiceState) → Quiet s (continue r f s).1
  continue-Quiet (ok a) f qf s = (qf a).at s
  continue-Quiet (err e) f qf s = Quiet-refl s

  pub bind-IsQuiet :
      (m : Action A) (f : A → Action B) → IsQuiet m → ((a : A) → IsQuiet (f a)) → IsQuiet (m >>= f)
  unfolding ◌>>=◌
  bind-IsQuiet m f qm qf = record {
    at = λ s. Quiet-trans (qm.at s) (continue-Quiet (m s).0 f qf (m s).1);
  }

pub raise_if-IsQuiet : (test : Bool) (e : Error) → IsQuiet (raise_if test e)
unfolding raise_if
raise_if-IsQuiet true e = record { at = Quiet-refl }
raise_if-IsQuiet false e = record { at = Quiet-refl }

found-Quiet : (found : Option Denial) (s : ServiceState) → Quiet s (deny_found found s).1
unfolding pure raise
found-Quiet none s = Quiet-refl s
found-Quiet (some why) s = Quiet-refl s

pub check-IsQuiet : (find : ServiceState → Option Denial) → IsQuiet (check find)
unfolding check
check-IsQuiet find = record { at = λ s. found-Quiet (find s) s }

pub emergency_stop-IsQuiet : (why : Reason) → IsQuiet (emergency_stop why)
unfolding emergency_stop
emergency_stop-IsQuiet why = record {
  at = λ s. record { same_sent = refl; grows = Grows-refl s.store; still_latched = λ h. h };
}

pub latch-IsQuiet : (id : Uuid) → IsQuiet (latch id)
unfolding latch
latch-IsQuiet id = record {
  at = λ s. record { same_sent = refl; grows = Grows-refl s.store; still_latched = λ h. refl };
}

module _ (w : World) {A : Type 0} where
  pub await-IsQuiet : (answer : ℕ → Result A) → IsQuiet (await w answer)
  unfolding await
  await-IsQuiet answer = record {
    at = λ s. record { same_sent = refl; grows = Grows-refl s.store; still_latched = λ h. h };
  }

  access-Quiet :
      (fault : Option Error) (m : Method A) (s : ServiceState)
      → MethodGrows m
      → Quiet s (store_access w fault m s).1
  unfolding next_turn
  access-Quiet (some e) m s g = record {
    same_sent = refl;
    grows = Grows-refl s.store;
    still_latched = λ h. h;
  }
  access-Quiet none m s g = record {
    same_sent = refl;
    grows = g.at s.store;
    still_latched = λ h. h;
  }

  pub stored-IsQuiet : (m : Method A) → MethodGrows m → IsQuiet (stored w m)
  unfolding stored
  stored-IsQuiet m g = record { at = λ s. access-Quiet (w.store_fault s.turn) m s g }

-- A condition that no quiet action can break.
pub record IsStable (P : Condition) : Type 0 where
  pub at : {s t : ServiceState} → Quiet s t → P s → P t

module _ {A : Type 0} {P R : Condition} (stable : IsStable P)
    (implies : (s : ServiceState) → P s → R s) where
  quiet-After : (r : Result A) (s t : ServiceState) → Quiet s t → P s → After {A = A} (λ _. P) R r t
  quiet-After (ok a) s t q p = stable.at q p
  quiet-After (err e) s t q p = implies t (stable.at q p)

  pub quiet-Triple : {m : Action A} → IsQuiet m → Triple P m (λ _. P) R
  quiet-Triple {m} q = record { at = λ s p. quiet-After (m s).0 s (m s).1 (q.at s) p }

pub ruleset quiet_rules = (
  pure-IsQuiet, raise-IsQuiet, gets-IsQuiet, attempt-IsQuiet, bind-IsQuiet, raise_if-IsQuiet,
  check-IsQuiet, emergency_stop-IsQuiet, latch-IsQuiet, await-IsQuiet, stored-IsQuiet,
)

-- A fact that does not speak of the state is as stable as the condition beside it.
pub fact-IsStable : {P : Condition} {F : Type 0} → IsStable P → IsStable (λ s. P s × F)
fact-IsStable stable = record { at = λ q h. (stable.at q h.0, h.1) }

module _ {A B : Type 0} {P R : Condition} {Q : B → Condition} (stable : IsStable P)
    (implies : (s : ServiceState) → P s → R s) where
  -- A quiet first step keeps the condition for the rest.
  pub quiet-bind :
      {m : Action A} {f : A → Action B}
      → IsQuiet m
      → ((a : A) → Triple P (f a) Q R)
      → Triple P (m >>= f) Q R
  quiet-bind q tf = bind-Triple (λ _. P) (quiet-Triple stable implies q) tf

-- What a part outside has answered in some turn.
abbrev pub Answered : {A : Type 0} → (ℕ → Result A) → A → Type 0
Answered answer a = (turn : ℕ) × (answer turn ≡ ok a)

module _ (w : World) {A : Type 0} {P R : Condition} (stable : IsStable P)
    (implies : (s : ServiceState) → P s → R s) (answer : ℕ → Result A) where
  answered-After :
      (r : Result A) (turn : ℕ) (s t : ServiceState)
      → answer turn ≡ r
      → Quiet s t
      → P s
      → After (λ a s. P s × Answered answer a) R r t
  answered-After (ok a) turn s t e q p = (stable.at q p, (turn, e))
  answered-After (err x) turn s t e q p = implies t (stable.at q p)

  pub answered-Triple : Triple P (await w answer) (λ a s. P s × Answered answer a) R
  unfolding await
  answered-Triple = record {
    at = λ s p. answered-After (answer s.turn) s.turn s _ refl ((await-IsQuiet w answer).at s) p;
  }
