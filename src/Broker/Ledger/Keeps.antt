-- ===== src/Broker/Ledger/Keeps.antt =====
-- app/broker/shadow_ledger.py: a rule for a property that the methods keep, whether they raise or not.
use sentry.Prelude.{◌≡◌, refl}
use sentry.Broker.Ledger.State.{ShadowLedger, Result, ok, err, Action, raise, ◌>>=◌}

module _ {ℓ} (P : ShadowLedger → Type ℓ) {A B : Type 0} where
  after :
      (f : A → Action B) (r : Result A) (l : ShadowLedger)
      → P l
      → ((a : A) → r ≡ ok a → P (f a l).1)
      → P (elim r as (λ _. Result B × ShadowLedger) [ ok a ↦ f a l | err e ↦ raise e l ]).1
  after f (ok a) l h k = k a refl
  after f (err e) l h k = h

  pub >>=-keeps :
      (m : Action A) (f : A → Action B) (l : ShadowLedger)
      → P (m l).1
      → ((a : A) → (m l).0 ≡ ok a → P (f a (m l).1).1)
      → P ((m >>= f) l).1
  >>=-keeps m f l h k = after f (m l).0 (m l).1 h k
