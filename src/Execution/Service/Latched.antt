-- ===== src/Execution/Service/Latched.antt =====
-- app/execution/service.py: once a write was interrupted, `_deny_interrupted_writes` blocks every other.
use sentry.Prelude.{◌≡◌, false, List, is_empty}
use sentry.Execution.Error.{Error}
use sentry.Execution.Service.State.{ServiceState, Transmission}

-- A write was interrupted, and these were sent.
pub record IsLatched (sent : List Transmission) (s : ServiceState) : Type 0 where
  pub latched : is_empty s.interrupted_write_intents ≡ false
  pub same_sent : s.sent ≡ sent
