-- ===== src/Positions/Exits.antt =====
-- app/positions/manager.py: what an exit decision means.
use mathlib.Core.List.{Memᴰ}
use mathlib.Core.Path.{subst}
use sentry.Domain.Enums.{OrderSide}
use sentry.Positions.Triggers.{Holds, triggers-Holds}
use sentry.Prelude.{
  ◌↔◌, refl, inl, inr, Bool-cases, not, is_empty, List, [], ◌∷◌, if◌then◌else◌, ◌+◌, ◌≤◌, ◌<◌, ◌≡◌,
  ◌⊎◌, true, none, some, arith,
}
use sentry.Domain.Market.{Time, OptionQuote, same_contract}
use mathlib.Core.Option.{some-injective}
use sentry.Domain.Order.{Position}
use sentry.Positions.Manager.{
  ExitPolicy, Calendar, Signals, ExitDecision, ExitTrigger, evaluate_exit, decide_exit,
  exit_triggers,
}

-- The decision can be carried out: a trigger holds, the bid is positive, and the quote is fresh, was
-- observed no later than now and took effect no later than it was observed.
pub record IsExecutable (policy : ExitPolicy) (c : Calendar) (now : Time) (p : Position)
    (q : OptionQuote) (s : Signals) : Type 0 where
  pub trigger : ExitTrigger
  pub holds : Holds policy c now p q s trigger
  pub has_bid : 0 < q.bid
  pub in_effect : q.effective_at ≤ q.observed_at
  pub not_ahead : q.observed_at ≤ now
  pub fresh : now ≤ q.observed_at + policy.maximum_quote_age

module _ (policy : ExitPolicy) (c : Calendar) (now : Time) (p : Position) (q : OptionQuote)
    (s : Signals) where
  is_listed :
      not (is_empty (exit_triggers policy c now p q s)) ≡ true
      → (t : ExitTrigger) × Memᴰ t (exit_triggers policy c now p q s)
  is_listed h = first (exit_triggers policy c now p q s) h
    where
      first : (l : List ExitTrigger) → not (is_empty l) ≡ true → (t : ExitTrigger) × Memᴰ t l
      first [] e = absurd (cc (e))
      first (t ∷ l) e = (t, Memᴰ.head refl)

  lists_some : (t : ExitTrigger) (l : List ExitTrigger) → Memᴰ t l → not (is_empty l) ≡ true
  lists_some t [] m = elim m [ ]
  lists_some t (u ∷ l) m = refl

  executable-IsExecutable :
      (decide_exit policy c now p q s).executable ≡ true → IsExecutable policy c now p q s
  unfolding decide_exit
  executable-IsExecutable e =
      let some_trigger = is_listed (ground arith) in
      record {
        trigger = some_trigger.0;
        holds = (triggers-Holds policy c now p q s some_trigger.0).0 some_trigger.1;
        has_bid = ground arith;
        in_effect = ground arith;
        not_ahead = ground arith;
        fresh = ground arith;
      }

  IsExecutable-executable :
      IsExecutable policy c now p q s → (decide_exit policy c now p q s).executable ≡ true
  unfolding decide_exit
  IsExecutable-executable h =
      let listed =
        lists_some h.trigger (exit_triggers policy c now p q s)
          ((triggers-Holds policy c now p q s h.trigger).1 h.holds) in
      let bid = h.has_bid in
      let a = h.in_effect in let b = h.not_ahead in let f = h.fresh in ground arith

-- What a decision says.
pub record IsExit (policy : ExitPolicy) (c : Calendar) (now : Time) (p : Position) (q : OptionQuote)
    (s : Signals) (d : ExitDecision) : Type 0 where
  pub triggers : (t : ExitTrigger) → Memᴰ t d.triggers ↔ Holds policy c now p q s t
  pub should_exit : (d.should_exit ≡ true) ↔ ((t : ExitTrigger) × Holds policy c now p q s t)
  pub executable : (d.executable ≡ true) ↔ IsExecutable policy c now p q s
  pub limit_price : d.limit_price ≡ (if d.executable then some q.bid else none)
  pub side : d.side ≡ OrderSide.sell_to_close
  pub quantity : d.quantity ≡ p.quantity

decide_exit-IsExit :
    (policy : ExitPolicy) (c : Calendar) (now : Time) (p : Position) (q : OptionQuote) (s : Signals)
    → IsExit policy c now p q s (decide_exit policy c now p q s)
unfolding decide_exit
decide_exit-IsExit policy c now p q s = record {
  triggers = triggers-Holds policy c now p q s;
  should_exit = (
    λ e.
        let listed = is_listed policy c now p q s e in
        (listed.0, (triggers-Holds policy c now p q s listed.0).0 listed.1),
    λ h.
        lists_some policy c now p q s h.0 (exit_triggers policy c now p q s)
          ((triggers-Holds policy c now p q s h.0).1 h.1),
  );
  executable =
      (executable-IsExecutable policy c now p q s, IsExecutable-executable policy c now p q s);
  limit_price = refl;
  side = refl;
  quantity = refl;
}

-- An exit decision lists exactly the triggers that hold, and says to exit exactly when one of them
-- holds. It is executable exactly when one of them holds, the bid is positive, and the quote took effect no later than it was observed, was observed no
-- later than now, and is no older than the policy allows. It is to sell to close the whole position, at
-- the bid of the quote if it is executable, and without a limit price if it is not.
pub evaluate_exit-limit_price :
    (policy : ExitPolicy) (c : Calendar) (now : Time) (p : Position) (q : OptionQuote) (s : Signals)
    {d : ExitDecision}
    → evaluate_exit policy c now p q s ≡ some d
    → IsExit policy c now p q s d
unfolding evaluate_exit
evaluate_exit-limit_price policy c now p q s {d} h =
    elim (Bool-cases (same_contract p.contract q.contract)) [
      | inl same ↦
          let decided : some (decide_exit policy c now p q s) ≡ some d =
            rw (same, if◌then◌else◌) at h in
          subst (IsExit policy c now p q s) (some-injective _ _ decided)
            (decide_exit-IsExit policy c now p q s)
      | inr other ↦ absurd (cc (rw (other, if◌then◌else◌) at h))
    ]

-- One of the triggers that need no arithmetic.
abbrev pub IsForced : ExitPolicy → Calendar → Time → Position → OptionQuote → Signals → Type 0
IsForced policy c now p q s =
    (s.hard_portfolio_emergency ≡ true)
    ⊎ ((s.catalyst_failed ≡ true)
        ⊎ ((q.bid ≡ 0)
            ⊎ (p.contract.expiration
                ≤ c.local_date now + policy.sell_to_close_days_before_expiration)))
