-- ===== src/Positions/Triggers.antt =====
-- app/positions/manager.py: what each trigger of an exit means.
use mathlib.Core.List.{Memᴰ}
use mathlib.Core.Path.{subst}
use sentry.Prelude.{
  ℕ, sym, ap, ◌∙◌, ◌+◌, ◌-◌, ◌*◌, ◌≤◌, ◌<◌, ◌≡◌, ◌⊎◌, ◌↔◌, refl, inl, inr, Bool, true, false, ◌&&◌,
  Option, none, some, List, [], ◌∷◌, min, arith, any, elem, leb, ◌==◌, if◌then◌else◌, Bool-cases,
}
use sentry.Prelude.Int.{pos, ◌+ℤ◌, ◌*ℤ◌, ◌≤ℤ◌}
use sentry.Domain.Market.{Time, OptionQuote, unit}
use sentry.Domain.Order.{Position}
use sentry.Positions.Manager.{
  ExitTrigger, ExitPolicy, Calendar, Signals, pnl, cost, target_reached, loss_reached, past_cutoff,
  liquidity_poor, close_buffer, trigger_if, exit_triggers,
}

elem-Memᴰ : (k : ℕ) (l : List ℕ) → (elem k l ≡ true) ↔ Memᴰ k l
elem-Memᴰ k l = (into l, from l)
  where
    into : (l : List ℕ) → elem k l ≡ true → Memᴰ k l
    into [] e = absurd (cc (e))
    into (x ∷ l) e = elim (Bool-cases (k == x)) [
      | inl same ↦ Memᴰ.head (ground arith)
      | inr other ↦ Memᴰ.tail (into l (rw (other, if◌then◌else◌) at e))
    ]

    from : (l : List ℕ) → Memᴰ k l → elem k l ≡ true
    from [] m = elim m [ ]
    from (x ∷ l) (Memᴰ.head same) = ground arith
    from (x ∷ l) (Memᴰ.tail more) = ground (arith, from l more)

-- One of the labels is in the list.
abbrev pub Shares : List ℕ → List ℕ → Type 0
Shares given l = (i : ℕ) × Memᴰ i given × Memᴰ i l

any-Shares : (given l : List ℕ) → (any (λ i. elem i l) given ≡ true) ↔ Shares given l
any-Shares given l = (into given, λ h. from given h.0 h.1 ((elem-Memᴰ h.0 l).1 h.2))
  where
    into : (given : List ℕ) → any (λ i. elem i l) given ≡ true → Shares given l
    into [] e = absurd (cc (e))
    into (x ∷ given) e = elim (Bool-cases (elem x l)) [
      | inl found ↦ (x, Memᴰ.head refl, (elem-Memᴰ x l).0 found)
      | inr missing ↦
          let more : any (λ i. elem i l) given ≡ true = ground arith in
          let rest = into given more in (rest.0, Memᴰ.tail rest.1, rest.2)
    ]

    from :
        (given : List ℕ) (i : ℕ) → Memᴰ i given → elem i l ≡ true → any (λ i. elem i l) given ≡ true
    from [] i m e = elim m [ ]
    from (x ∷ given) i (Memᴰ.head same) e =
        let here : elem x l ≡ true = rw (sym same) e in rw here refl
    from (x ∷ given) i (Memᴰ.tail more) e = ground (arith, from given i more e)

both_true : (a b : Bool) → (a && b) ≡ true → b ≡ true
both_true true b h = h
both_true false b h = absurd (cc (h))

module _ (policy : ExitPolicy) (c : Calendar) (now : Time) (p : Position) (q : OptionQuote)
    (s : Signals) where
  -- What a trigger says: the return on the cost of the position has reached the target or the threshold
  -- (of a position that cost nothing it is 0); a condition that invalidates the thesis is met; the
  -- catalyst has failed; the contract is close to its expiration; the session is close to its end; the
  -- quote has no bid, no ask or a wide spread; or the operator has declared an emergency.
  abbrev pub Holds : ExitTrigger → Type 0
  Holds ExitTrigger.profit_target =
      (0 < cost p → pos (policy.profit_target_fraction * cost p) ≤ℤ pnl p q.bid *ℤ unit)
      × (cost p ≡ 0 → policy.profit_target_fraction ≡ 0)
  Holds ExitTrigger.loss_threshold =
      (0 < cost p → pnl p q.bid *ℤ unit +ℤ pos (policy.loss_threshold_fraction * cost p) ≤ℤ pos 0)
      × (cost p ≡ 0 → policy.loss_threshold_fraction ≡ 0)
  Holds ExitTrigger.thesis_invalidated = Shares s.invalidated_conditions p.invalidation_conditions
  Holds ExitTrigger.catalyst_failed = s.catalyst_failed ≡ true
  Holds ExitTrigger.dte_cutoff =
      p.contract.expiration ≤ c.local_date now + policy.sell_to_close_days_before_expiration
  Holds ExitTrigger.end_of_day =
      (policy.end_of_day_exit ≡ true)
      × ((close : Time) × (c.session_close now ≡ some close)
          × (min (c.configured_cutoff now) (close - close_buffer) ≤ now))
  Holds ExitTrigger.liquidity_deterioration =
      (q.bid ≡ 0)
      ⊎ ((q.ask ≡ 0) ⊎ (policy.maximum_bid_ask_percent * q.ask < (q.ask - q.bid) * 100 * unit))
  Holds ExitTrigger.hard_portfolio_emergency = s.hard_portfolio_emergency ≡ true

  target-Holds : (target_reached policy p q ≡ true) ↔ Holds ExitTrigger.profit_target
  unfolding target_reached
  target-Holds = (λ h. (λ k. ground arith, λ k. ground arith), λ h. ground arith)

  loss-Holds : (loss_reached policy p q ≡ true) ↔ Holds ExitTrigger.loss_threshold
  unfolding loss_reached
  loss-Holds = (λ h. (λ k. ground arith, λ k. ground arith), λ h. ground arith)

  past_cutoff-Holds :
      (close : Option Time)
      → (past_cutoff c now close ≡ true)
        ↔ ((t : Time) × (close ≡ some t) × (min (c.configured_cutoff now) (t - close_buffer) ≤ now))
  past_cutoff-Holds none = (λ h. absurd (cc (h)), λ h. absurd (cc (h.1)))
  past_cutoff-Holds (some t) = (
    λ h. (t, refl, ground arith),
    λ h.
        let same : t ≡ h.0 = cc (h.1) in
        let le : min (c.configured_cutoff now) (t - close_buffer) ≤ now = rw same h.2 in
        ground arith,
  )

  end_of_day-Holds :
      ((policy.end_of_day_exit && past_cutoff c now (c.session_close now)) ≡ true)
      ↔ Holds ExitTrigger.end_of_day
  end_of_day-Holds =
      let closing = past_cutoff-Holds (c.session_close now) in
      (
        λ h. (ground arith, closing.0 (both_true policy.end_of_day_exit _ h)),
        λ h. rw (h.0, closing.1 h.1) refl,
      )

  liquidity-Holds : (liquidity_poor policy q ≡ true) ↔ Holds ExitTrigger.liquidity_deterioration
  unfolding liquidity_poor
  liquidity-Holds = (λ h. ground arith, λ h. ground arith)

  in_days-Holds :
      (leb p.contract.expiration (c.local_date now + policy.sell_to_close_days_before_expiration)
        ≡ true)
      ↔ Holds ExitTrigger.dte_cutoff
  in_days-Holds = (λ h. ground arith, λ h. ground arith)

  -- The test of each trigger.
  abbrev fires : ExitTrigger → Bool
  fires ExitTrigger.profit_target = target_reached policy p q
  fires ExitTrigger.loss_threshold = loss_reached policy p q
  fires ExitTrigger.thesis_invalidated =
      any (λ i. elem i p.invalidation_conditions) s.invalidated_conditions
  fires ExitTrigger.catalyst_failed = s.catalyst_failed
  fires ExitTrigger.dte_cutoff =
      leb p.contract.expiration (c.local_date now + policy.sell_to_close_days_before_expiration)
  fires ExitTrigger.end_of_day = policy.end_of_day_exit && past_cutoff c now (c.session_close now)
  fires ExitTrigger.liquidity_deterioration = liquidity_poor policy q
  fires ExitTrigger.hard_portfolio_emergency = s.hard_portfolio_emergency

  fires-Holds : (t : ExitTrigger) → (fires t ≡ true) ↔ Holds t
  fires-Holds ExitTrigger.profit_target = target-Holds
  fires-Holds ExitTrigger.loss_threshold = loss-Holds
  fires-Holds ExitTrigger.thesis_invalidated =
      any-Shares s.invalidated_conditions p.invalidation_conditions
  fires-Holds ExitTrigger.catalyst_failed = (λ h. h, λ h. h)
  fires-Holds ExitTrigger.dte_cutoff = in_days-Holds
  fires-Holds ExitTrigger.end_of_day = end_of_day-Holds
  fires-Holds ExitTrigger.liquidity_deterioration = liquidity-Holds
  fires-Holds ExitTrigger.hard_portfolio_emergency = (λ h. h, λ h. h)

-- The triggers of a list that fire, in its order.
module _ (fires : ExitTrigger → Bool) where
  abbrev firing : List ExitTrigger → List ExitTrigger
  firing [] = []
  firing (t ∷ ts) = trigger_if (fires t) t (firing ts)

  trigger_if-fires :
      (b : Bool) (t u : ExitTrigger) (rest : List ExitTrigger)
      → fires u ≡ b
      → (Memᴰ t rest → fires t ≡ true)
      → Memᴰ t (trigger_if b u rest)
      → fires t ≡ true
  trigger_if-fires true t u rest e more (Memᴰ.head same) = ap fires same ∙ e
  trigger_if-fires true t u rest e more (Memᴰ.tail m) = more m
  trigger_if-fires false t u rest e more m = more m

  trigger_here :
      (t u : ExitTrigger) (rest : List ExitTrigger)
      → t ≡ u
      → fires t ≡ true
      → Memᴰ t (trigger_if (fires u) u rest)
  trigger_here t u rest same e =
      subst (λ b. Memᴰ t (trigger_if b u rest)) (sym (ap fires (sym same) ∙ e)) (Memᴰ.head same)

  trigger_later :
      (b : Bool) (t u : ExitTrigger) (rest : List ExitTrigger)
      → Memᴰ t rest
      → Memᴰ t (trigger_if b u rest)
  trigger_later true t u rest m = Memᴰ.tail m
  trigger_later false t u rest m = m

  firing-fires : (t : ExitTrigger) (ts : List ExitTrigger) → Memᴰ t (firing ts) → fires t ≡ true
  firing-fires t [] m = elim m [ ]
  firing-fires t (u ∷ ts) m = trigger_if-fires (fires u) t u (firing ts) refl (firing-fires t ts) m

  fires_firing :
      (t : ExitTrigger) (ts : List ExitTrigger) → Memᴰ t ts → fires t ≡ true → Memᴰ t (firing ts)
  fires_firing t [] m e = elim m [ ]
  fires_firing t (u ∷ ts) (Memᴰ.head same) e = trigger_here t u (firing ts) same e
  fires_firing t (u ∷ ts) (Memᴰ.tail m) e =
      trigger_later (fires u) t u (firing ts) (fires_firing t ts m e)

abbrev all_triggers : List ExitTrigger
all_triggers =
    ExitTrigger.profit_target ∷ ExitTrigger.loss_threshold ∷ ExitTrigger.thesis_invalidated
    ∷ ExitTrigger.catalyst_failed ∷ ExitTrigger.dte_cutoff ∷ ExitTrigger.end_of_day
    ∷ ExitTrigger.liquidity_deterioration ∷ ExitTrigger.hard_portfolio_emergency ∷ []

is_trigger : (t : ExitTrigger) → Memᴰ t all_triggers
is_trigger ExitTrigger.profit_target = Memᴰ.head refl
is_trigger ExitTrigger.loss_threshold = Memᴰ.tail (Memᴰ.head refl)
is_trigger ExitTrigger.thesis_invalidated = Memᴰ.tail (Memᴰ.tail (Memᴰ.head refl))
is_trigger ExitTrigger.catalyst_failed = Memᴰ.tail (Memᴰ.tail (Memᴰ.tail (Memᴰ.head refl)))
is_trigger ExitTrigger.dte_cutoff = Memᴰ.tail (Memᴰ.tail (Memᴰ.tail (Memᴰ.tail (Memᴰ.head refl))))
is_trigger ExitTrigger.end_of_day =
    Memᴰ.tail (Memᴰ.tail (Memᴰ.tail (Memᴰ.tail (Memᴰ.tail (Memᴰ.head refl)))))
is_trigger ExitTrigger.liquidity_deterioration =
    Memᴰ.tail (Memᴰ.tail (Memᴰ.tail (Memᴰ.tail (Memᴰ.tail (Memᴰ.tail (Memᴰ.head refl))))))
is_trigger ExitTrigger.hard_portfolio_emergency =
    Memᴰ.tail
      (Memᴰ.tail (Memᴰ.tail (Memᴰ.tail (Memᴰ.tail (Memᴰ.tail (Memᴰ.tail (Memᴰ.head refl)))))))

module _ (policy : ExitPolicy) (c : Calendar) (now : Time) (p : Position) (q : OptionQuote)
    (s : Signals) where
  triggers-firing :
      exit_triggers policy c now p q s ≡ firing (fires policy c now p q s) all_triggers
  unfolding exit_triggers
  triggers-firing = refl

  -- A trigger is listed exactly where it holds.
  pub triggers-Holds :
      (t : ExitTrigger) → Memᴰ t (exit_triggers policy c now p q s) ↔ Holds policy c now p q s t
  triggers-Holds t =
      let of = fires-Holds policy c now p q s t in
      (
        λ m. of.0 (
            firing-fires (fires policy c now p q s) t all_triggers
              (subst (Memᴰ t) triggers-firing m)),
        λ h.
            subst (Memᴰ t) (sym triggers-firing)
              (fires_firing (fires policy c now p q s) t all_triggers (is_trigger t) (of.1 h)),
      )
