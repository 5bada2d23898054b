-- ===== src/Positions/Marks.antt =====
-- app/positions/manager.py beside app/broker/shadow_ledger.py: marking a position.
use sentry.Prelude.{
  ◌≡◌, ◌∙◌, ◌⊎◌, inl, inr, refl, true, some, none, Option, List, [], ◌∷◌, All, arith,
}
use mathlib.Core.Path.{subst}
use sentry.Prelude.Int.{◌≤ℤ◌, max_ℤ, min_ℤ}
use sentry.Domain.Market.{OptionQuote, same_contract}
use sentry.Domain.Order.{Position}
use sentry.Broker.Ledger.Holdings.{marked, profit}
use sentry.Positions.Manager.{mark, pnl}

-- The manager and the ledger mark a position in the same way.
pub mark-marked :
    (p : Position) (q : OptionQuote)
    → same_contract p.contract q.contract ≡ true
    → mark p q ≡ some (marked q p)
unfolding mark marked pnl profit
mark-marked p q h = rw h refl

-- A position marked with a list of quotes, the first one first.
unfoldable pub mark_all : List OptionQuote → Position → Option Position
mark_all [] p = some p
mark_all (q ∷ rest) p = elim (mark p q) [ none ↦ none | some p' ↦ mark_all rest p' ]

-- The marks of `p` bracket what it would bring at the bid of `q`.
abbrev pub Brackets : Position → OptionQuote → Type 0
Brackets p q = (p.worst_unrealized_pnl ≤ℤ pnl p q.bid) × (pnl p q.bid ≤ℤ p.best_unrealized_pnl)

-- The later position brings the same at any price, and its marks have only moved apart.
abbrev IsWider : Position → Position → Type 0
IsWider p p' =
    (p'.average_entry_price ≡ p.average_entry_price)
    × (p'.quantity ≡ p.quantity)
    × (p'.contract.multiplier ≡ p.contract.multiplier)
    × (p'.worst_unrealized_pnl ≤ℤ p.worst_unrealized_pnl)
    × (p.best_unrealized_pnl ≤ℤ p'.best_unrealized_pnl)

abbrev remarked : Position → OptionQuote → Position
remarked p q = record p {
  current_bid = q.bid;
  current_ask = q.ask;
  best_unrealized_pnl = max_ℤ p.best_unrealized_pnl (pnl p q.bid);
  worst_unrealized_pnl = min_ℤ p.worst_unrealized_pnl (pnl p q.bid);
}

remarked-IsWider : (p : Position) (q : OptionQuote) → IsWider p (remarked p q)
remarked-IsWider p q = (refl, refl, refl, ground arith, ground arith)

remarked-Brackets : (p p' : Position) (q : OptionQuote) → IsWider (remarked p q) p' → Brackets p' q
remarked-Brackets p p' q w =
    let same : pnl p' q.bid ≡ pnl p q.bid = unfold pnl in rw (w.0, w.1, w.2) refl in
    rw same (ground arith)

IsWider-trans : (a b c : Position) → IsWider a b → IsWider b c → IsWider a c
IsWider-trans a b c h k =
    (k.0 ∙ h.0, k.1 ∙ h.1, k.2 ∙ h.2, omega (arith, h.3, k.3), omega (arith, h.4, k.4))

mark-cases : (p : Position) (q : OptionQuote) → (mark p q ≡ none) ⊎ (mark p q ≡ some (remarked p q))
unfolding mark
mark-cases p q = ground arith

mark_all-IsWider :
    (qs : List OptionQuote) (p p' : Position)
    → mark_all qs p ≡ some p'
    → IsWider p p' × All (Brackets p') qs
unfolding mark_all
mark_all-IsWider [] p p' h =
    let same : p ≡ p' = ground arith in
    (subst (IsWider p) same (refl, refl, refl, omega arith, omega arith), tt)
mark_all-IsWider (q ∷ rest) p p' h = elim (mark-cases p q) [
  | inl refused ↦ absurd (cc (rw (refused, mark_all) at h))
  | inr done ↦
      let (later, brackets) = mark_all-IsWider rest (remarked p q) p' (rw (done, mark_all) at h) in
      (
        IsWider-trans p (remarked p q) p' (remarked-IsWider p q) later,
        (remarked-Brackets p p' q later, brackets),
      )
]

-- However often a position is marked, its best and worst marks bracket what it would bring at the
-- bid of every quote that it was marked with.
pub mark_all-Brackets :
    (qs : List OptionQuote) (p : Position) {p' : Position}
    → mark_all qs p ≡ some p'
    → All (Brackets p') qs
mark_all-Brackets qs p {p'} h = (mark_all-IsWider qs p p' h).1
