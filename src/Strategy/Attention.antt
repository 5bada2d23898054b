-- ===== src/Strategy/Attention.antt =====
-- app/strategy/attention.py: `AttentionThresholds` and `AttentionMapper`. A score is on the grid of
-- the prices; a negative one is refused where it is read, as one above 100 is.
use sentry.Prelude.{
  ℕ, ◌*◌, ◌≤◌, ◌≡◌, Bool, true, false, not, ◌&&◌, Option, none, some, arith, leb, ltb,
  if◌then◌else◌,
}
use sentry.Prelude.Int.{ℤ, pos, ltb_ℤ, leb_ℤ, ◌≤ℤ◌}
use sentry.Domain.Enums.{AttentionLevel}
use sentry.Domain.Enums.AttentionLevel.{
  background, watch, candidate, trade_worthy, deep_research, position,
}
use sentry.Domain.Market.{Label, Money, unit}

pub data AttentionStage : Type 0 where
  surveillance post_reasoning : AttentionStage

pub record AttentionThresholds : Type 0 where
  pub version : Label
  pub at_watch : Money
  pub at_candidate : Money
  pub at_trade_worthy : Money
  pub at_deep_research : Money

-- `AttentionThresholds.ordered`: the validator raises where this fails.
abbrev pub ordered : AttentionThresholds → Bool
ordered t =
    leb t.at_watch t.at_candidate
    && leb t.at_candidate t.at_trade_worthy
    && leb t.at_trade_worthy t.at_deep_research

-- The value of a member of the `IntEnum`.
abbrev pub value : AttentionLevel → ℕ
value background = 0
value watch = 1
value candidate = 2
value trade_worthy = 3
value deep_research = 4
value position = 5

abbrev pub is_surveillance : AttentionStage → Bool
is_surveillance AttentionStage.surveillance = true
is_surveillance AttentionStage.post_reasoning = false

-- The level that the score alone gives.
unfoldable pub score_level : AttentionThresholds → ℤ → AttentionLevel
score_level t score =
    if ltb_ℤ score (pos t.at_watch)
    then background
    else if ltb_ℤ score (pos t.at_candidate)
    then watch
    else if ltb_ℤ score (pos t.at_trade_worthy)
    then candidate
    else if ltb_ℤ score (pos t.at_deep_research)
    then trade_worthy
    else deep_research

-- `AttentionMapper.map`; `none` stands for its `ValueError`.
unfoldable pub attention : AttentionThresholds → ℤ → AttentionStage → Bool → Option AttentionLevel
attention t score stage has_position =
    let level = score_level t score in
    if not (leb_ℤ (pos 0) score && leb_ℤ score (pos (100 * unit)))
    then none
    else if has_position
    then some position
    else if is_surveillance stage && ltb (value candidate) (value level)
    then some candidate
    else some level

score_level-monotone :
    (t : AttentionThresholds) (low high : ℤ)
    → ordered t ≡ true
    → low ≤ℤ high
    → value (score_level t low) ≤ value (score_level t high)
unfolding score_level
score_level-monotone t low high o l = ground arith

-- A higher score never gets less attention, at the same stage and with the same position.
attention-monotone :
    (t : AttentionThresholds) (low high : ℤ) (stage : AttentionStage) (has_position : Bool)
    {a b : AttentionLevel}
    → ordered t ≡ true
    → low ≤ℤ high
    → attention t low stage has_position ≡ some a
    → attention t high stage has_position ≡ some b
    → value a ≤ value b
unfolding attention
attention-monotone t low high stage has_position o l h k =
    ground (arith, score_level-monotone t low high o l)

-- Without a position, surveillance alone never declares a trade worthy.
attention-surveillance :
    (t : AttentionThresholds) (score : ℤ) {a : AttentionLevel}
    → attention t score AttentionStage.surveillance false ≡ some a
    → value a ≤ value candidate
unfolding attention
attention-surveillance t score h = ground arith
