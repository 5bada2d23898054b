-- ===== src/Strategy/Tests.antt =====
-- app/strategy/attention.py on its default thresholds.
use sentry.Prelude.{◌*◌, ◌≡◌, refl, false, some}
use sentry.Prelude.Int.{pos}
use sentry.Domain.Enums.AttentionLevel.{watch, candidate}
use sentry.Domain.Market.{unit}
use sentry.Strategy.Attention.{AttentionStage, AttentionThresholds, attention, score_level}

abbrev thresholds : AttentionThresholds
thresholds = record {
  version = 1;
  at_watch = 25 * unit;
  at_candidate = 50 * unit;
  at_trade_worthy = 70 * unit;
  at_deep_research = 85 * unit;
}

watched : attention thresholds (pos (30 * unit)) AttentionStage.surveillance false ≡ some watch
unfolding attention score_level
watched = refl

capped : attention thresholds (pos (90 * unit)) AttentionStage.surveillance false ≡ some candidate
unfolding attention score_level
capped = refl
