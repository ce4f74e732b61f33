-- ===== src/Market/News.antt =====
-- app/market/news.py: the filter that is used while there is no economic calendar. Windows and
-- instants are microseconds; a window may be negative, which is refused.
use sarkfxbot.Base.{String, Bool, false, List, if◌then◌else◌}
use sarkfxbot.Base.Int.{ℤ, pos, ltb_ℤ}
use sarkfxbot.Base.Exec.{Result, ok, err, value_error}
use sarkfxbot.Domain.Models.{Timestamp}

-- NewsFilter
pub record NewsFilter : Type 0 where
  pub enabled : Bool
  pub is_high_impact_event_nearby : Timestamp → List String → ℤ → Result Bool

-- DisabledNewsFilter
abbrev pub disabled_news_filter : NewsFilter
disabled_news_filter = record {
  enabled = false;
  is_high_impact_event_nearby = λ timestamp currencies window.
      if ltb_ℤ window (pos 0) then err (value_error "news window cannot be negative") else ok false;
}
