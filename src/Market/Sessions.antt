-- ===== src/Market/Sessions.antt =====
-- app/market/sessions.py: trading sessions by the time of day and the weekday, in UTC. A time of
-- day is its microseconds since midnight. The error of an unknown name does not list the names.
pub mod Windows
use sarkfxbot.Base.{
  ℕ, ◌+◌, ◌*◌, ◌/◌, ◌%◌, String, str_eq, Bool, true, false, not, ◌&&◌, ◌||◌, List, [], ◌∷◌, map,
  any, all, filter, is_empty, leb, ltb, ◌==◌, if◌then◌else◌,
}
use sarkfxbot.Base.Int.{ℤ, pos, negsuc, ltb_ℤ}
use sarkfxbot.Base.Text.{is_blank, lower}
use sarkfxbot.Base.Exec.{Result, ok, err, value_error}
use sarkfxbot.Domain.Models.{Timestamp, second}

-- The microseconds of an hour and of a day.
abbrev pub hour : ℕ
hour = 3600 * second

abbrev pub day_length : ℕ
day_length = 24 * hour

pub record TradingSession : Type 0 where
  pub name : String
  pub start : ℕ
  pub end : ℕ
  pub weekdays : List ℤ

-- TradingSession.__post_init__
unfoldable pub make_session : TradingSession → Result TradingSession
make_session s =
    if is_blank s.name
    then err (value_error "session name is required")
    else if is_empty s.weekdays || any (λ d. ltb_ℤ d (pos 0) || ltb_ℤ (pos 6) d) s.weekdays
    then err (value_error "weekdays must contain values from 0 through 6")
    else ok s

abbrev pub same_weekday : ℕ → ℤ → Bool
same_weekday w (pos n) = n == w
same_weekday w (negsuc n) = false

-- weekday in self.weekdays
abbrev pub on_weekday : TradingSession → ℕ → Bool
on_weekday s w = any (same_weekday w) s.weekdays

abbrev pub weekday_of : Timestamp → ℕ
weekday_of t = t / day_length % 7

-- TradingSession.contains
unfoldable pub contains : TradingSession → Timestamp → Bool
contains s t =
    let current = t % day_length in
    if ltb s.start s.end
    then on_weekday s (weekday_of t) && leb s.start current && ltb current s.end
    else if leb s.start current
    then on_weekday s (weekday_of t)
    else ltb current s.end && on_weekday s ((weekday_of t + 6) % 7)

pub record SessionCalendar : Type 0 where
  pub sessions : List TradingSession
  pub allowed_names : List String

-- name.lower() in {name.lower() for name in names}
abbrev pub is_named : List String → String → Bool
is_named names name = any (λ n. str_eq (lower n) (lower name)) names

-- SessionCalendar.__post_init__
unfoldable pub make_calendar : SessionCalendar → Result SessionCalendar
make_calendar c =
    if all (is_named (map (λ (s : TradingSession). s.name) c.sessions)) c.allowed_names
    then ok c
    else err (value_error "unknown configured sessions")

-- SessionCalendar.active_sessions
unfoldable pub active_sessions : SessionCalendar → Timestamp → List String
active_sessions c t = map (λ (s : TradingSession). s.name) (filter (λ s. contains s t) c.sessions)

-- SessionCalendar.is_allowed
unfoldable pub is_allowed : SessionCalendar → Timestamp → Bool
is_allowed c t =
    any (λ (s : TradingSession). is_named c.allowed_names s.name && contains s t) c.sessions

-- From Monday to Friday, by hours.
abbrev pub hours : String → ℕ → ℕ → TradingSession
hours name first last = record {
  name = name;
  start = first * hour;
  end = last * hour;
  weekdays = pos 0 ∷ pos 1 ∷ pos 2 ∷ pos 3 ∷ pos 4 ∷ [];
}

-- default_session_calendar
unfoldable pub default_session_calendar : List String → Result SessionCalendar
default_session_calendar allowed = make_calendar (record {
  sessions =
      hours "asia" 0 8
      ∷ hours "london" 7 16
      ∷ hours "new_york" 12 21
      ∷ hours "london_new_york_overlap" 12 16
      ∷ [];
  allowed_names = allowed;
})
