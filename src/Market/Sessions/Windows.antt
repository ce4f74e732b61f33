-- ===== src/Market/Sessions/Windows.antt =====
-- The sessions of app/market/sessions.py as windows of time.
use sarkfxbot.Base.{
  ℕ, ◌+◌, ◌-◌, ◌*◌, ◌/◌, ◌%◌, ◌≤◌, ◌<◌, ◌≡◌, subst, true, leb, ltb, arith, if◌then◌else◌,
  Bool-cases, inl, inr, ◌⊎◌, ◌↔◌,
}
use sarkfxbot.Domain.Models.{Timestamp}
use sarkfxbot.Market.Sessions.{day_length, TradingSession, on_weekday, weekday_of, contains}

-- The length of the window that a session opens: up to its end, on the next day where that is not
-- later.
abbrev pub length_of : TradingSession → ℕ
length_of s = if ltb s.start s.end then s.end - s.start else s.end + day_length - s.start

-- The instant is in the window that the session opens on a day.
abbrev pub Opens : TradingSession → ℕ → Timestamp → Type 0
Opens s day t =
    (on_weekday s (day % 7) ≡ true)
    × (day * day_length + s.start ≤ t)
    × (t < day * day_length + s.start + length_of s)

-- What the code tests.
abbrev Current : TradingSession → Timestamp → Type 0
Current s t =
    (on_weekday s (weekday_of t) ≡ true)
    × (s.start ≤ t % day_length)
    × (t % day_length < s.start + length_of s)

abbrev Carried : TradingSession → Timestamp → Type 0
Carried s t =
    (s.end ≤ s.start) × (t % day_length < s.end) × (on_weekday s ((weekday_of t + 6) % 7) ≡ true)

contains-means :
    (s : TradingSession) (t : Timestamp)
    → s.start < day_length
    → contains s t ≡ true
    → Current s t ⊎ Carried s t
unfolding contains
contains-means s t a e = elim (Bool-cases (ltb s.start s.end)) [
  | inl x ↦ inl (ground arith, ground arith, ground arith)
  | inr x ↦ elim (Bool-cases (leb s.start (t % day_length))) [
    | inl y ↦ inl (ground arith, ground arith, ground arith)
    | inr y ↦ inr (ground arith, ground arith, ground arith)
  ]
]

contains-if :
    (s : TradingSession) (t : Timestamp)
    → s.end < day_length
    → Current s t ⊎ Carried s t
    → contains s t ≡ true
unfolding contains
contains-if s t a (inl (w, l, u)) = ground arith
contains-if s t a (inr (order, u, w)) = ground arith

opened_today : (s : TradingSession) (t : Timestamp) → Current s t → Opens s (t / day_length) t
opened_today s t (w, l, u) = (w, omega arith, omega (arith, u))

opened_yesterday :
    (s : TradingSession) (t : Timestamp)
    → s.start < day_length
    → day_length ≤ t
    → Carried s t
    → Opens s (t / day_length - 1) t
opened_yesterday s t a h (order, u, w) =
    let same : (t / day_length - 1) % 7 ≡ (t / day_length % 7 + 6) % 7 = omega arith in
    (rw same w, omega arith, ground arith)

back :
    (s : TradingSession) (t day : ℕ)
    → s.start < day_length
    → s.end < day_length
    → Opens s day t
    → Current s t ⊎ Carried s t
back s t day a b (w, l, u) = elim (Bool-cases (ltb s.start s.end)) [
  | inl x ↦ inl (today (ground arith), ground arith, ground arith)
  | inr x ↦ elim (Bool-cases (leb s.start (t % day_length))) [
    | inl y ↦ inl (today (ground arith), ground arith, ground arith)
    | inr y ↦ inr (ground arith, ground arith, before (ground arith))
  ]
]
  where
    today : day ≡ t / day_length → on_weekday s (weekday_of t) ≡ true
    today e = subst (λ d. on_weekday s (d % 7) ≡ true) e w

    before : day + 1 ≡ t / day_length → on_weekday s ((weekday_of t + 6) % 7) ≡ true
    before e = let same : (t / day_length % 7 + 6) % 7 ≡ day % 7 = omega (arith, e) in rw same w

-- From the second day of the calendar on, an instant is in a session exactly when the session
-- opened a window around it on one of its weekdays, also on the day before: a window begins at the
-- start time and lasts up to the end time, which is on the next day where it is not later than the
-- start.
pub contains_iff :
    (s : TradingSession) (t : Timestamp)
    → s.start < day_length
    → s.end < day_length
    → day_length ≤ t
    → (contains s t ≡ true) ↔ ((day : ℕ) × Opens s day t)
contains_iff s t a b h = (
  λ e. elim (contains-means s t a e) [
    | inl now ↦ (t / day_length, opened_today s t now)
    | inr earlier ↦ (t / day_length - 1, opened_yesterday s t a h earlier)
  ],
  λ (day, opens). contains-if s t b (back s t day a b opens),
)
