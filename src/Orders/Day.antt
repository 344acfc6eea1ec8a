-- ===== src/Orders/Day.antt =====
-- The trading day as a close finds it: the session of today, new where there is none, and the tables
-- as the queries of the close see them.
use strikefluency.Sessions.{find_today, new_session, get_or_create_today}
use strikefluency.Prelude.{
  arith, inr, inl, Option-cases, ◌∙◌, ap, none, ◌≢◌, List, some, ◌≡◌, Option, ℕ,
}
use strikefluency.Models.Records.{DisciplineScore, VirtualOrder, Rows, TradingSession}
use strikefluency.Action.{ok}
use strikefluency.Sessions.Cooldown.{get_or_create_today_once}

abbrev pub day_or_new : ℕ → Option TradingSession → TradingSession
day_or_new today none = new_session today
day_or_new today (some t) = t

abbrev pub day_of : ℕ → Rows → TradingSession
day_of today s = day_or_new today (find_today today s.sessions)

abbrev pub seen_with : Option TradingSession → Rows → List VirtualOrder × List DisciplineScore
seen_with none s = (s.orders, s.scores)
seen_with (some t) s = (s.db_orders, s.db_scores)

-- The orders and the daily scores as last flushed: a session that is created is flushed with all
-- else.
abbrev pub seen : ℕ → Rows → List VirtualOrder × List DisciplineScore
seen today s = seen_with (find_today today s.sessions) s

-- The rows with the session of the day there.
pub record HasDay (today : ℕ) (s t : Rows) : Type 0 where
  pub day_eq : find_today today t.sessions ≡ some (day_of today s)
  pub others_eq : (d : ℕ) → d ≢ today → find_today d t.sessions ≡ find_today d s.sessions
  pub violations_eq : t.violations ≡ s.violations
  pub seen_eq : (t.db_orders, t.db_scores) ≡ seen today s

pub HasDay-day_of : (today : ℕ) (s t : Rows) → HasDay today s t → day_of today t ≡ day_of today s
HasDay-day_of today s t h = ap (day_or_new today) h.day_eq

pub HasDay-seen : (today : ℕ) (s t : Rows) → HasDay today s t → seen today t ≡ seen today s
HasDay-seen today s t h = ap (λ f. seen_with f t) h.day_eq ∙ h.seen_eq

pub get_or_create_today-HasDay :
    (today : ℕ) (s : Rows)
    → ((get_or_create_today today s).0 ≡ ok (day_of today s))
      × HasDay today s (get_or_create_today today s).1
unfolding get_or_create_today
get_or_create_today-HasDay today s =
    let (_, returned, found, fresh, _, others) = get_or_create_today_once today s in
    elim (Option-cases (find_today today s.sessions)) [
      | inl absent ↦ (
        ground arith,
        record {
          day_eq = rw (absent, ← (fresh absent)) found;
          others_eq = others;
          violations_eq = ground arith;
          seen_eq = ground arith;
        },
      )
      | inr (u, present) ↦ (
        ground arith,
        record {
          day_eq = ground arith;
          others_eq = others;
          violations_eq = ground arith;
          seen_eq = ground arith;
        },
      )
    ]
