-- ===== src/Sessions/Storing.antt =====
-- `set_session` of a session of the day: that row is it, and no other day is touched.
use strikefluency.Sessions.Today.{find_today, set_session}
use strikefluency.Prelude.{
  ◌∙◌, modify_first, find, ap, arith, find-holds, ◌==◌, ==_iff, find-modify_first,
  find-modify_first_other, some, ◌≢◌, ◌≡◌, List, ℕ,
}
use strikefluency.Models.Records.{Rows, TradingSession}

module _ (today : ℕ) (session : TradingSession) (s : Rows)
    (dated : session.session_date ≡ today) where
  pub set_session-found :
      (t : TradingSession)
      → find_today today s.sessions ≡ some t
      → find_today today (set_session session s).sessions ≡ some session
  unfolding set_session find_today
  set_session-found t found =
      ap
        (λ (n : ℕ).
          find (λ (t : TradingSession). t.session_date == today)
            (modify_first (λ (t : TradingSession). t.session_date == n) (λ _. session) s.sessions))
        dated
      ∙ find-modify_first (λ (t : TradingSession). t.session_date == today) (λ _. session) t
          s.sessions found ((==_iff session.session_date today).1 dated)

  pub set_session-others :
      (d : ℕ) → d ≢ today → find_today d (set_session session s).sessions ≡ find_today d s.sessions
  unfolding set_session find_today
  set_session-others d ne =
      find-modify_first_other (λ (t : TradingSession). t.session_date == d)
        (λ (t : TradingSession). t.session_date == session.session_date) (λ _. session) s.sessions
        (λ t h. ground arith)

pub find_today-dated :
    (today : ℕ) (ts : List TradingSession) (t : TradingSession)
    → find_today today ts ≡ some t
    → t.session_date ≡ today
unfolding find_today
find_today-dated today ts t found =
    (==_iff t.session_date today).0
      (find-holds (λ (t : TradingSession). t.session_date == today) ts t found)
