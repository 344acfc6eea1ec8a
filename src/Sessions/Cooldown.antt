-- ===== src/Sessions/Cooldown.antt =====
-- The cooldown as a state machine, and the session row of a day.
use strikefluency.Prelude.{
  ℕ, ◌+◌, ◌-◌, ◌*◌, ◌<◌, ◌≡◌, ◌↔◌, true, false, none, some, arith, [], ◌∷◌, ◌++◌, ◌==◌,
  find-append_none, find-append_miss, ◌≢◌, inl, inr, Option-cases,
}
use strikefluency.Models.Records.{TradingSession, Rows, flush}
use strikefluency.Action.{ok}
use strikefluency.Sessions.Today.{
  new_session, find_today, get_or_create_today, activate_cooldown, check_and_reset_cooldown,
  get_cooldown_remaining,
}

-- A cooldown that is activated at `now` for m minutes blocks exactly until m minutes have passed:
-- a check at a later instant blocks if and only if it comes before the end, and where it does not
-- block the session is no longer in cooldown, with no seconds remaining.
pub cooldown_lifecycle :
    (session : TradingSession) (now m later : ℕ)
    → let cooling = activate_cooldown now m session in
      let (blocked, session') = check_and_reset_cooldown later cooling in
      ((blocked ≡ true) ↔ (later < now + m * 60_000_000))
      × (blocked ≡ true → session' ≡ cooling)
      × (blocked ≡ false
          → (session'.is_cooldown_active ≡ false) × (get_cooldown_remaining later session' ≡ 0))
      × (session'.trades_count ≡ session.trades_count)
      × (session'.realized_pnl ≡ session.realized_pnl)
unfolding activate_cooldown check_and_reset_cooldown get_cooldown_remaining
cooldown_lifecycle session now m later = ground arith

-- The seconds that the block announces are enough and not a second too many: as long as the
-- cooldown blocks, waiting them and one more ends it, and waiting them less one does not.
cooldown_announced :
    (session : TradingSession) (now m later : ℕ)
    → let cooling = activate_cooldown now m session in
      let wait = get_cooldown_remaining later cooling in
      later < now + m * 60_000_000
      → ((check_and_reset_cooldown (later + (wait + 1) * 1_000_000) cooling).0 ≡ false)
        × (0 < wait → (check_and_reset_cooldown (later + (wait - 1) * 1_000_000) cooling).0 ≡ true)
unfolding activate_cooldown check_and_reset_cooldown get_cooldown_remaining
cooldown_announced session now m later h = ground arith

-- A second check at the same instant says the same, and changes nothing more.
check_and_reset_cooldown_idempotent :
    (session : TradingSession) (now : ℕ)
    → let (blocked, session') = check_and_reset_cooldown now session in
      check_and_reset_cooldown now session' ≡ (blocked, session')
unfolding check_and_reset_cooldown
check_and_reset_cooldown_idempotent session now = ground arith

refresh :
    (today : ℕ) (s : Rows) (t : TradingSession)
    → find_today today s.sessions ≡ some t
    → get_or_create_today today s ≡ (ok t, s)
unfolding get_or_create_today
refresh today s t h = ground arith

-- One session to a user and a day: the call returns the row of that day, which is new only where
-- there was none; a repeated call returns the same row and creates none; and the sessions of other
-- days are found as before.
pub get_or_create_today_once :
    (today : ℕ) (s : Rows)
    → let (r, s') = get_or_create_today today s in
      ((t : TradingSession) × (r ≡ ok t)
        × (find_today today s'.sessions ≡ some t)
        × (find_today today s.sessions ≡ none → t ≡ new_session today)
        × (get_or_create_today today s' ≡ (ok t, s'))
        × ((d : ℕ) → d ≢ today → find_today d s'.sessions ≡ find_today d s.sessions))
unfolding get_or_create_today
get_or_create_today_once today s = elim (Option-cases (find_today today s.sessions)) [
  | inr (t, e) ↦ (t, ground arith, ground arith, ground arith, ground arith, ground arith)
  | inl e ↦
      let t = new_session today in
      let found : find_today today (s.sessions ++ (t ∷ [])) ≡ some t =
        ground (arith, find-append_none (λ t. t.session_date == today) s.sessions (t ∷ [])) in
      let s' : Rows = flush (record s { sessions = s.sessions ++ (t ∷ []) }) in
      (
        t,
        ground arith,
        ground arith,
        ground arith,
        ground (arith, refresh today s' t found),
        λ d ne.
            ground (arith, find-append_miss (λ t. t.session_date == d) s.sessions t (ground arith)),
      )
]
