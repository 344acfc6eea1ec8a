-- ===== src/Sessions/Today.antt =====
-- The functions of trading_session_service.py. Those on a session take it and return it; the
-- caller writes it back by `set_session`, as the session object is the row.
use strikefluency.Prelude.{
  ℕ, ◌+◌, ◌-◌, ◌*◌, ◌/◌, ℤ, pos, ◌+ℤ◌, Bool, true, false, Option, none, some, List, [], ◌∷◌, ◌++◌,
  ◌==◌, leb, if◌then◌else◌, find, modify_first,
}
use strikefluency.Models.Records.{TradingSession, Rows, flush}
use strikefluency.Action.{Action, ok}

abbrev minute : ℕ
minute = 60_000_000

abbrev second : ℕ
second = 1_000_000

unfoldable pub new_session : ℕ → TradingSession
new_session today = record {
  session_date = today;
  trades_count = 0;
  realized_pnl = pos 0;
  is_cooldown_active = false;
  cooldown_until = none;
  last_sl_hit_at = none;
}

unfoldable pub find_today : ℕ → List TradingSession → Option TradingSession
find_today today = find (λ t. t.session_date == today)

unfoldable pub get_or_create_today : ℕ → Action TradingSession
unfolding new_session find_today
get_or_create_today today s = elim (find_today today s.sessions) [
  | some session ↦ (ok session, s)
  | none ↦ (
    ok (new_session today),
    flush (record s { sessions = s.sessions ++ (new_session today ∷ []) }),
  )
]

-- The session object as it now is, written to its row.
unfoldable pub set_session : TradingSession → Rows → Rows
set_session session s = record s {
  sessions = modify_first (λ t. t.session_date == session.session_date) (λ _. session) s.sessions;
}

unfoldable pub increment_trade_count : TradingSession → TradingSession
increment_trade_count session = record session { trades_count = session.trades_count + 1 }

unfoldable pub update_realized_pnl : ℤ → TradingSession → TradingSession
update_realized_pnl pnl session = record session { realized_pnl = session.realized_pnl +ℤ pnl }

-- `cooldown_minutes` as the caller gives it; its default is the setting.
unfoldable pub activate_cooldown : ℕ → ℕ → TradingSession → TradingSession
activate_cooldown now cooldown_minutes session = record session {
  is_cooldown_active = true;
  cooldown_until = some (now + cooldown_minutes * minute);
  last_sl_hit_at = some now;
}

abbrev check_until : ℕ → TradingSession → Option ℕ → Bool × TradingSession
check_until now session none = (true, session)
check_until now session (some until) =
    if leb until now
    then (false, record session { is_cooldown_active = false; cooldown_until = none })
    else (true, session)

-- Whether the cooldown blocks, and the session, reset where the cooldown is over.
unfoldable pub check_and_reset_cooldown : ℕ → TradingSession → Bool × TradingSession
check_and_reset_cooldown now session =
    if session.is_cooldown_active
    then check_until now session session.cooldown_until
    else (false, session)

abbrev remaining : ℕ → Option ℕ → ℕ
remaining now none = 0
remaining now (some until) = (until - now) / second

-- Seconds, rounded down, and 0 when it is over.
unfoldable pub get_cooldown_remaining : ℕ → TradingSession → ℕ
get_cooldown_remaining now session =
    if session.is_cooldown_active then remaining now session.cooldown_until else 0
