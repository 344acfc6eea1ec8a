-- ===== src/RateLimit/Window.antt =====
-- `AuthRateLimitMiddleware.dispatch` on one key, an address with a path. Its times are those of
-- `time.monotonic()` in any unit, the same for the window. The limit and the window of the path
-- are inputs: `_limit_for` and the response are left out.
use strikefluency.Prelude.{
  ◌++◌, true, false, length, ◌-◌, leb, [], if◌then◌else◌, Bool, ◌∷◌, List, ℕ,
}

-- `while events and now - events[0] >= window: events.popleft()`
abbrev pub drop_old : ℕ → ℕ → List ℕ → List ℕ
drop_old window now [] = []
drop_old window now (t ∷ events) =
    let rest = drop_old window now events in if leb window (now - t) then rest else t ∷ events

-- Whether the request passes, and the deque after it.
unfoldable pub admit : ℕ → ℕ → ℕ → List ℕ → Bool × List ℕ
admit limit window now events =
    let recent = drop_old window now events in
    if leb limit (length recent) then (false, recent) else (true, recent ++ (now ∷ []))

-- Requests in turn: which of them pass.
abbrev pub admit_all : ℕ → ℕ → List ℕ → List ℕ → List Bool
admit_all limit window events [] = []
admit_all limit window events (now ∷ nows) =
    let (passes, events') = admit limit window now events in
    passes ∷ admit_all limit window events' nows
