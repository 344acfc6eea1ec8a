-- ===== src/AutoExit/Levels.antt =====
-- When an order is closed by its levels: `_decide_exit` against the trigger semantics.
use strikefluency.AutoExit.Sweep.{crossed_above, crossed_below, decide, decide_exit}
use strikefluency.Prelude.{refl, ◌↔◌, true, none, ◌≡◌, ◌≤◌, arith, some, ℕ, Option}
use strikefluency.Models.Terms.{ExitReason, OrderAction}
use strikefluency.Models.Records.{VirtualOrder}

abbrev Below : Option ℕ → ℕ → Type 0
Below none ltp = ⊥
Below (some level) ltp = ltp ≤ level

abbrev Above : Option ℕ → ℕ → Type 0
Above none ltp = ⊥
Above (some level) ltp = level ≤ ltp

-- The premium is at or past a level on the side that loses, or that wins, for the direction.
abbrev pub Losing : OrderAction → Option ℕ → ℕ → Type 0
Losing OrderAction.buy = Below
Losing OrderAction.sell = Above

abbrev pub Winning : OrderAction → Option ℕ → ℕ → Type 0
Winning OrderAction.buy = Above
Winning OrderAction.sell = Below

-- Which reason is due: the stop loss first, then the target, then the limit.
abbrev pub IsDue : OrderAction → Option ℕ → Option ℕ → Option ℕ → ℕ → Option ExitReason → Type 0
IsDue a sl target limit ltp (some ExitReason.sl_hit) = Losing a sl ltp
IsDue a sl target limit ltp (some ExitReason.target_hit) =
    (¬ (Losing a sl ltp)) × Winning a target ltp
IsDue a sl target limit ltp (some ExitReason.limit_exit) =
    (¬ (Losing a sl ltp)) × (¬ (Winning a target ltp)) × Winning a limit ltp
IsDue a sl target limit ltp none =
    (¬ (Losing a sl ltp)) × (¬ (Winning a target ltp)) × (¬ (Winning a limit ltp))
IsDue a sl target limit ltp (some _) = ⊥

crossed_below_iff : (l : Option ℕ) (p : ℕ) → (crossed_below l p ≡ true) ↔ Below l p
crossed_below_iff none p = ground arith
crossed_below_iff (some l) p = ground arith

crossed_above_iff : (l : Option ℕ) (p : ℕ) → (crossed_above l p ≡ true) ↔ Above l p
crossed_above_iff none p = ground arith
crossed_above_iff (some l) p = ground arith

decide-IsDue :
    (a : OrderAction) (sl target limit : Option ℕ) (ltp : ℕ)
    → IsDue a sl target limit ltp (decide a sl target limit ltp)
decide-IsDue OrderAction.buy sl target limit ltp =
    ground
      (arith, crossed_below_iff sl ltp, crossed_above_iff target ltp, crossed_above_iff limit ltp)
decide-IsDue OrderAction.sell sl target limit ltp =
    ground
      (arith, crossed_above_iff sl ltp, crossed_below_iff target ltp, crossed_below_iff limit ltp)

due_unique :
    (a : OrderAction) (sl target limit : Option ℕ) (ltp : ℕ) (x y : Option ExitReason)
    → IsDue a sl target limit ltp x
    → IsDue a sl target limit ltp y
    → x ≡ y
due_unique a sl target limit ltp (some ExitReason.sl_hit) (some ExitReason.sl_hit) h k = refl
due_unique a sl target limit ltp (some ExitReason.sl_hit) (some ExitReason.target_hit) h k =
    absurd (k.0 h)
due_unique a sl target limit ltp (some ExitReason.sl_hit) (some ExitReason.limit_exit) h k =
    absurd (k.0 h)
due_unique a sl target limit ltp (some ExitReason.sl_hit) none h k = absurd (k.0 h)
due_unique a sl target limit ltp (some ExitReason.sl_hit) (some ExitReason.manual) h k = absurd k
due_unique a sl target limit ltp (some ExitReason.sl_hit) (some ExitReason.emergency_exit) h k =
    absurd k
due_unique a sl target limit ltp (some ExitReason.sl_hit) (some ExitReason.eod_squareoff) h k =
    absurd k
due_unique a sl target limit ltp (some ExitReason.target_hit) (some ExitReason.sl_hit) h k =
    absurd (h.0 k)
due_unique a sl target limit ltp (some ExitReason.target_hit) (some ExitReason.target_hit) h k =
    refl
due_unique a sl target limit ltp (some ExitReason.target_hit) (some ExitReason.limit_exit) h k =
    absurd (k.1 h.1)
due_unique a sl target limit ltp (some ExitReason.target_hit) none h k = absurd (k.1 h.1)
due_unique a sl target limit ltp (some ExitReason.target_hit) (some ExitReason.manual) h k =
    absurd k
due_unique a sl target limit ltp (some ExitReason.target_hit) (some ExitReason.emergency_exit) h k =
    absurd k
due_unique a sl target limit ltp (some ExitReason.target_hit) (some ExitReason.eod_squareoff) h k =
    absurd k
due_unique a sl target limit ltp (some ExitReason.limit_exit) (some ExitReason.sl_hit) h k =
    absurd (h.0 k)
due_unique a sl target limit ltp (some ExitReason.limit_exit) (some ExitReason.target_hit) h k =
    absurd (h.1 k.1)
due_unique a sl target limit ltp (some ExitReason.limit_exit) (some ExitReason.limit_exit) h k =
    refl
due_unique a sl target limit ltp (some ExitReason.limit_exit) none h k = absurd (k.2 h.2)
due_unique a sl target limit ltp (some ExitReason.limit_exit) (some ExitReason.manual) h k =
    absurd k
due_unique a sl target limit ltp (some ExitReason.limit_exit) (some ExitReason.emergency_exit) h k =
    absurd k
due_unique a sl target limit ltp (some ExitReason.limit_exit) (some ExitReason.eod_squareoff) h k =
    absurd k
due_unique a sl target limit ltp none (some ExitReason.sl_hit) h k = absurd (h.0 k)
due_unique a sl target limit ltp none (some ExitReason.target_hit) h k = absurd (h.1 k.1)
due_unique a sl target limit ltp none (some ExitReason.limit_exit) h k = absurd (h.2 k.2)
due_unique a sl target limit ltp none none h k = refl
due_unique a sl target limit ltp none (some ExitReason.manual) h k = absurd k
due_unique a sl target limit ltp none (some ExitReason.emergency_exit) h k = absurd k
due_unique a sl target limit ltp none (some ExitReason.eod_squareoff) h k = absurd k
due_unique a sl target limit ltp (some ExitReason.manual) y h k = absurd h
due_unique a sl target limit ltp (some ExitReason.emergency_exit) y h k = absurd h
due_unique a sl target limit ltp (some ExitReason.eod_squareoff) y h k = absurd h

-- The automatic exit of an order at a premium is exactly the one due by its levels: the stop loss
-- when the premium is at it or past it on the losing side of the direction, otherwise the target
-- when it is reached on the winning side, otherwise the resting exit limit when that is reached on
-- the winning side, and none when no level is reached.
pub decide_exit_iff :
    (o : VirtualOrder) (ltp : ℕ) (reason : Option ExitReason)
    → (decide_exit o ltp ≡ reason)
      ↔ IsDue o.action o.sl_price o.target_price o.exit_limit_price ltp reason
unfolding decide_exit
decide_exit_iff o ltp reason = (
  λ e. rw (← e) (decide-IsDue o.action o.sl_price o.target_price o.exit_limit_price ltp),
  λ h.
      due_unique o.action o.sl_price o.target_price o.exit_limit_price ltp _ reason
        (decide-IsDue o.action o.sl_price o.target_price o.exit_limit_price ltp) h,
)
