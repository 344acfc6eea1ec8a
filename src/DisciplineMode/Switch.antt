-- ===== src/DisciplineMode/Switch.antt =====
-- `get_mode` and `set_mode`. The margin that open strategies block is an input, since their table
-- is not one of the rows; the audit record of the change is left out.
use strikefluency.Action.{ok, pure, gets, modify, ◌>>◌, Action}
use strikefluency.Models.Records.{VirtualPosition, Rows, VirtualAccount}
use strikefluency.Prelude.{
  ◌+◌, ltb, select, ltb_ℤ, true, ◌-ℤ◌, if◌then◌else◌, pos, sum_of, Bool, ℕ, ℤ,
}
use strikefluency.Models.Terms.{Tier}
use strikefluency.Ledger.{adjust}

-- FULL_SANDBOX_CAPITAL: ten lakh rupees in paise.
abbrev pub full_sandbox_capital : ℕ
full_sandbox_capital = 100_000_000

pub record Mode : Type 0 where
  pub enabled : Bool
  pub capital_unlocked : Bool
  pub tier : Tier
  pub balance : ℤ

abbrev pub mode_of : Rows → Mode
mode_of s = record {
  enabled = s.account.discipline_mode_enabled;
  capital_unlocked = s.account.capital_unlocked;
  tier = s.account.tier;
  balance = s.account.balance;
}

abbrev pub get_mode : Action Mode
get_mode = gets mode_of

-- `_blocked_margin`
abbrev pub blocked_margin : ℕ → Rows → ℕ
blocked_margin strategy_margin s =
    sum_of (λ (p : VirtualPosition). p.margin_blocked) (select (λ p. p.is_open) s.positions)
    + strategy_margin

abbrev pub with_mode : Bool → Rows → Rows
with_mode enabled s = record s { account = record s.account { discipline_mode_enabled = enabled } }

-- The balance that the full capital comes to.
abbrev pub target_balance : ℕ → Rows → ℤ
target_balance strategy_margin s =
    pos full_sandbox_capital -ℤ pos (blocked_margin strategy_margin s)

-- The account at the highest tier. The daily loss is measured on the initial balance.
abbrev pub unlocked : VirtualAccount → VirtualAccount
unlocked a = record a {
  tier = Tier.tier_3;
  capital_unlocked = true;
  initial_balance =
      if ltb a.initial_balance full_sandbox_capital
      then full_sandbox_capital
      else a.initial_balance;
}

-- The balance is raised to the target and never lowered.
unfoldable pub top_up : ℤ → Action (Unit {0})
top_up target s =
    if ltb_ℤ s.account.balance target then adjust (target -ℤ s.account.balance) s else (ok tt, s)

unfoldable pub unlock : ℕ → Action (Unit {0})
unlock strategy_margin s =
    (top_up (target_balance strategy_margin s)
        >> modify (λ s. record s { account = unlocked s.account }))
      s

unfoldable pub set_mode : ℕ → Bool → Action Mode
set_mode strategy_margin enabled =
    modify (with_mode enabled) >> (if enabled then pure tt else unlock strategy_margin) >> get_mode
