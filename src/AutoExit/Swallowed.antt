-- ===== src/AutoExit/Swallowed.antt =====
-- A sweep that meets a close which raises: the exception is caught and the tick commits.
use strikefluency.AutoExit.Sweep.{exit_if}
use strikefluency.Orders.CloseOutcome.{close_position-Settles, exit_of}
use strikefluency.Market.{OptionChain, Env}
use strikefluency.Models.Records.{Rows, VirtualOrder}
use strikefluency.Models.Terms.{is_open_status, ExitReason}
use strikefluency.Prelude.{refl, ◌<ℤ◌, find, ◌+ℤ◌, true, ◌≤ℤ◌, pos, some, ◌≡◌, ℕ}
use strikefluency.Orders.Queries.{of_order, find_order}
use strikefluency.Clock.{is_market_open}
use strikefluency.Orders.Close.{margin_of}
use strikefluency.Orders.Closing.{Abandoned}

module _ (env : Env) (o : VirtualOrder) (reason : ExitReason) (ltp : ℕ) (chain : OptionChain)
    (s : Rows) (priced : env.get_option_chain o.instrument ≡ some chain)
    (floor : pos 0 ≤ℤ s.account.balance) (found : find_order o.id s ≡ some o) where
  -- With the market open, an order found and open, the chain to be had and a balance not below
  -- zero: an automatic exit whose loss the balance and the margin do not cover counts as not closed, and
  -- yet leaves in the rows that the tick commits the order and its position closed and the margin
  -- paid back, with the loss not taken from the balance and no journal entry.
  pub exit_if-forgives :
      is_market_open env.now ≡ true
      → is_open_status o.status ≡ true
      → s.account.balance
          +ℤ pos (margin_of (find (of_order o.id) s.positions))
          +ℤ (exit_of env o reason (some ltp) chain s priced floor found).net_pnl
        <ℤ pos 0
      → let (closed, s') = exit_if env o ltp (some reason) s in
        (closed ≡ 0)
        × Abandoned env o reason
            (exit_of env o reason (some ltp) chain s priced floor found)
            (margin_of (find (of_order o.id) s.positions))
            s
            s'
  unfolding exit_if
  exit_if-forgives opened live short =
      let settles =
        close_position-Settles env o reason (some ltp) chain s priced floor found opened live in
      let (raised, left) = settles.1 short in rw raised (refl, left)
