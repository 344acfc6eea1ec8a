-- ===== src/Pricing/Brokerage.antt =====
-- backend/app/services/brokerage_calculator.py, in paise.
use strikefluency.Prelude.{ℕ, ◌+◌, ◌*◌, if◌then◌else◌, round_half_up}
use strikefluency.Models.Terms.{OrderAction, is_buy}

pub record BrokerageBreakdown : Type 0 where
  pub flat_brokerage : ℕ
  pub stt : ℕ
  pub exchange_charges : ℕ
  pub sebi_charges : ℕ
  pub gst : ℕ
  pub total : ℕ

abbrev pub flat_brokerage_fee : ℕ
flat_brokerage_fee = 2000

-- The rates are 0.0005, 0.00053, 10 in 10 000 000 and 0.18.
unfoldable pub calculate_brokerage : ℕ → ℕ → ℕ → OrderAction → BrokerageBreakdown
unfolding round_half_up
calculate_brokerage ltp quantity lot_size action =
    let turnover = ltp * quantity * lot_size in
    let stt : ℕ = if is_buy action then 0 else round_half_up (turnover * 5) 10_000 in
    let exchange_charges = round_half_up (turnover * 53) 100_000 in
    let sebi_charges = round_half_up (turnover * 10) 10_000_000 in
    let gst = round_half_up ((flat_brokerage_fee + exchange_charges) * 18) 100 in
    record {
      flat_brokerage = flat_brokerage_fee;
      stt = stt;
      exchange_charges = exchange_charges;
      sebi_charges = sebi_charges;
      gst = gst;
      total = flat_brokerage_fee + stt + exchange_charges + sebi_charges + gst;
    }

unfoldable pub calculate_round_trip_brokerage : ℕ → ℕ → ℕ → ℕ → ℕ
calculate_round_trip_brokerage entry_price exit_price quantity lot_size =
    let entry_cost = calculate_brokerage entry_price quantity lot_size OrderAction.buy in
    let exit_cost = calculate_brokerage exit_price quantity lot_size OrderAction.sell in
    entry_cost.total + exit_cost.total
