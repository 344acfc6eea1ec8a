-- ===== src/Market/Chain.antt =====
-- The option chain that a market-data provider returns, and what a service call reads besides the
-- rows. The providers and the clock are the environment `Env`: what they return is arbitrary.
use strikefluency.Prelude.{
  ℕ, Bool, Option, none, some, List, [], ◌∷◌, ◌==◌, ltb, if◌then◌else◌, ◌≡◌, ◌<◌, arith,
}
use strikefluency.Models.Terms.{Instrument, OptionType}
use strikefluency.Pricing.{Draw}

-- The `source` of a chain: those of NON_LIVE_SOURCES, and any other.
pub data Source : Type 0 where
  unavailable mock mock_fallback live : Source

-- A value of `as_of` or `timestamp`: what `_to_epoch` makes of it, in microseconds.
pub data Stamp : Type 0 where
  unusable : Stamp
  at : ℕ → Stamp

-- One strike with the `ltp` of its two sides, where the provider gives one.
pub record StrikeQuote : Type 0 where
  pub strike : ℕ
  pub ce : Option ℕ
  pub pe : Option ℕ

pub record OptionChain : Type 0 where
  pub atm_strike : Option ℕ
  pub strikes : List StrikeQuote
  pub source : Option Source
  pub age_ms : Option ℕ
  pub as_of : Option Stamp
  pub timestamp : Option Stamp

-- backend/app/config.py, the settings that the services read
pub record Settings : Type 0 where
  pub is_production : Bool
  pub market_tick_stale_seconds : ℕ
  pub market_order_block_seconds : ℕ
  pub default_cooldown_minutes : ℕ

-- `now` is the clock in microseconds (UTC) and `today` the `date.today()` of the server.
-- `get_option_chain` returns none where the provider raises, `provider_check` is the provider's
-- own `assert_orderable`, true where it has none, and `draw` is the random generator.
pub record Env : Type 0 where
  pub now : ℕ
  pub today : ℕ
  pub settings : Settings
  pub get_option_chain : Instrument → Option OptionChain
  pub provider_check : OptionChain → Bool
  pub draw : Draw

abbrev pub side_ltp : OptionType → StrikeQuote → Option ℕ
side_ltp OptionType.ce q = q.ce
side_ltp OptionType.pe q = q.pe

-- `Decimal(str(side.get("ltp", 0)))`, where a price of 0 is no price.
abbrev positive : Option ℕ → Option ℕ
positive none = none
positive (some ltp) = if ltb 0 ltp then some ltp else none

-- The first entry for the strike decides.
unfoldable pub quote_in : List StrikeQuote → ℕ → OptionType → Option ℕ
quote_in [] strike option_type = none
quote_in (q ∷ qs) strike option_type =
    if q.strike == strike then positive (side_ltp option_type q) else quote_in qs strike option_type

abbrev or_default : Option ℕ → ℕ → ℕ
or_default none d = d
or_default (some a) d = a

-- `_get_ltp_from_chain`: the premium, and the strike at the money.
unfoldable pub get_ltp_from_chain : OptionChain → ℕ → OptionType → Option ℕ × ℕ
unfolding quote_in
get_ltp_from_chain chain strike option_type =
    (quote_in chain.strikes strike option_type, or_default chain.atm_strike strike)

quote_in-pos :
    (qs : List StrikeQuote) (strike : ℕ) (option_type : OptionType) (ltp : ℕ)
    → quote_in qs strike option_type ≡ some ltp
    → 0 < ltp
unfolding quote_in
quote_in-pos [] strike option_type ltp h = ground arith
quote_in-pos (q ∷ qs) strike option_type ltp h =
    ground (arith, quote_in-pos qs strike option_type ltp)

-- A quote is never zero, on any chain.
pub get_ltp-pos :
    (chain : OptionChain) (strike : ℕ) (option_type : OptionType) (ltp : ℕ)
    → (get_ltp_from_chain chain strike option_type).0 ≡ some ltp
    → 0 < ltp
unfolding get_ltp_from_chain
get_ltp-pos chain strike option_type ltp h = quote_in-pos chain.strikes strike option_type ltp h
