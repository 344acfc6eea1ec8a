-- ===== src/Market/Staleness.antt =====
-- backend/app/market/freshness.py. Instants are microseconds, ages milliseconds. The payload of a
-- provider is an `OptionChain`; the RuntimeErrors are told apart by their cause.
use strikefluency.Prelude.{
  ℕ, ◌-◌, ◌*◌, ◌/◌, Bool, true, false, not, ◌&&◌, Option, none, some, ltb, if◌then◌else◌,
}
use strikefluency.Models.Terms.{Instrument}
use strikefluency.Action.{Action, quote_unavailable, raise, pure}
use strikefluency.Market.Chain.{
  Source, Stamp, OptionChain, Settings, Env, unavailable, mock, mock_fallback, live, unusable, at,
}

-- What `assert_orderable` finds: `fresh`, or the cause of its RuntimeError.
pub data Freshness : Type 0 where
  fresh not_available simulated no_timestamp too_old : Freshness

-- `chain.get("as_of") or chain.get("timestamp")`, and `_to_epoch` of it.
abbrev epoch_of : Option Stamp → Option Stamp → Option ℕ
epoch_of (some (at t)) timestamp = some t
epoch_of (some unusable) timestamp = none
epoch_of none (some (at t)) = some t
epoch_of none (some unusable) = none
epoch_of none none = none

-- `int(max(0, now - epoch) * 1000)` in milliseconds.
abbrev elapsed_ms : ℕ → ℕ → ℕ
elapsed_ms now epoch = (now - epoch) / 1000

abbrev age_from : ℕ → Option ℕ → Option ℕ → Option ℕ
age_from now (some age) epoch = some age
age_from now none none = none
age_from now none (some epoch) = some (elapsed_ms now epoch)

unfoldable pub age_ms : ℕ → OptionChain → Option ℕ
age_ms now chain = age_from now chain.age_ms (epoch_of chain.as_of chain.timestamp)

abbrev live_source : Option Source → Bool
live_source none = true
live_source (some live) = true
live_source (some unavailable) = false
live_source (some mock) = false
live_source (some mock_fallback) = false

abbrev is_unavailable : Option Source → Bool
is_unavailable (some unavailable) = true
is_unavailable _ = false

unfoldable pub is_live_source : OptionChain → Bool
is_live_source chain = live_source chain.source

abbrev judge_age : Settings → Option ℕ → Freshness
judge_age s none = if s.is_production then Freshness.no_timestamp else Freshness.fresh
judge_age s (some age) =
    if ltb (s.market_order_block_seconds * 1000) age then Freshness.too_old else Freshness.fresh

unfoldable pub assert_orderable : Env → OptionChain → Freshness
unfolding is_live_source age_ms
assert_orderable env chain =
    if is_unavailable chain.source
    then Freshness.not_available
    else if not (is_live_source chain) && env.settings.is_production
    then Freshness.simulated
    else judge_age env.settings (age_ms env.now chain)

abbrev is_fresh : Freshness → Bool
is_fresh Freshness.fresh = true
is_fresh _ = false

unfoldable pub is_tradeable : Env → OptionChain → Bool
unfolding assert_orderable
is_tradeable env chain = is_fresh (assert_orderable env chain)

abbrev or_source : Option Source → Source → Option Source
or_source none s = some s
or_source (some s) _ = some s

-- `stamp`: what the freshness fields of a payload become, with whether it is stale.
abbrev stamped : Env → OptionChain → Option ℕ → Source → OptionChain × Bool
stamped env chain none source =
    (record chain { as_of = none; age_ms = none; source = or_source chain.source source }, true)
stamped env chain (some epoch) source =
    let age = elapsed_ms env.now epoch in
    (
      record chain {
        as_of = some (at epoch);
        age_ms = some age;
        source = or_source chain.source source;
      },
      ltb (env.settings.market_tick_stale_seconds * 1000) age,
    )

abbrev epoch_of_stamp : Stamp → Option ℕ
epoch_of_stamp unusable = none
epoch_of_stamp (at t) = some t

unfoldable pub stamp : Env → OptionChain → Stamp → Source → OptionChain × Bool
stamp env chain as_of source = stamped env chain (epoch_of_stamp as_of) source

-- The `try` of the order paths: the chain, if the provider returns one that passes the
-- provider's own check and the shared one; each RuntimeError becomes QuoteUnavailableError.
abbrev check_chain : Env → Option OptionChain → Action OptionChain
check_chain env none = raise quote_unavailable
check_chain env (some chain) =
    if env.provider_check chain && is_tradeable env chain
    then pure chain
    else raise quote_unavailable

unfoldable pub fetch_orderable : Env → Instrument → Action OptionChain
unfolding is_tradeable
fetch_orderable env instrument = check_chain env (env.get_option_chain instrument)
