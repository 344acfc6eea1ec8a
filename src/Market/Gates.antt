-- ===== src/Market/Gates.antt =====
-- What the staleness contract lets through.
use strikefluency.Prelude.{ℕ, ◌-◌, ◌*◌, ◌/◌, ◌≤◌, ◌≡◌, true, false, none, some, ◌≢◌, ◌↔◌, arith}
use strikefluency.Market.Chain.{
  Source, OptionChain, Env, unavailable, mock, mock_fallback, live, at,
}
use strikefluency.Market.Staleness.{age_ms, is_live_source, is_tradeable, stamp}

-- In production a sweep may trigger on a chain exactly when the chain is from a live source or
-- names none, its age is known, and the age is within the limit for opening orders.
pub is_tradeable-production_iff :
    (env : Env) (chain : OptionChain)
    → env.settings.is_production ≡ true
    → (is_tradeable env chain ≡ true
        → (is_live_source chain ≡ true)
          × ((age : ℕ) × (age_ms env.now chain ≡ some age)
              × (age ≤ env.settings.market_order_block_seconds * 1000)))
      × ((age : ℕ)
          → is_live_source chain ≡ true
          → age_ms env.now chain ≡ some age
          → age ≤ env.settings.market_order_block_seconds * 1000
          → is_tradeable env chain ≡ true)
unfolding is_tradeable
is_tradeable-production_iff env chain prod = (λ h. ground arith, λ age l e k. ground arith)

-- A payload stamped with a usable instant of the past is judged by its age alone outside
-- production: it is tradeable exactly when it is not from the source `unavailable` and no more
-- than the limit has passed since that instant.
stamp-is_tradeable :
    (env : Env) (chain : OptionChain) (epoch : ℕ) (source : Source)
    → env.settings.is_production ≡ false
    → chain.source ≡ none
    → source ≢ unavailable
    → let stamped = (stamp env chain (at epoch) source).0 in
      (is_tradeable env stamped ≡ true)
      ↔ ((env.now - epoch) / 1000 ≤ env.settings.market_order_block_seconds * 1000)
unfolding is_tradeable stamp
stamp-is_tradeable env chain epoch unavailable prod none_yet ne = absurd (ne (ground arith))
stamp-is_tradeable env chain epoch mock prod none_yet ne = ground arith
stamp-is_tradeable env chain epoch mock_fallback prod none_yet ne = ground arith
stamp-is_tradeable env chain epoch live prod none_yet ne = ground arith
