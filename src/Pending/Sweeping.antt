-- ===== src/Pending/Sweeping.antt =====
-- The sweep over all resting orders.
use strikefluency.Pending.Trigger.{
  sweep_over, was_rejected, go_on, was_filled, left_resting, scan_and_fill, fill_each, fill_on,
  fill_quoted, try_fill, FillEnd, is_triggered,
}
use strikefluency.Market.{is_tradeable, OptionChain, Env}
use strikefluency.Models.Records.{PendingOrder, Rows}
use strikefluency.Prelude.{
  ◌∙◌, ap, ◌+◌, Option-cases, [], refl, false, none, inl, inr, ◌&&◌, some, ◌∷◌, ◌≡◌, Bool-cases,
  Option, ℕ, List,
}
use strikefluency.Models.Terms.{Instrument}
use strikefluency.Clock.{is_market_open}

-- An order whose chain is missing or not fresh is left alone.
fill_on-stale :
    (env : Env) (p : PendingOrder) (s : Rows)
    → ((chain : OptionChain)
        → env.get_option_chain p.instrument ≡ some chain
        → is_tradeable env chain ≡ false)
    → fill_on env p (env.get_option_chain p.instrument) s ≡ (left_resting, s)
unfolding fill_on
fill_on-stale env p s stale = elim (Option-cases (env.get_option_chain p.instrument)) [
  | inl down ↦ rw down refl
  | inr (chain, e) ↦ rw (e, stale chain e) refl
]

fill_each-stale :
    (env : Env) (ps : List PendingOrder) (n : ℕ) (s : Rows)
    → ((i : Instrument) (chain : OptionChain)
        → env.get_option_chain i ≡ some chain
        → is_tradeable env chain ≡ false)
    → fill_each env ps n s ≡ (n, s)
unfolding fill_each
fill_each-stale env [] n s stale = refl
fill_each-stale env (p ∷ ps) n s stale =
    ap (go_on (fill_each env ps) n) (fill_on-stale env p s (stale p.instrument))
    ∙ fill_each-stale env ps n s stale

-- While the market is shut, or on chains that are missing or not fresh, the sweep of limit orders
-- fills and rejects nothing and changes nothing.
pub scan_and_fill-held :
    (env : Env) (s : Rows)
    → ((i : Instrument) (chain : OptionChain)
        → env.get_option_chain i ≡ some chain
        → (is_market_open env.now && is_tradeable env chain) ≡ false)
    → scan_and_fill env s ≡ (0, s)
unfolding scan_and_fill
scan_and_fill-held env s holds = elim (Bool-cases (is_market_open env.now)) [
  | inr shut ↦ rw shut refl
  | inl opened ↦ rw opened (fill_each-stale env _ 0 s (λ i chain e. rw opened at (holds i chain e)))
]

-- What every commit of the sweep keeps, the sweep keeps.
module _ (env : Env) (P : Rows → Type 0)
    (keep : (p : PendingOrder) (s : Rows) → P s → P (try_fill env p.id s).1) where
  fill_quoted-keeps :
      (p : PendingOrder) (ltp : Option ℕ) (s : Rows) → P s → P (fill_quoted env p ltp s).1
  unfolding fill_quoted
  fill_quoted-keeps p none s h = h
  fill_quoted-keeps p (some ltp) s h = elim (Bool-cases (is_triggered p ltp)) [
    | inl hit ↦ rw hit (keep p s h)
    | inr miss ↦ rw miss h
  ]

  fill_on-keeps :
      (p : PendingOrder) (chain : Option OptionChain) (s : Rows) → P s → P (fill_on env p chain s).1
  unfolding fill_on
  fill_on-keeps p none s h = h
  fill_on-keeps p (some chain) s h = elim (Bool-cases (is_tradeable env chain)) [
    | inl fresh ↦ rw fresh (fill_quoted-keeps p _ s h)
    | inr stale ↦ rw stale h
  ]

  go_on-keeps :
      (rest : ℕ → Rows → ℕ × Rows) (n : ℕ) (r : FillEnd × Rows)
      → P r.1
      → ((m : ℕ) → P (rest m r.1).1)
      → P (go_on rest n r).1
  go_on-keeps rest n (was_filled, t) h k = k (n + 1)
  go_on-keeps rest n (was_rejected, t) h k = k n
  go_on-keeps rest n (left_resting, t) h k = k n
  go_on-keeps rest n (sweep_over, t) h k = h

  fill_each-keeps : (ps : List PendingOrder) (n : ℕ) (s : Rows) → P s → P (fill_each env ps n s).1
  unfolding fill_each
  fill_each-keeps [] n s h = h
  fill_each-keeps (p ∷ ps) n s h =
      let k = fill_on-keeps p (env.get_option_chain p.instrument) s h in
      go_on-keeps (fill_each env ps) n (fill_on env p (env.get_option_chain p.instrument) s) k
        (λ m. fill_each-keeps ps m _ k)

  pub scan_and_fill-keeps : (s : Rows) → P s → P (scan_and_fill env s).1
  unfolding scan_and_fill
  scan_and_fill-keeps s h = elim (Bool-cases (is_market_open env.now)) [
    | inr shut ↦ rw shut h
    | inl opened ↦ rw opened (fill_each-keeps _ 0 s h)
  ]
