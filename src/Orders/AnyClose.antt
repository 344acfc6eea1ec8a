-- ===== src/Orders/AnyClose.antt =====
-- What holds of any close, whatever it comes to.
use mathlib.Core.Path.{subst}
use strikefluency.Market.{Env}
use strikefluency.Orders.Queries.{has_id, find_order}
use strikefluency.Models.Records.{Rows, VirtualOrder}
use strikefluency.Models.Terms.{is_open_status, Instrument, ExitReason}
use strikefluency.Prelude.{
  refl, sym, ◌∙◌, inr, ltb_ℤ_iff, Option-cases, inl, ltb_ℤ, Bool-cases, none, ◌≤ℤ◌, find-holds, pos,
  ◌+ℤ◌, ◌≢◌, ==_iff, some, true, ◌≡◌, Option, ℕ,
}
use strikefluency.Orders.Close.{close_position, Exit}
use strikefluency.Action.{Result}
use strikefluency.Orders.Frame.{SameBooks-refl, SameBooks}
use strikefluency.Clock.{is_market_open}
use strikefluency.Orders.CloseOutcome.{close_position-Settles, close_position-refused, Settles}
use strikefluency.Orders.Closing.{status_of-closed, Abandoned, Closed}
use strikefluency.Orders.Done.{is_done-found, is_done-missing, is_done}

-- The order that is found for an id has that id.
pub find_order-id : (id : ℕ) (s : Rows) (o : VirtualOrder) → find_order id s ≡ some o → o.id ≡ id
unfolding find_order
find_order-id id s o found = (==_iff o.id id).0 (find-holds (has_id id) s.orders o found)

-- A relation that holds where nothing of the books has changed, where a close went through and
-- where one was abandoned, holds of every close.
module _ (env : Env) (reason : ExitReason) (exit_ltp : Option ℕ) (Q : Rows → Rows → Type 0)
    (same : (s t : Rows) → SameBooks s t → Q s t)
    (closed : (o : VirtualOrder) (x : Exit) (margin : ℕ) (s t : Rows)
      → Closed env o reason x margin s t
      → Q s t)
    (abandoned : (o : VirtualOrder) (x : Exit) (margin : ℕ) (s t : Rows)
      → Abandoned env o reason x margin s t
      → Q s t) where
  Settles-any :
      (o : VirtualOrder) (x : Exit) (margin : ℕ) (s : Rows) (r : Result VirtualOrder × Rows)
      → Settles env o reason x margin s r
      → Q s r.1
  Settles-any o x margin s r (through, short) =
      let after = s.account.balance +ℤ pos margin +ℤ x.net_pnl in
      elim (Bool-cases (ltb_ℤ after (pos 0))) [
        | inl below ↦
            let (_, h) = short ((ltb_ℤ_iff after (pos 0)).0 below) in abandoned o x margin s r.1 h
        | inr enough ↦
            let (_, h) = through ((ltb_ℤ_iff after (pos 0)).1 enough) in closed o x margin s r.1 h
      ]

  module _ (s : Rows) (floor : pos 0 ≤ℤ s.account.balance) where
    close_live :
        (o : VirtualOrder)
        → is_market_open env.now ≡ true
        → is_open_status o.status ≡ true
        → find_order o.id s ≡ some o
        → Q s (close_position env o.id reason exit_ltp s).1
    close_live o opened live own = elim (Option-cases (env.get_option_chain o.instrument)) [
      | inl down ↦
          let (_, books) =
            (close_position-refused env reason exit_ltp s o.id).3 o opened own live down in
          same s _ books
      | inr (chain, priced) ↦
          Settles-any o _ _ s _
            (close_position-Settles env o reason exit_ltp chain s priced floor own opened live)
    ]

    pub close_position-any : (id : ℕ) → Q s (close_position env id reason exit_ltp s).1
    close_position-any id =
        let (shut_out, missing_out, done_out, _) =
          close_position-refused env reason exit_ltp s id in
        elim (Bool-cases (is_market_open env.now)) [
          | inr shut ↦ rw (shut_out shut) (same s s (SameBooks-refl s))
          | inl opened ↦ elim (Option-cases (find_order id s)) [
            | inl missing ↦ rw (missing_out opened missing) (same s s (SameBooks-refl s))
            | inr (o, found) ↦ elim (Bool-cases (is_open_status o.status)) [
              | inr done ↦ rw (done_out o opened found done) (same s s (SameBooks-refl s))
              | inl live ↦
                  let e = find_order-id id s o found in
                  let own : find_order o.id s ≡ some o =
                    subst (λ i. find_order i s ≡ some o) (sym e) found in
                  subst (λ i. Q s (close_position env i reason exit_ltp s).1) e
                    (close_live o opened live own)
            ]
          ]
        ]

Settles-done :
    (env : Env) (o : VirtualOrder) (reason : ExitReason) (x : Exit) (margin : ℕ) (s : Rows)
    (r : Result VirtualOrder × Rows)
    → Settles env o reason x margin s r
    → is_done o.id r.1.orders ≡ true
unfolding find_order
Settles-done env o reason x margin s r (through, short) =
    let after = s.account.balance +ℤ pos margin +ℤ x.net_pnl in
    elim (Bool-cases (ltb_ℤ after (pos 0))) [
      | inl below ↦
          let (_, h) = short ((ltb_ℤ_iff after (pos 0)).0 below) in
          is_done-found o.id r.1.orders _ h.found ∙ rw (status_of-closed reason) refl
      | inr enough ↦
          let (_, h) = through ((ltb_ℤ_iff after (pos 0)).1 enough) in
          is_done-found o.id r.1.orders _ h.found ∙ rw (status_of-closed reason) refl
    ]

-- With the market open, the chains to be had and a balance not below zero: after a close, even one
-- that is refused for the money, no order is found open for the id.
pub close_position-done :
    (env : Env) (reason : ExitReason) (exit_ltp : Option ℕ) (s : Rows) (id : ℕ)
    → is_market_open env.now ≡ true
    → ((i : Instrument) → env.get_option_chain i ≢ none)
    → pos 0 ≤ℤ s.account.balance
    → is_done id (close_position env id reason exit_ltp s).1.orders ≡ true
unfolding find_order
close_position-done env reason exit_ltp s id opened priced floor =
    let (_, missing_out, done_out, _) = close_position-refused env reason exit_ltp s id in
    elim (Option-cases (find_order id s)) [
      | inl missing ↦ rw (missing_out opened missing) (is_done-missing id s.orders missing)
      | inr (o, found) ↦ elim (Bool-cases (is_open_status o.status)) [
        | inr gone ↦
            rw (done_out o opened found gone) (is_done-found id s.orders o found ∙ rw gone refl)
        | inl live ↦ elim (Option-cases (env.get_option_chain o.instrument)) [
          | inl down ↦ absurd (priced o.instrument down)
          | inr (chain, here) ↦
              let e = find_order-id id s o found in
              let own : find_order o.id s ≡ some o =
                subst (λ i. find_order i s ≡ some o) (sym e) found in
              subst (λ i. is_done i (close_position env i reason exit_ltp s).1.orders ≡ true) e
                (Settles-done env o reason _ _ s _
                  (close_position-Settles env o reason exit_ltp chain s here floor own opened live))
        ]
      ]
    ]
