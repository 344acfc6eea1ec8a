-- ===== src/DisciplineMode/Unlocking.antt =====
-- What the master switch does to the account.
use strikefluency.Prelude.{
  sym, ◌∙◌, ltb_ℤ_iff, inl, ltb_ℤ, refl, Bool-cases, larger, true, ap, arith, ◌≢◌, false, inr,
  int_laws, ◌-ℤ◌, ◌⊎◌, Bool, pos, ◌+ℤ◌, ◌<ℤ◌, ◌≡◌, ◌≤ℤ◌, ℕ, ℤ,
}
use strikefluency.Models.Records.{Rows}
use strikefluency.DisciplineMode.Switch.{
  get_mode, full_sandbox_capital, mode_of, Mode, unlock, set_mode, top_up, with_mode,
  target_balance, unlocked,
}
use strikefluency.Ledger.{adjust, ledger_row, apply_row}
use strikefluency.Action.{◌>>◌, modify, err, ok, Result}
use strikefluency.Models.Terms.{LedgerRef, LedgerTxnType, Tier}
use strikefluency.Ledger.Credits.{SameTables}
use strikefluency.Ledger.Balance.{post-covered, IsReconciled, apply_row-IsReconciled}
use strikefluency.Action.Sequence.{>>=-ok}

-- The switch is off, from the rows `s`: all of the capital is there, and nothing else has changed.
pub record SwitchedOff (strategy_margin : ℕ) (s s' : Rows) : Type 0 where
  pub enabled_eq : s'.account.discipline_mode_enabled ≡ false
  pub tier_eq : s'.account.tier ≡ Tier.tier_3
  pub unlocked_eq : s'.account.capital_unlocked ≡ true
  pub initial_eq :
      s'.account.initial_balance ≡ larger s.account.initial_balance full_sandbox_capital
  pub reached : target_balance strategy_margin s ≤ℤ s'.account.balance
  pub kept : s.account.balance ≤ℤ s'.account.balance
  pub no_more :
      (s'.account.balance ≡ s.account.balance)
      ⊎ (s'.account.balance ≡ target_balance strategy_margin s)
  pub streak_eq :
      s'.account.consecutive_disciplined_trades ≡ s.account.consecutive_disciplined_trades
  pub score_eq : s'.account.discipline_score ≡ s.account.discipline_score
  pub orders_eq : s'.orders ≡ s.orders
  pub positions_eq : s'.positions ≡ s.positions
  pub pendings_eq : s'.pendings ≡ s.pendings
  pub rules_eq : s'.rules ≡ s.rules
  pub next_id_eq : s'.next_id ≡ s.next_id
  pub reconciled : IsReconciled s → IsReconciled s'

-- How a call of the switch ends.
abbrev pub Switched : ℕ → Bool → Rows → Result Mode × Rows → Type 0
Switched m enabled s (err e, s') = ⊥
Switched m true s (ok mode, s') = (mode ≡ mode_of s') × (s' ≡ with_mode true s)
Switched m false s (ok mode, s') = (mode ≡ mode_of s') × SwitchedOff m s s'

le_self : (a : ℤ) → a ≤ℤ a
le_self a = omega int_laws

weaken : (a b : ℤ) → a <ℤ b → a ≤ℤ b
weaken a b h = omega int_laws

gap_covered : (a b : ℤ) → pos 0 ≤ℤ a → a <ℤ b → pos 0 ≤ℤ a +ℤ (b -ℤ a)
gap_covered a b h k = omega int_laws

gap_closed : (a b : ℤ) → a +ℤ (b -ℤ a) ≡ b
gap_closed a b = omega int_laws

+ℤ_zero : (a : ℤ) → a ≡ a +ℤ pos 0
+ℤ_zero a = omega int_laws

less_self : (a : ℤ) → ¬ (a <ℤ a)
less_self a h = omega arith

gap_ne : (a b : ℤ) → a <ℤ b → b -ℤ a ≢ pos 0
gap_ne a b h e =
    let same : a ≡ b = +ℤ_zero a ∙ ap (λ g. a +ℤ g) (sym e) ∙ gap_closed a b in
    less_self b (rw same at h)

-- The rows with the balance raised to the target.
record ToppedUp (target : ℤ) (s t : Rows) : Type 0 where
  reached : target ≤ℤ t.account.balance
  kept : s.account.balance ≤ℤ t.account.balance
  no_more : (t.account.balance ≡ s.account.balance) ⊎ (t.account.balance ≡ target)
  account_eq : record t.account { balance = s.account.balance } ≡ s.account
  tables : SameTables s t
  reconciled : IsReconciled s → IsReconciled t

module _ (target : ℤ) (s : Rows) (floor : pos 0 ≤ℤ s.account.balance) where
  abbrev gap : ℤ
  gap = target -ℤ s.account.balance

  abbrev raised : Rows
  raised =
      apply_row (ledger_row LedgerTxnType.manual_adjustment gap LedgerRef.account s.account.id s) s

  raised-ToppedUp : s.account.balance <ℤ target → ToppedUp target s raised
  raised-ToppedUp below =
      let closed = gap_closed s.account.balance target in
      record {
        reached = rw closed (le_self target);
        kept = rw closed (weaken s.account.balance target below);
        no_more = inr closed;
        account_eq = refl;
        tables = ground arith;
        reconciled = λ h.
            apply_row-IsReconciled LedgerTxnType.manual_adjustment gap LedgerRef.account
              s.account.id s h (gap_covered s.account.balance target floor below);
      }

  top_up-ToppedUp : (t : Rows) × (top_up target s ≡ (ok tt, t)) × ToppedUp target s t
  unfolding top_up adjust
  top_up-ToppedUp = elim (Bool-cases (ltb_ℤ s.account.balance target)) [
    | inl short ↦
        let below = (ltb_ℤ_iff s.account.balance target).0 short in
        (
          raised,
          rw short (
              post-covered LedgerTxnType.manual_adjustment gap LedgerRef.account s.account.id s
                (gap_ne s.account.balance target below)
                (gap_covered s.account.balance target floor below)),
          raised-ToppedUp below,
        )
    | inr enough ↦ (
      s,
      rw enough refl,
      record {
        reached = (ltb_ℤ_iff s.account.balance target).1 enough;
        kept = le_self s.account.balance;
        no_more = inl refl;
        account_eq = refl;
        tables = ground arith;
        reconciled = λ h. h;
      },
    )
  ]

abbrev unlocked_rows : Rows → Rows
unlocked_rows t = record t { account = unlocked t.account }

ToppedUp-SwitchedOff :
    (m : ℕ) (s t : Rows)
    → ToppedUp (target_balance m s) (with_mode false s) t
    → SwitchedOff m s (unlocked_rows t)
ToppedUp-SwitchedOff m s t h = record {
  enabled_eq = ap (λ a. a.discipline_mode_enabled) h.account_eq;
  tier_eq = refl;
  unlocked_eq = refl;
  initial_eq = ap (λ a. larger a.initial_balance full_sandbox_capital) h.account_eq;
  reached = h.reached;
  kept = h.kept;
  no_more = h.no_more;
  streak_eq = ap (λ a. a.consecutive_disciplined_trades) h.account_eq;
  score_eq = ap (λ a. a.discipline_score) h.account_eq;
  orders_eq = h.tables.orders_eq;
  positions_eq = h.tables.positions_eq;
  pendings_eq = h.tables.pendings_eq;
  rules_eq = h.tables.rules_eq;
  next_id_eq = h.tables.next_id_eq;
  reconciled = h.reconciled;
}

module _ (m : ℕ) (s : Rows) (floor : pos 0 ≤ℤ s.account.balance) where
  switch_off :
      (t : Rows) × (set_mode m false s ≡ (ok (mode_of (unlocked_rows t)), unlocked_rows t))
      × ToppedUp (target_balance m s) (with_mode false s) t
  unfolding set_mode unlock
  switch_off =
      let (t, ran, h) = top_up-ToppedUp (target_balance m s) (with_mode false s) floor in
      let paid =
        >>=-ok (top_up (target_balance m s)) (λ _. modify unlocked_rows) (with_mode false s) t tt
          ran in
      (
        t,
        >>=-ok (modify (with_mode false) >> unlock m) (λ _. get_mode) s (unlocked_rows t) tt paid,
        h,
      )

  -- The master switch never raises, with a balance not below zero. On, it changes the one flag.
  -- Off, it raises the balance to ten lakh rupees less the margin that open positions and
  -- strategies block, or leaves it where it is no lower, raises the initial balance to ten lakh,
  -- moves the account to the highest tier and changes no order, position or rule, nor the score and
  -- the streak; the ledger stays reconciled. The mode returned is that of the account.
  pub set_mode-Switched : (enabled : Bool) → Switched m enabled s (set_mode m enabled s)
  unfolding set_mode
  set_mode-Switched true = (refl, refl)
  set_mode-Switched false =
      let (t, ran, h) = switch_off in rw ran (refl, ToppedUp-SwitchedOff m s t h)

  -- The rows after the switch is off.
  pub switched_off : (t : Rows) × (set_mode m false s ≡ (ok (mode_of t), t)) × SwitchedOff m s t
  switched_off =
      let (t, ran, h) = switch_off in (unlocked_rows t, ran, ToppedUp-SwitchedOff m s t h)
