-- ===== src/Ledger/Balance.antt =====
-- The balance and its audit trail: every posted row records the movement that it made, and the
-- balance is the sum of all movements.
use strikefluency.Prelude.{
  ℕ, ◌≡◌, ℤ, pos, ◌+ℤ◌, ◌≤ℤ◌, ◌<ℤ◌, int_laws, List, [], ◌∷◌, ◌++◌, arith, ◌⊎◌, ◌≢◌, refl, sym, ap,
  ◌∙◌, inl, inr, Bool-cases, eqb_ℤ, ltb_ℤ,
}
use strikefluency.Models.Terms.{LedgerTxnType, LedgerRef}
use strikefluency.Models.Records.{VirtualFundLedger, Rows}
use strikefluency.Action.{ok, err, value_error, insufficient_balance}
use strikefluency.Ledger.Post.{ledger_row, apply_row, post}

-- The sum of the movements of a ledger.
abbrev pub total : List VirtualFundLedger → ℤ
total [] = pos 0
total (row ∷ rows) = row.amount +ℤ total rows

-- Each row starts from the balance `before` that the row above it left, and its own movement
-- leads to the balance that it records.
abbrev pub IsChained : ℤ → List VirtualFundLedger → ℤ → Type 0
IsChained before [] after = before ≡ after
IsChained before (row ∷ rows) after =
    (row.balance_before ≡ before)
    × (row.balance_after ≡ row.balance_before +ℤ row.amount)
    × (pos 0 ≤ℤ row.balance_after)
    × IsChained row.balance_after rows after

-- The account agrees with its ledger, from an opening balance of zero: the rows are an unbroken
-- chain of balances, none below zero, that ends in the account's balance.
abbrev pub IsReconciled : Rows → Type 0
IsReconciled s = IsChained (pos 0) s.ledger s.account.balance × (pos 0 ≤ℤ s.account.balance)

+ℤ_zero : (a : ℤ) → a +ℤ pos 0 ≡ a
+ℤ_zero a = omega int_laws

+ℤ_regroup : (a b c : ℤ) → a +ℤ b +ℤ c ≡ a +ℤ (b +ℤ c)
+ℤ_regroup a b c = omega int_laws

IsChained-total :
    (before : ℤ) (rows : List VirtualFundLedger) (after : ℤ)
    → IsChained before rows after
    → after ≡ before +ℤ total rows
IsChained-total before [] after h = sym h ∙ sym (+ℤ_zero before)
IsChained-total before (row ∷ rows) after (from, step, floor, rest) =
    IsChained-total row.balance_after rows after rest
    ∙ ap (λ b. b +ℤ total rows) (step ∙ ap (λ b. b +ℤ row.amount) from)
    ∙ +ℤ_regroup before row.amount (total rows)

IsChained-append :
    (before : ℤ) (rows : List VirtualFundLedger) (after : ℤ) (row : VirtualFundLedger)
    → IsChained before rows after
    → row.balance_before ≡ after
    → row.balance_after ≡ row.balance_before +ℤ row.amount
    → pos 0 ≤ℤ row.balance_after
    → IsChained before (rows ++ (row ∷ [])) row.balance_after
IsChained-append before [] after row h from step floor = (from ∙ sym h, step, floor, refl)
IsChained-append before (r ∷ rows) after row h from step floor =
    (h.0, h.1, h.2, IsChained-append r.balance_after rows after row h.3 from step floor)

-- In a reconciled account the balance is the sum of the ledger's movements.
pub balance-eq-total : (s : Rows) → IsReconciled s → s.account.balance ≡ total s.ledger
balance-eq-total s h = IsChained-total (pos 0) s.ledger s.account.balance h.0 ∙ omega int_laws

module _ (txn_type : LedgerTxnType) (amount : ℤ) (ref : LedgerRef) (id : ℕ) (s : Rows) where
  -- A posted row keeps the ledger reconciled.
  pub apply_row-IsReconciled :
      IsReconciled s
      → pos 0 ≤ℤ s.account.balance +ℤ amount
      → IsReconciled (apply_row (ledger_row txn_type amount ref id s) s)
  apply_row-IsReconciled (chain, floor) covered = (
    IsChained-append (pos 0) s.ledger s.account.balance (ledger_row txn_type amount ref id s) chain
        refl refl covered,
    covered,
  )

  pub post-flat : amount ≡ pos 0 → post txn_type amount ref id s ≡ (err value_error, s)
  unfolding post
  post-flat e = ground arith

  pub post-covered :
      amount ≢ pos 0
      → pos 0 ≤ℤ s.account.balance +ℤ amount
      → post txn_type amount ref id s ≡ (ok tt, apply_row (ledger_row txn_type amount ref id s) s)
  unfolding post
  post-covered ne covered = ground arith

  pub post-short :
      amount ≢ pos 0
      → s.account.balance +ℤ amount <ℤ pos 0
      → post txn_type amount ref id s ≡ (err insufficient_balance, s)
  unfolding post
  post-short ne short = ground arith

  -- A call of `post` ends in one of three ways: it refuses a zero amount with a ValueError, it
  -- refuses an amount that the balance does not cover, both with nothing written, or it appends
  -- one row with the movement and the balances before and after, sets the balance to the latter,
  -- which is not below zero, and changes no other table. The ledger stays reconciled throughout.
  pub post_cases :
      ((amount ≡ pos 0) × (post txn_type amount ref id s ≡ (err value_error, s)))
      ⊎ ((amount ≢ pos 0)
          × (s.account.balance +ℤ amount <ℤ pos 0)
          × (post txn_type amount ref id s ≡ (err insufficient_balance, s)))
      ⊎ ((amount ≢ pos 0)
          × (pos 0 ≤ℤ s.account.balance +ℤ amount)
          × (post txn_type amount ref id s
              ≡ (ok tt, apply_row (ledger_row txn_type amount ref id s) s))
          × (IsReconciled s → IsReconciled (post txn_type amount ref id s).1))
  post_cases = elim (Bool-cases (eqb_ℤ amount (pos 0))) [
    | inl flat ↦ let e : amount ≡ pos 0 = ground arith in inl (e, post-flat e)
    | inr moved ↦
        let ne : amount ≢ pos 0 = ground arith in
        elim (Bool-cases (ltb_ℤ (s.account.balance +ℤ amount) (pos 0))) [
          | inl short ↦
              let below : s.account.balance +ℤ amount <ℤ pos 0 = ground arith in
              inr (inl (ne, below, post-short ne below))
          | inr enough ↦
              let covered : pos 0 ≤ℤ s.account.balance +ℤ amount = ground arith in
              let posted = post-covered ne covered in
              inr (inr (ne, covered, posted, λ h. rw posted (apply_row-IsReconciled h covered)))
        ]
  ]
