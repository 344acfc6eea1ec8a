-- ===== src/Ledger/Wallet.antt =====
-- What the ledger promises, without its rows: a wallet with one number, that takes a movement when
-- the result is not below zero.
use strikefluency.Ledger.Post.{post}
use strikefluency.Ledger.Balance.{IsReconciled, total, post_cases, balance-eq-total}
use strikefluency.Prelude.{
  ◌+ℤ◌, ltb_ℤ, refl, ap, pos, ◌∙◌, [], eqb_ℤ, sym, arith, if◌then◌else◌, inr, ℕ, ◌∷◌, inl, ◌≡◌,
  List, ℤ,
}
use strikefluency.Models.Terms.{LedgerRef, LedgerTxnType}
use strikefluency.Models.Records.{Rows}
use strikefluency.Action.{ok, insufficient_balance, value_error, err, Result}

-- The wallet refuses a movement of zero, and one that would overdraw it.
abbrev pub move : ℤ → ℤ → Result (Unit {0}) × ℤ
move amount balance =
    if eqb_ℤ amount (pos 0)
    then (err value_error, balance)
    else if ltb_ℤ (balance +ℤ amount) (pos 0)
    then (err insufficient_balance, balance)
    else (ok tt, balance +ℤ amount)

pub record Posting : Type 0 where
  pub txn_type : LedgerTxnType
  pub amount : ℤ
  pub ref : LedgerRef
  pub id : ℕ

-- The ends of the calls, in their order, and the last state.
abbrev pub post_all : List Posting → Rows → List (Result (Unit {0})) × Rows
post_all [] s = ([], s)
post_all (m ∷ ms) s =
    let (r, t) = post m.txn_type m.amount m.ref m.id s in let (rs, u) = post_all ms t in (r ∷ rs, u)

abbrev pub move_all : List Posting → ℤ → List (Result (Unit {0})) × ℤ
move_all [] b = ([], b)
move_all (m ∷ ms) b = let (r, c) = move m.amount b in let (rs, d) = move_all ms c in (r ∷ rs, d)

module _ (m : Posting) (s : Rows) where
  post-move :
      ((post m.txn_type m.amount m.ref m.id s).0 ≡ (move m.amount s.account.balance).0)
      × ((post m.txn_type m.amount m.ref m.id s).1.account.balance
          ≡ (move m.amount s.account.balance).1)
  unfolding post
  post-move = ground arith

  post-IsReconciled : IsReconciled s → IsReconciled (post m.txn_type m.amount m.ref m.id s).1
  post-IsReconciled h = elim (post_cases m.txn_type m.amount m.ref m.id s) [
    | inl (_, e) ↦ rw e h
    | inr (inl (_, _, e)) ↦ rw e h
    | inr (inr (_, _, _, keeps)) ↦ keeps h
  ]

cons_eq :
    (a b : Result (Unit {0})) (xs ys : List (Result (Unit {0}))) → a ≡ b → xs ≡ ys → a ∷ xs ≡ b ∷ ys
cons_eq a b xs ys h k = cc

-- Any sequence of postings, from a reconciled account, ends as the same movements of a wallet that
-- starts from the ledger's total: each call returns or raises alike, and the ledger's total comes
-- to what is left in the wallet, as does the balance of the account.
pub post_all-move_all :
    (ms : List Posting) (s : Rows)
    → IsReconciled s
    → let (ends, s') = post_all ms s in
      (ends ≡ (move_all ms (total s.ledger)).0)
      × (total s'.ledger ≡ (move_all ms (total s.ledger)).1)
      × (s'.account.balance ≡ (move_all ms (total s.ledger)).1)
post_all-move_all [] s h = (refl, refl, balance-eq-total s h)
post_all-move_all (m ∷ ms) s h =
    let t = (post m.txn_type m.amount m.ref m.id s).1 in
    let k = post-IsReconciled m s h in
    let (same_end, same_balance) = post-move m s in
    let start = balance-eq-total s h in
    let (ends, ledger, balance) = post_all-move_all ms t k in
    let from : total t.ledger ≡ (move m.amount (total s.ledger)).1 =
      sym (balance-eq-total t k) ∙ same_balance ∙ ap (λ b. (move m.amount b).1) start in
    (
      cons_eq _ _ _ _ (same_end ∙ ap (λ b. (move m.amount b).0) start)
          (ends ∙ ap (λ b. (move_all ms b).0) from),
      ledger ∙ ap (λ b. (move_all ms b).1) from,
      balance ∙ ap (λ b. (move_all ms b).1) from,
    )
