-- ===== src/Pending/Expiry.antt =====
-- The end of the day: every resting order expires and its margin comes back.
use strikefluency.Pending.Park.{
  expire_each, expire_pending_orders, is_expiring, close_pending, close_and_refund, find_pending,
  has_pending_id,
}
use strikefluency.Pending.Reserve.{
  Returned, refunded, refunded-Returned, close_and_refund-refunded, worth, reserved,
}
use strikefluency.Prelude.{
  arith, length, none, ap, inl, sym, ◌∙◌, inr, Bool-cases, map, ==_iff, All-append, int_laws, refl,
  select, some, ◌+◌, ◌≤ℤ◌, [], false, find, if◌then◌else◌, modify_first, pos, sum_of, All, Option,
  ◌++◌, ◌+ℤ◌, ◌==◌, ◌∷◌, ◌≡◌, List, ℕ, ℤ,
}
use strikefluency.Market.{Env}
use strikefluency.Models.Records.{Rows, PendingOrder}
use strikefluency.Models.Terms.{is_pending_status, PendingOrderStatus}
use strikefluency.Ledger.Balance.{IsReconciled}
use strikefluency.Action.{pure, ok}
use strikefluency.Action.Sequence.{>>=-ok}

-- The two ids differ.
abbrev pub AreApart : PendingOrder → PendingOrder → Type 0
AreApart p q = (p.id == q.id) ≡ false

-- No two pending orders share an id.
abbrev pub HasDistinctIds : List PendingOrder → Type 0
HasDistinctIds [] = Unit
HasDistinctIds (p ∷ ps) = All (AreApart p) ps × HasDistinctIds ps

-- All of the first list apart from all of the second.
abbrev AllApart : List PendingOrder → List PendingOrder → Type 0
AllApart xs = All (λ y. All (λ x. AreApart x y) xs)

-- An order as the end of the day leaves it.
abbrev pub expired_if : Env → Option ℕ → PendingOrder → PendingOrder
expired_if env before p =
    if is_expiring before p then close_pending env PendingOrderStatus.expired p else p

AllApart-step :
    (xs ys : List PendingOrder) (y y' : PendingOrder)
    → y'.id ≡ y.id
    → AllApart xs ys
    → All (AreApart y) ys
    → AllApart (xs ++ (y' ∷ [])) ys
AllApart-step xs [] y y' e h k = tt
AllApart-step xs (z ∷ ys) y y' e (h, hs) (k, ks) =
    (All-append (λ x. AreApart x z) xs (y' ∷ []) h (rw e k, tt), AllApart-step xs ys y y' e hs ks)

find-apart :
    (xs ys : List PendingOrder) (y : PendingOrder)
    → All (λ x. AreApart x y) xs
    → find (has_pending_id y.id) (xs ++ (y ∷ ys)) ≡ some y
find-apart [] ys y h = rw ((==_iff y.id y.id).1 refl) refl
find-apart (x ∷ xs) ys y (h, hs) = rw h (find-apart xs ys y hs)

modify_first-apart :
    (f : PendingOrder → PendingOrder) (xs ys : List PendingOrder) (y : PendingOrder)
    → All (λ x. AreApart x y) xs
    → modify_first (has_pending_id y.id) f (xs ++ (y ∷ ys)) ≡ (xs ++ (f y ∷ [])) ++ ys
modify_first-apart f [] ys y h = rw ((==_iff y.id y.id).1 refl) refl
modify_first-apart f (x ∷ xs) ys y (h, hs) = rw (h, modify_first-apart f xs ys y hs) refl

snoc-append :
    (xs ys : List PendingOrder) (y : PendingOrder) → (xs ++ (y ∷ [])) ++ ys ≡ xs ++ (y ∷ ys)
snoc-append [] ys y = refl
snoc-append (x ∷ xs) ys y = rw (snoc-append xs ys y) refl

-- What expiring some orders comes to, from the rows `s`: the margins of the orders come back, and
-- the book becomes `book`.
pub record Expired (released : ℕ) (book : List PendingOrder) (s s' : Rows) : Type 0 where
  pub pendings_eq : s'.pendings ≡ book
  pub balance_eq : s'.account.balance ≡ s.account.balance +ℤ pos released
  pub worth_eq : worth s' ≡ worth s
  pub orders_eq : s'.orders ≡ s.orders
  pub positions_eq : s'.positions ≡ s.positions
  pub next_id_eq : s'.next_id ≡ s.next_id
  pub reconciled : IsReconciled s → IsReconciled s'

+ℤ_pos_pos : (b : ℤ) (m n : ℕ) → b +ℤ pos m +ℤ pos n ≡ b +ℤ pos (m + n)
+ℤ_pos_pos b m n = omega int_laws

+ℤ_pos_zero : (b : ℤ) → b ≡ b +ℤ pos 0
+ℤ_pos_zero b = omega int_laws

module _ (env : Env) (before : Option ℕ) where
  abbrev margins : List PendingOrder → ℕ
  margins ps = sum_of (λ (p : PendingOrder). p.margin_blocked) (select (is_expiring before) ps)

  -- The rest `ys` of the book `xs ++ ys` is expired, where `xs` has been.
  expire_each-Expired :
      (xs ys : List PendingOrder) (s : Rows)
      → s.pendings ≡ xs ++ ys
      → pos 0 ≤ℤ s.account.balance
      → HasDistinctIds ys
      → AllApart xs ys
      → (s' : Rows) × (expire_each env (select (is_expiring before) ys) s ≡ (ok tt, s'))
        × Expired (margins ys) (xs ++ map (expired_if env before) ys) s s'
  unfolding expire_each
  expire_each-Expired xs [] s e floor d a = (
    s,
    refl,
    record {
      pendings_eq = e;
      balance_eq = +ℤ_pos_zero s.account.balance;
      worth_eq = refl;
      orders_eq = refl;
      positions_eq = refl;
      next_id_eq = refl;
      reconciled = λ h. h;
    },
  )
  expire_each-Expired xs (y ∷ ys) s e floor (d, ds) (a, apart) =
      let f = close_pending env PendingOrderStatus.expired in
      elim (Bool-cases (is_expiring before y)) [
        | inr stays ↦
            let (s', ran, end) =
              expire_each-Expired (xs ++ (y ∷ [])) ys s (e ∙ sym (snoc-append xs ys y)) floor ds
                (AllApart-step xs ys y y refl apart d) in
            rw stays (
              s',
              ran,
              record {
                pendings_eq = end.pendings_eq ∙ snoc-append xs (map (expired_if env before) ys) y;
                balance_eq = end.balance_eq;
                worth_eq = end.worth_eq;
                orders_eq = end.orders_eq;
                positions_eq = end.positions_eq;
                next_id_eq = end.next_id_eq;
                reconciled = end.reconciled;
              },
            )
        | inl leaves ↦
            let found : find_pending y.id s ≡ some y = rw e (find-apart xs ys y a) in
            let t = refunded env PendingOrderStatus.expired y s floor in
            let back : Returned env PendingOrderStatus.expired y s t =
              refunded-Returned env PendingOrderStatus.expired y s floor found in
            let book : t.pendings ≡ (xs ++ (f y ∷ [])) ++ ys =
              back.pendings_eq ∙ rw e (modify_first-apart f xs ys y a) in
            let (s', ran, end) =
              expire_each-Expired (xs ++ (f y ∷ [])) ys t book back.floor ds
                (AllApart-step xs ys y (f y) refl apart d) in
            rw leaves (
              s',
              >>=-ok (close_and_refund env PendingOrderStatus.expired y)
                    (λ _. expire_each env (select (is_expiring before) ys)) s t tt
                    (close_and_refund-refunded env PendingOrderStatus.expired y s floor)
                  ∙ ran,
              record {
                pendings_eq =
                    end.pendings_eq ∙ snoc-append xs (map (expired_if env before) ys) (f y);
                balance_eq =
                    end.balance_eq
                    ∙ ap (λ b. b +ℤ pos (margins ys)) back.balance_eq
                    ∙ +ℤ_pos_pos s.account.balance y.margin_blocked (margins ys);
                worth_eq = end.worth_eq ∙ back.worth_eq;
                orders_eq = end.orders_eq ∙ back.orders_eq;
                positions_eq = end.positions_eq ∙ back.positions_eq;
                next_id_eq = end.next_id_eq ∙ back.next_id_eq;
                reconciled = λ h. end.reconciled (back.reconciled h);
              },
            )
      ]

  module _ (s : Rows) (distinct : HasDistinctIds s.pendings)
      (floor : pos 0 ≤ℤ s.account.balance) where
    apart_from_none : (ys : List PendingOrder) → AllApart [] ys
    apart_from_none [] = tt
    apart_from_none (y ∷ ys) = (tt, apart_from_none ys)

    -- With distinct ids and a balance not below zero: expiry returns the number of the orders that
    -- it takes, which are the resting ones, or those of them from trading days before the one
    -- given. Each of them becomes expired with nothing reserved and no other order changes; the
    -- sum of their margins comes back to the balance, balance and reserve together are what they
    -- were, and the ledger stays reconciled.
    pub expire_pending_orders-Expired :
        (s' : Rows) × (expire_pending_orders env before s
          ≡ (ok (length (select (is_expiring before) s.pendings)), s'))
        × Expired (margins s.pendings) (map (expired_if env before) s.pendings) s s'
    unfolding expire_pending_orders
    expire_pending_orders-Expired =
        let (s', ran, end) =
          expire_each-Expired [] s.pendings s refl floor distinct (apart_from_none s.pendings) in
        (
          s',
          >>=-ok {B = ℕ} (expire_each env (select (is_expiring before) s.pendings))
              (λ _. pure (length (select (is_expiring before) s.pendings))) s s' tt ran,
          end,
        )

-- What holds no money once it has left the book.
abbrev pub IsSettled : PendingOrder → Type 0
IsSettled p = is_pending_status p.status ≡ false → p.margin_blocked ≡ 0

none_rest :
    (env : Env) (ps : List PendingOrder)
    → All IsSettled ps
    → All (λ p. is_pending_status p.status ≡ false) (map (expired_if env none) ps)
      × (sum_of (λ (p : PendingOrder). p.margin_blocked) (map (expired_if env none) ps) ≡ 0)
none_rest env [] h = (tt, refl)
none_rest env (p ∷ ps) (h, hs) =
    let (done, zero_left) = none_rest env ps hs in
    elim (Bool-cases (is_pending_status p.status)) [
      | inl rests ↦ rw rests ((refl, done), omega (arith, zero_left))
      | inr gone ↦ rw gone ((gone, done), omega (arith, h gone, zero_left))
    ]

-- With distinct ids, a balance not below zero and nothing reserved by closed orders: after the
-- end-of-day expiry no order rests, nothing is reserved, and the whole reserve is back in the
-- balance. So a resting order never outlives its day.
pub expire_pending_orders_all :
    (env : Env) (s : Rows)
    → HasDistinctIds s.pendings
    → pos 0 ≤ℤ s.account.balance
    → All IsSettled s.pendings
    → let s' = (expire_pending_orders env none s).1 in
      All (λ p. is_pending_status p.status ≡ false) s'.pendings
      × (reserved s' ≡ 0)
      × (s'.account.balance ≡ worth s)
expire_pending_orders_all env s distinct floor settled =
    let (s', ran, end) = expire_pending_orders-Expired env none s distinct floor in
    let (done, zero_left) = none_rest env s.pendings settled in
    let empty : reserved s' ≡ 0 = rw end.pendings_eq zero_left in
    rw ran (
      rw end.pendings_eq done,
      empty,
      +ℤ_pos_zero s'.account.balance
          ∙ ap (λ r. s'.account.balance +ℤ pos r) (sym empty)
          ∙ end.worth_eq,
    )
