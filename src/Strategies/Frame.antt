-- ===== src/Strategies/Frame.antt =====
-- What the checks of a strategy call leave alone, and how a call ends that fails without a
-- movement of money.
use strikefluency.Strategies.Book.{
  from_result, Ending, done, fails, found_or_fail, service, Run, checked, fail_if, Failure,
  StrategyBook, ◌>>=◌,
}
use strikefluency.Prelude.{true, arith, false, none, some, refl, Option, ◌∙◌, ◌≡◌, Bool}
use strikefluency.Strategies.Builder.{failed, passed, Checked}
use strikefluency.Action.{err, ok, Result, Action}
use strikefluency.Orders.Frame.{SameBooks, SameBooks-refl}
use strikefluency.Models.Records.{Rows}

-- No strategy, no position and no book of the other services has changed.
pub record Unchanged (b b' : StrategyBook) : Type 0 where
  pub books_eq : SameBooks b.rows b'.rows
  pub strategies_eq : b'.strategies ≡ b.strategies
  pub positions_eq : b'.positions ≡ b.positions

abbrev pub KeepsMoney : StrategyBook → StrategyBook → Type 0
KeepsMoney b b' = (b'.rows.account ≡ b.rows.account) × (b'.rows.ledger ≡ b.rows.ledger)

pub Unchanged-refl : (b : StrategyBook) → Unchanged b b
Unchanged-refl b = record {
  books_eq = SameBooks-refl b.rows;
  strategies_eq = refl;
  positions_eq = refl;
}

pub Unchanged-money : (b b' : StrategyBook) → Unchanged b b' → KeepsMoney b b'
Unchanged-money b b' h = (h.books_eq.account_eq, h.books_eq.ledger_eq)

pub KeepsMoney-trans : (a b c : StrategyBook) → KeepsMoney a b → KeepsMoney b c → KeepsMoney a c
KeepsMoney-trans a b c (h, h') (k, k') = (k ∙ h, k' ∙ h')

module _ {A : Type 0} where
  -- A call that leaves everything alone, however it ends.
  abbrev pub Checks : StrategyBook → Ending A × StrategyBook → Type 0
  Checks b p = Unchanged b p.1

  from_result-Checks :
      (p : Result A × Rows) (b : StrategyBook) → SameBooks b.rows p.1 → Checks b (from_result p b)
  from_result-Checks (ok a, s) b h = record {
    books_eq = h;
    strategies_eq = refl;
    positions_eq = refl;
  }
  from_result-Checks (err e, s) b h = record {
    books_eq = h;
    strategies_eq = refl;
    positions_eq = refl;
  }

  pub service-Checks :
      (act : Action A) (b : StrategyBook)
      → SameBooks b.rows (act b.rows).1
      → Checks b (service act b)
  service-Checks act b h = from_result-Checks (act b.rows) b h

  pub found_or_fail-Checks :
      (e : Failure) (o : Option A) (b : StrategyBook) → Checks b (found_or_fail e o b)
  found_or_fail-Checks e none b = Unchanged-refl b
  found_or_fail-Checks e (some a) b = Unchanged-refl b

  pub checked-Checks : (c : Checked A) (b : StrategyBook) → Checks b (checked c b)
  checked-Checks (passed a) b = Unchanged-refl b
  checked-Checks (failed c) b = Unchanged-refl b

pub fail_if-Checks : (c : Bool) (e : Failure) (b : StrategyBook) → Checks b (fail_if c e b)
fail_if-Checks c e b = Unchanged-refl b

pub fail_if-passed :
    (c : Bool) (e : Failure) (b c' : StrategyBook) → fail_if c e b ≡ (done tt, c') → c ≡ false
fail_if-passed true e b c' h = absurd (ground arith)
fail_if-passed false e b c' h = refl

pub found_or_fail-found :
    {A : Type 0} (e : Failure) (o : Option A) (b c : StrategyBook) (a : A)
    → found_or_fail e o b ≡ (done a, c)
    → o ≡ some a
found_or_fail-found e none b c a h = absurd (ground arith)
found_or_fail-found e (some x) b c a h = ground arith

-- How a call ends: with `Good`, or with a failure and the money as it was.
module _ {B : Type 0} (Good : StrategyBook → B → StrategyBook → Type 0) where
  abbrev pub EndsWell : StrategyBook → Ending B × StrategyBook → Type 0
  EndsWell b (fails e, b') = KeepsMoney b b'
  EndsWell b (done a, b') = Good b a b'

  -- `Good` is judged from any book before the checks.
  module _
      (shift : (b c : StrategyBook) (a : B) (d : StrategyBook)
        → Unchanged b c
        → Good c a d
        → Good b a d) where
    EndsWell-shift :
        (b c : StrategyBook) (p : Ending B × StrategyBook)
        → Unchanged b c
        → EndsWell c p
        → EndsWell b p
    EndsWell-shift b c (fails e, d) h k = KeepsMoney-trans b c d (Unchanged-money b c h) k
    EndsWell-shift b c (done a, d) h k = shift b c a d h k

    EndsWell-bind :
        {A : Type 0} (p : Ending A × StrategyBook) (f : A → Run B) (b : StrategyBook)
        → Checks b p
        → ((a : A) (c : StrategyBook) → p ≡ (done a, c) → Unchanged b c → EndsWell c (f a c))
        → EndsWell b (((λ _. p) >>= f) b)
    EndsWell-bind (done a, c) f b h k = EndsWell-shift b c (f a c) h (k a c refl h)
    EndsWell-bind (fails e, c) f b h k = Unchanged-money b c h

    -- A call that leaves everything alone, followed by one that ends so.
    pub EndsWell-after :
        {A : Type 0} (m : Run A) (f : A → Run B) (b : StrategyBook)
        → Checks b (m b)
        → ((a : A) (c : StrategyBook) → m b ≡ (done a, c) → Unchanged b c → EndsWell c (f a c))
        → EndsWell b ((m >>= f) b)
    EndsWell-after m f b h k = EndsWell-bind (m b) f b h k

-- A weaker end.
pub EndsWell-weaken :
    {B : Type 0} (P Q : StrategyBook → B → StrategyBook → Type 0) (b : StrategyBook)
    (p : Ending B × StrategyBook)
    → ((a : B) (c : StrategyBook) → P b a c → Q b a c)
    → EndsWell P b p
    → EndsWell Q b p
EndsWell-weaken P Q b (fails e, c) h k = k
EndsWell-weaken P Q b (done a, c) h k = h a c k
