-- ===== src/Discipline/Streak.antt =====
-- What the discipline score follows, and what its update leaves alone.
use native.Mathlib.Nat.{div-add-mod, mod-lt}
use native.Mathlib.Decide.{dec_lt}
use strikefluency.Prelude.{
  inr, sym, inl, select, ◌∙◌, Bool-cases, Option-cases, ap, if◌then◌else◌, exists, modify_first,
  ◌++◌, refl, [], false, ◌==◌, find, none, true, ◌%◌, ◌<◌, ◌+◌, ◌/◌, zero, suc, ◌∷◌, some, Option,
  length, ◌*◌, Bool, ◌≤◌, List, arith, round_half_even, ◌≡◌, ℕ,
}
use strikefluency.Models.Records.{
  DisciplineViolation, VirtualAccount, DisciplineScore, VirtualOrder, Rows,
}
use strikefluency.Discipline.Score.{
  daily_score, bump_streak, put_daily_score, rescore, update_discipline_score, recent_orders,
  score_of, count_compliant,
}
use strikefluency.Market.{Env}

-- What an update of the score changes of the rows: the account's streak and score, and the table
-- of daily scores.
pub record SameButScore (s s' : Rows) : Type 0 where
  pub balance_eq : s'.account.balance ≡ s.account.balance
  pub initial_eq : s'.account.initial_balance ≡ s.account.initial_balance
  pub mode_eq : s'.account.discipline_mode_enabled ≡ s.account.discipline_mode_enabled
  pub orders_eq : s'.orders ≡ s.orders
  pub positions_eq : s'.positions ≡ s.positions
  pub pendings_eq : s'.pendings ≡ s.pendings
  pub ledger_eq : s'.ledger ≡ s.ledger
  pub journal_eq : s'.journal ≡ s.journal
  pub sessions_eq : s'.sessions ≡ s.sessions
  pub next_id_eq : s'.next_id ≡ s.next_id
  pub violations_eq : s'.violations ≡ s.violations
  pub rules_eq : s'.rules ≡ s.rules
  pub leverage_eq : s'.leverage_enabled ≡ s.leverage_enabled
  pub flushed_eq : (s'.db_orders ≡ s.db_orders) × (s'.db_scores ≡ s.db_scores)

put_daily_score-frame :
    (env : Env) (score : DisciplineScore) (found : Option DisciplineScore) (s : Rows)
    → SameButScore s (put_daily_score env score found s)
put_daily_score-frame env score none s = ground arith
put_daily_score-frame env score (some _) s = ground arith

SameButScore-trans : (s t u : Rows) → SameButScore s t → SameButScore t u → SameButScore s u
SameButScore-trans s t u h k = ground arith

rescore-frame :
    (env : Env) (recent : List VirtualOrder) (s : Rows) → SameButScore s (rescore env recent s)
rescore-frame env [] s = ground arith
rescore-frame env (o ∷ recent) s =
    let t : Rows = record s {
      account = record (s.account) { discipline_score = score_of (o ∷ recent) };
    } in
    SameButScore-trans s t (rescore env (o ∷ recent) s) (ground arith) (
      put_daily_score-frame env (daily_score env t (length (o ∷ recent)))
        (find (λ d. d.score_date == env.today) s.db_scores) t)

-- An update of the score touches the streak, the score and the daily scores, and nothing else.
pub update_discipline_score-frame :
    (env : Env) (compliant : Bool) (s : Rows)
    → SameButScore s (update_discipline_score env compliant s)
unfolding update_discipline_score
update_discipline_score-frame env compliant s =
    let t : Rows = record s { account = bump_streak compliant s.account } in
    SameButScore-trans s t (rescore env (recent_orders s.db_orders) t) (bumped compliant)
      (rescore-frame env (recent_orders s.db_orders) t)
  where
    bumped : (b : Bool) → SameButScore s (record s { account = bump_streak b s.account })
    bumped true = ground arith
    bumped false = ground arith

count-le : (orders : List VirtualOrder) → count_compliant orders ≤ length orders
unfolding count_compliant
count-le [] = omega arith
count-le (o ∷ orders) = ground (arith, count-le orders)

mul_le : (n a b : ℕ) → a ≤ b → n * a ≤ n * b
mul_le n a b h = grind arith

-- With q * n + r = 10 000 c and c no more than n, the quotient is at most 10 000, and at 10 000
-- nothing remains to round.
quotient_le :
    (c n q r : ℕ) → c ≤ n → n * q + r ≡ c * 10_000 → r < n → (q ≤ 10_000) × (10_000 ≤ q → r ≡ 0)
quotient_le c n q r h e lt = (
  elim (dec_lt 10_000 q) [
    | yes big ↦ absurd (omega (arith, mul_le n 10_001 q big))
    | no small ↦ omega arith
  ],
  λ top. omega (arith, mul_le n 10_000 q top),
)

round_le : (c n : ℕ) → c ≤ n → round_half_even (c * 10_000) n ≤ 10_000
unfolding round_half_even
round_le c zero h = ground arith
round_le c (suc k) h =
    let n = suc k in
    let q =
      quotient_le c n (c * 10_000 / n) (c * 10_000 % n) h (div-add-mod (c * 10_000) n)
        (mod-lt (c * 10_000) (omega arith)) in
    ground (arith, q)

-- The discipline score lies between 0 and 100 percent.
score_of-le : (orders : List VirtualOrder) → score_of orders ≤ 10_000
unfolding score_of
score_of-le orders = round_le (count_compliant orders) (length orders) (count-le orders)

-- The orders that a score is computed from: none where no governed trade is closed, and then the
-- score stays.
abbrev pub score_after : List VirtualOrder → ℕ → ℕ
score_after [] old = old
score_after (o ∷ recent) old = score_of (o ∷ recent)

-- The account once its trade is scored: the streak is one longer after a compliant trade and over
-- after another, and the score is that of the recent orders.
abbrev pub scored_account : Bool → List VirtualOrder → VirtualAccount → VirtualAccount
scored_account compliant recent a = record a {
  consecutive_disciplined_trades = if compliant then a.consecutive_disciplined_trades + 1 else 0;
  discipline_score = score_after recent a.discipline_score;
}

-- The row of the day for an account as scored, over the recent orders and the violations.
abbrev pub day_score :
    ℕ → VirtualAccount → List VirtualOrder → List DisciplineViolation → DisciplineScore
day_score today a recent violations = record {
  score_date = today;
  score = a.discipline_score;
  trades_analyzed = length recent;
  violations_count = length (select (λ v. v.session_date == today) violations);
  consecutive_disciplined_streak = a.consecutive_disciplined_trades;
}

-- The daily scores with the row of a day: in the place of the first of that day where the flushed
-- table has one, and at the end where it has none.
abbrev pub with_day :
    DisciplineScore → Bool → List VirtualOrder → List DisciplineScore → List DisciplineScore
with_day d known [] scores = scores
with_day d true (o ∷ recent) scores =
    modify_first (λ e. e.score_date == d.score_date) (λ _. d) scores
with_day d false (o ∷ recent) scores = scores ++ (d ∷ [])

abbrev pub of_day : ℕ → DisciplineScore → Bool
of_day today d = d.score_date == today

exists-find :
    (today : ℕ) (found : Option DisciplineScore) (ds : List DisciplineScore)
    → find (of_day today) ds ≡ found
    → exists (of_day today) ds ≡ elim found [ none ↦ false | some _ ↦ true ]
exists-find today found [] h = rw (← h) refl
exists-find today found (d ∷ ds) h = elim (Bool-cases (of_day today d)) [
  | inl hit ↦ let here : some d ≡ found = rw hit at h in rw (hit, ← here) refl
  | inr miss ↦
      let later : find (of_day today) ds ≡ found = rw miss at h in
      rw miss (exists-find today found ds later)
]

put_daily_score-with_day :
    (env : Env) (o : VirtualOrder) (recent : List VirtualOrder) (s : Rows)
    → let d = day_score env.today s.account (o ∷ recent) s.violations in
      let s' = put_daily_score env d (find (of_day env.today) s.db_scores) s in
      (s'.account ≡ s.account)
      × (s'.scores ≡ with_day d (exists (of_day env.today) s.db_scores) (o ∷ recent) s.scores)
put_daily_score-with_day env o recent s =
    elim (Option-cases (find (of_day env.today) s.db_scores)) [
      | inl absent ↦ rw (absent, exists-find env.today none s.db_scores absent) (refl, refl)
      | inr (d, found) ↦ rw (found, exists-find env.today (some d) s.db_scores found) (refl, refl)
    ]

bump_streak-scored :
    (b : Bool) (a : VirtualAccount)
    → bump_streak b a ≡ record a {
      consecutive_disciplined_trades = if b then a.consecutive_disciplined_trades + 1 else 0;
    }
bump_streak-scored true a = refl
bump_streak-scored false a = refl

-- What an update of the score comes to.
pub update_discipline_score-scored :
    (env : Env) (compliant : Bool) (s : Rows)
    → let recent = recent_orders s.db_orders in
      let s' = update_discipline_score env compliant s in
      (s'.account ≡ scored_account compliant recent s.account)
      × (s'.scores
          ≡ with_day
              (day_score env.today s'.account recent s.violations)
              (exists (of_day env.today) s.db_scores)
              recent
              s.scores)
unfolding update_discipline_score
update_discipline_score-scored env compliant s = go (recent_orders s.db_orders)
  where
    go :
        (recent : List VirtualOrder)
        → let s' = rescore env recent (record s { account = bump_streak compliant s.account }) in
          (s'.account ≡ scored_account compliant recent s.account)
          × (s'.scores
              ≡ with_day
                  (day_score env.today s'.account recent s.violations)
                  (exists (of_day env.today) s.db_scores)
                  recent
                  s.scores)
    go [] = (bump_streak-scored compliant s.account, refl)
    go (o ∷ recent) =
        let a : VirtualAccount = record (bump_streak compliant s.account) {
          discipline_score = score_of (o ∷ recent);
        } in
        let (same, rows) = put_daily_score-with_day env o recent (record s { account = a }) in
        let scored =
          ap (λ (b : VirtualAccount). record b { discipline_score = score_of (o ∷ recent) })
            (bump_streak-scored compliant s.account) in
        (
          same ∙ scored,
          rows
              ∙ ap
                  (λ (b : VirtualAccount).
                    with_day (day_score env.today b (o ∷ recent) s.violations)
                      (exists (of_day env.today) s.db_scores) (o ∷ recent) s.scores)
                  (sym same),
        )
