-- ===== src/Discipline/Score.antt =====
-- `update_discipline_score`. Its two queries run on the tables as last flushed (`autoflush=False`),
-- so they see the orders and the daily scores as they were before the close that calls it.
use strikefluency.Prelude.{
  ℕ, ◌+◌, ◌*◌, Bool, true, false, not, ◌&&◌, Option, none, some, List, [], ◌∷◌, ◌++◌, ◌==◌, length,
  take, find, select, modify_first, round_half_even,
}
use mathlib.Core.List.{reverse}
use strikefluency.Models.Terms.{is_open_status}
use strikefluency.Models.Records.{VirtualOrder, VirtualAccount, DisciplineScore, Rows}
use strikefluency.Market.{Env}

abbrev score_window : ℕ
score_window = 20

abbrev counts : VirtualOrder → Bool
counts o = not (is_open_status o.status) && not o.was_free_play

-- The newest twenty closed orders that the rules governed.
unfoldable pub recent_orders : List VirtualOrder → List VirtualOrder
recent_orders orders = take score_window (reverse (select counts orders))

abbrev one_if : Bool → ℕ
one_if true = 1
one_if false = 0

unfoldable pub count_compliant : List VirtualOrder → ℕ
count_compliant [] = 0
count_compliant (o ∷ orders) = one_if o.is_discipline_compliant + count_compliant orders

-- `round(compliant / total * 100, 2)`, in hundredths of a percent. With at most twenty orders the
-- quotient is never halfway between two such values.
unfoldable pub score_of : List VirtualOrder → ℕ
unfolding count_compliant round_half_even
score_of orders = round_half_even (count_compliant orders * 10_000) (length orders)

abbrev pub bump_streak : Bool → VirtualAccount → VirtualAccount
bump_streak true a = record a {
  consecutive_disciplined_trades = a.consecutive_disciplined_trades + 1;
}
bump_streak false a = record a { consecutive_disciplined_trades = 0 }

abbrev pub daily_score : Env → Rows → ℕ → DisciplineScore
daily_score env s total = record {
  score_date = env.today;
  score = s.account.discipline_score;
  trades_analyzed = total;
  violations_count = length (select (λ v. v.session_date == env.today) s.violations);
  consecutive_disciplined_streak = s.account.consecutive_disciplined_trades;
}

-- The row of the day is looked up in the table as flushed, and added where it is not found there.
abbrev pub put_daily_score : Env → DisciplineScore → Option DisciplineScore → Rows → Rows
put_daily_score env score none s = record s { scores = s.scores ++ (score ∷ []) }
put_daily_score env score (some _) s = record s {
  scores = modify_first (λ d. d.score_date == env.today) (λ _. score) s.scores;
}

abbrev pub rescore : Env → List VirtualOrder → Rows → Rows
rescore env [] s = s
rescore env (o ∷ recent) s =
    let s' : Rows = record s {
      account = record (s.account) { discipline_score = score_of (o ∷ recent) };
    } in
    put_daily_score env (daily_score env s' (length (o ∷ recent)))
      (find (λ d. d.score_date == env.today) s.db_scores) s'

unfoldable pub update_discipline_score : Env → Bool → Rows → Rows
update_discipline_score env was_compliant s =
    rescore env (recent_orders s.db_orders)
      (record s { account = bump_streak was_compliant s.account })
