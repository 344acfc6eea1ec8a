-- ===== src/Orders/Protection.antt =====
-- `update_order_protection`, `update_order_exit_limit` and `update_position_ltp` of
-- virtual_order_service.py. Prices come in whole paise, as the columns store them.
use strikefluency.Orders.Queries.{find_order, put_order, open_of_order}
use strikefluency.Discipline.{enabled_of, is_none}
use strikefluency.Action.{
  order_already_closed, order_not_found, discipline_violation, ok, err, order_exit_limit,
  order_protection, Action, Error,
}
use strikefluency.Models.Terms.{is_open_status, DisciplineRuleCode, rule_code_eq, OrderAction}
use strikefluency.Models.Records.{DisciplineRule, Rows, VirtualOrder, VirtualPosition}
use strikefluency.Prelude.{
  not, modify_first, leb, none, some, false, ◌&&◌, ◌==◌, ◌||◌, Bool, find, if◌then◌else◌, List,
  Option, ℕ,
}
use strikefluency.Pricing.{calculate_pnl}

abbrev pub zero_price : Option ℕ → Bool
zero_price none = false
zero_price (some p) = p == 0

-- `position.current_ltp or order.entry_price`
abbrev pub reference_price : VirtualPosition → VirtualOrder → ℕ
reference_price p o = if p.current_ltp == 0 then o.entry_price else p.current_ltp

abbrev pub sl_wrong_side : OrderAction → ℕ → Option ℕ → Bool
sl_wrong_side action reference none = false
sl_wrong_side OrderAction.buy reference (some sl) = leb reference sl
sl_wrong_side OrderAction.sell reference (some sl) = leb sl reference

abbrev pub target_wrong_side : OrderAction → ℕ → Option ℕ → Bool
target_wrong_side action reference none = false
target_wrong_side OrderAction.buy reference (some target) = leb target reference
target_wrong_side OrderAction.sell reference (some target) = leb reference target

-- The first active row of the rule; no row counts as enabled.
abbrev pub mandatory_sl_enabled : List DisciplineRule → Bool
mandatory_sl_enabled rules =
    enabled_of
      (find (λ r. rule_code_eq r.rule_code DisciplineRuleCode.mandatory_sl && r.is_active) rules)

abbrev pub sl_missing : Rows → Option ℕ → Bool
sl_missing s sl = s.account.discipline_mode_enabled && mandatory_sl_enabled s.rules && is_none sl

abbrev pub with_protection : Option ℕ → Option ℕ → VirtualOrder → VirtualOrder
with_protection sl target o = record o { sl_price = sl; target_price = target }

unfoldable pub protect : VirtualOrder → VirtualPosition → Option ℕ → Option ℕ → Action VirtualOrder
protect o p sl target s =
    if zero_price sl || zero_price target
    then (err order_protection, s)
    else if sl_missing s sl
    then (err (discipline_violation DisciplineRuleCode.mandatory_sl), s)
    else if sl_wrong_side o.action (reference_price p o) sl
    then (err order_protection, s)
    else if target_wrong_side o.action (reference_price p o) target
    then (err order_protection, s)
    else (ok (with_protection sl target o), put_order o.id (with_protection sl target) s)

-- The checks that both instructions share: the order is there, open and no strategy leg, and its
-- open position is there. `refusal` is the error of the last two.
unfoldable pub guarded :
    Error → (VirtualOrder → VirtualPosition → Action VirtualOrder) → ℕ → Action VirtualOrder
guarded refusal act order_id s = elim (find_order order_id s) [
  | none ↦ (err order_not_found, s)
  | some o ↦
      if not (is_open_status o.status)
      then (err order_already_closed, s)
      else if not (is_none o.strategy_id)
      then (err refusal, s)
      else elim (find (open_of_order o.id) s.positions) [
        | none ↦ (err refusal, s)
        | some p ↦ act o p s
      ]
]

unfoldable pub update_order_protection : ℕ → Option ℕ → Option ℕ → Action VirtualOrder
update_order_protection order_id sl_price target_price =
    guarded order_protection (λ o p. protect o p sl_price target_price) order_id

abbrev pub with_exit_limit : Option ℕ → VirtualOrder → VirtualOrder
with_exit_limit limit o = record o { exit_limit_price = limit }

unfoldable pub set_exit_limit : VirtualOrder → Option ℕ → Action VirtualOrder
set_exit_limit o limit s =
    if zero_price limit
    then (err order_exit_limit, s)
    else (ok (with_exit_limit limit o), put_order o.id (with_exit_limit limit) s)

unfoldable pub update_order_exit_limit : ℕ → Option ℕ → Action VirtualOrder
update_order_exit_limit order_id exit_limit_price =
    guarded order_exit_limit (λ o p. set_exit_limit o exit_limit_price) order_id

abbrev pub mark : VirtualOrder → ℕ → VirtualPosition → VirtualPosition
mark o new_ltp p = record p {
  current_ltp = new_ltp;
  unrealized_pnl = calculate_pnl o.action o.entry_price new_ltp o.quantity o.lot_size;
}

unfoldable pub update_position_ltp : ℕ → ℕ → Rows → Rows
update_position_ltp order_id new_ltp s = elim (find (open_of_order order_id) s.positions) [
  | none ↦ s
  | some p ↦ elim (find_order order_id s) [
    | none ↦ s
    | some o ↦ record s {
      positions = modify_first (open_of_order order_id) (mark o new_ltp) s.positions;
    }
  ]
]
