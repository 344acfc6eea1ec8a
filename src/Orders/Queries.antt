-- ===== src/Orders/Queries.antt =====
-- The queries and private helpers of virtual_order_service.py. A query for one row is the first
-- that matches, in the order of creation.
use strikefluency.Prelude.{
  ℕ, ◌*◌, Bool, true, false, ◌&&◌, Option, none, some, List, ◌==◌, find, modify_first,
  round_half_even,
}
use strikefluency.Models.Terms.{instrument_eq, option_type_eq, action_eq, product_eq, tag_eq}
use strikefluency.Models.Records.{VirtualOrder, VirtualPosition, Rows}
use strikefluency.Orders.Request.{is_whole, OrderData, lot_size_of, product_or, tag_or}

-- `==` on optional numbers.
abbrev pub opt_eq : Option ℕ → Option ℕ → Bool
opt_eq none none = true
opt_eq (some a) (some b) = a == b
opt_eq _ _ = false

-- The order of a client order id, where the caller gives one.
abbrev pub find_client : Option ℕ → List VirtualOrder → Option VirtualOrder
find_client none orders = none
find_client (some cid) orders = find (λ o. opt_eq o.client_order_id (some cid)) orders

abbrev pub has_id : ℕ → VirtualOrder → Bool
has_id id o = o.id == id

abbrev pub of_order : ℕ → VirtualPosition → Bool
of_order id p = p.order_id == id

abbrev pub open_of_order : ℕ → VirtualPosition → Bool
open_of_order id p = (p.order_id == id) && p.is_open

unfoldable pub find_order : ℕ → Rows → Option VirtualOrder
find_order id s = find (has_id id) s.orders

-- The objects that the queries returned, changed.
abbrev pub put_order : ℕ → (VirtualOrder → VirtualOrder) → Rows → Rows
put_order id f s = record s { orders = modify_first (has_id id) f s.orders }

-- A stored price against one of the payload as it was sent: with decimals beyond the paise it is
-- never what the column stores.
abbrev pub same_price : Option ℕ → Option ℕ → Bool → Bool
same_price stored sent is_exact = opt_eq stored sent && is_whole sent is_exact

-- `_matches_idempotent_payload`
unfoldable pub matches_idempotent_payload : VirtualOrder → OrderData → Bool
matches_idempotent_payload o d =
    instrument_eq o.instrument d.instrument
    && (o.expiry_date == d.expiry_date)
    && (o.strike_price == d.strike_price)
    && option_type_eq o.option_type d.option_type
    && action_eq o.action d.action
    && (o.quantity == d.quantity)
    && (o.lot_size == lot_size_of d)
    && product_eq o.product_type (product_or d.product_type)
    && same_price o.sl_price d.sl_price d.sl_is_exact
    && same_price o.target_price d.target_price d.target_is_exact
    && tag_eq o.setup_tag (tag_or d.setup_tag)

-- The user's leverage setting: on unless a settings row says otherwise.
abbrev pub leverage_of : Option Bool → ℕ
leverage_of (some false) = 1
leverage_of _ = 5

-- `(gross_value / leverage).quantize(0.01)`
unfoldable pub margin_for : Option Bool → ℕ → ℕ → ℕ → ℕ
unfolding round_half_even
margin_for leverage_enabled price lot_size quantity =
    round_half_even (price * lot_size * quantity) (leverage_of leverage_enabled)
