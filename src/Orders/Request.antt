-- ===== src/Orders/Request.antt =====
-- The order payload that the routers build from backend/app/schemas/virtual_order.py and
-- backend/app/schemas/pending_order.py. The schema admits the tags of `SetupTag` only, so none of
-- them is blank. A missing key is none. The
-- stop loss and the target are in paise, as the columns store them, to two decimals; the schema
-- admits more, and `is_exact` says of each whether the payload has none beyond the paise.
use strikefluency.Prelude.{true, ◌&&◌, Bool, ℕ, zero, suc, Option, none, some}
use strikefluency.Models.Terms.{Instrument, OptionType, OrderAction, ProductType, SetupTag}
use strikefluency.Pricing.{spec_lot_size}

pub record OrderData : Type 0 where
  pub client_order_id : Option ℕ
  pub instrument : Instrument
  pub expiry_date : ℕ
  pub strike_price : ℕ
  pub option_type : OptionType
  pub action : OrderAction
  pub quantity : ℕ
  pub lot_size : Option ℕ
  pub product_type : Option ProductType
  pub sl_price : Option ℕ
  pub target_price : Option ℕ
  pub sl_is_exact : Bool
  pub target_is_exact : Bool
  pub setup_tag : Option SetupTag

-- A price that is given has no decimals beyond the paise.
abbrev pub is_whole : Option ℕ → Bool → Bool
is_whole none is_exact = true
is_whole (some p) is_exact = is_exact

-- The stop loss and the target are what the columns store.
abbrev pub prices_exact : OrderData → Bool
prices_exact d = is_whole d.sl_price d.sl_is_exact && is_whole d.target_price d.target_is_exact

-- `order_data.get("lot_size") or get_spec(instrument).lot_size`
abbrev pub lot_size_or : Option ℕ → ℕ → ℕ
lot_size_or none spec = spec
lot_size_or (some zero) spec = spec
lot_size_or (some (suc n)) spec = suc n

abbrev pub lot_size_of : OrderData → ℕ
lot_size_of d = lot_size_or d.lot_size (spec_lot_size d.instrument)

abbrev pub product_or : Option ProductType → ProductType
product_or none = ProductType.intraday
product_or (some p) = p

abbrev pub tag_or : Option SetupTag → SetupTag
tag_or none = SetupTag.other
tag_or (some t) = t
