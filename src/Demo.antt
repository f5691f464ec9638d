-- ===== src/Demo.antt =====
-- The demo API, a target with intentional faults (examples/demo-api/cmd/main.go). Each handler holds the
-- lock for its work on the state; a login holds it twice, when it begins and when it returns.
pub mod Schedules
use wreckr.Prelude.{
  ℕ, zero, suc, ◌+◌, ℤ, pos, negsuc, String, ◌+++◌, ◌==◌, Bool, true, false, not, ◌&&◌, ◌||◌, List,
  [], ◌∷◌, ◌++◌, length, show, show_ℤ, ltb_ℤ, is_nil, if◌then◌else◌,
}
use wreckr.Platform.{Result, ok, err}

pub record Order : Type 0 where
  pub id : String
  pub user_id : String
  pub sku : String
  pub quantity : ℤ
  pub idempotency_key : String
  pub created_at : String

pub record CheckoutRequest : Type 0 where
  pub user_id : String
  pub sku : String
  pub quantity : ℤ

pub record App : Type 0 where
  pub orders : List Order
  pub active : ℤ

abbrev pub new_app : App
new_app = record { orders = []; active = pos 0 }

-- A status and what stands in the body.
pub record Reply {ℓ} (A : Type ℓ) : Type ℓ where
  pub status : ℕ
  pub body : Result A

-- active++ and active--
unfoldable pub increment : ℤ → ℤ
increment (pos n) = pos (suc n)
increment (negsuc zero) = pos 0
increment (negsuc (suc n)) = negsuc n

unfoldable pub decrement : ℤ → ℤ
decrement (pos zero) = negsuc 0
decrement (pos (suc n)) = pos n
decrement (negsuc n) = negsuc (suc n)

unfoldable pub new_order : CheckoutRequest → String → String → App → Order
new_order req key now a = record {
  id = "ord_" +++ show (length a.orders + 1);
  user_id = req.user_id;
  sku = req.sku;
  quantity = req.quantity;
  idempotency_key = key;
  created_at = now;
}

-- `decoded` is what the decoder of JSON makes of the body, and `now` the formatted clock.
unfoldable pub checkout : Result CheckoutRequest → String → String → App → App × Reply Order
unfolding new_order
checkout (err e) key now a = (a, record { status = 400; body = err e })
checkout (ok req) key now a =
    let o = new_order req key now a in
    (record a { orders = a.orders ++ o ∷ [] }, record { status = 201; body = ok o })

-- An order that the filters keep; an empty one keeps all.
unfoldable pub is_match : String → String → Order → Bool
is_match user_id sku o = (is_nil user_id || o.user_id == user_id) && (is_nil sku || o.sku == sku)

unfoldable pub filter_orders : String → String → List Order → List Order
unfolding is_match
filter_orders user_id sku [] = []
filter_orders user_id sku (o ∷ os) =
    let rest = filter_orders user_id sku os in if is_match user_id sku o then o ∷ rest else rest

-- The count and the orders.
unfoldable pub orders_by_query : String → String → App → ℕ × List Order
unfolding filter_orders
orders_by_query user_id sku a =
    let matches = filter_orders user_id sku a.orders in (length matches, matches)

unfoldable pub reset : App → App
reset a = record a { orders = []; active = pos 0 }

-- A login begins, with the number of those in flight that it reads.
unfoldable pub enter_login : App → App × ℤ
unfolding increment
enter_login a = (record a { active = increment a.active }, increment a.active)

-- Its deferred function.
unfoldable pub leave_login : App → App
unfolding decrement
leave_login a = record a { active = decrement a.active }

unfoldable pub login_reply : ℤ → Reply String
login_reply active =
    if ltb_ℤ (pos 5) active
    then record { status = 500; body = err "auth pool exhausted" }
    else record { status = 200; body = ok "demo-token" }

unfoldable pub metrics_text : App → String
metrics_text a =
    "wreckr_demo_api_up 1\n"
    +++ "wreckr_demo_api_orders_total "
    +++ show (length a.orders)
    +++ "\n"
    +++ "wreckr_demo_api_active_requests "
    +++ show_ℤ a.active
    +++ "\n"
