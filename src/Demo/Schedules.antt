-- ===== src/Demo/Schedules.antt =====
-- Clients of the demo API in any order (examples/demo-api/cmd/main.go).
use wreckr.Prelude.{
  ℕ, zero, suc, ◌+◌, pos, String, ◌+++◌, ◌≡◌, refl, ap, ◌∙◌, true, false, List, [], ◌∷◌, ◌++◌,
  Option, some, none, map, length, length-append, show, ltb, ltb_ℤ, Bool-cases, inl, inr, arith,
  is_nil, if◌then◌else◌,
}
use mathlib.Core.List.{map-append}
use wreckr.Platform.{Result, ok, err}
use wreckr.Demo.{
  new_order, Order, CheckoutRequest, App, new_app, checkout, filter_orders, orders_by_query, reset,
  enter_login, leave_login, increment, decrement, login_reply,
}

-- What a handler does under the lock.
pub data Move : Type 0 where
  buy : Result CheckoutRequest → String → String → Move
  clear : Move
  enter : Move
  leave : Move

abbrev pub act : Move → App → App
act (buy decoded key now) a = (checkout decoded key now a).0
act clear a = reset a
act enter a = (enter_login a).0
act leave a = leave_login a

abbrev pub act_all : List Move → App → App
act_all [] a = a
act_all (m ∷ ms) a = act_all ms (act m a)

-- The logins in flight after moves that begin with `k` of them: none where one leaves that was not in, or
-- where the state is reset meanwhile.
abbrev pub in_flight : List Move → ℕ → Option ℕ
in_flight [] k = some k
in_flight (enter ∷ ms) k = in_flight ms (suc k)
in_flight (leave ∷ ms) zero = none
in_flight (leave ∷ ms) (suc k) = in_flight ms k
in_flight (clear ∷ ms) k = none
in_flight (buy decoded key now ∷ ms) k = in_flight ms k

-- The checkouts since the last reset whose bodies could be read.
abbrev pub bought : List Move → ℕ → ℕ
bought [] n = n
bought (buy (ok req) key now ∷ ms) n = bought ms (suc n)
bought (clear ∷ ms) n = bought ms 0
bought (m ∷ ms) n = bought ms n

-- ord_1, ord_2, and so on.
abbrev pub ids_from : ℕ → ℕ → List String
ids_from i zero = []
ids_from i (suc n) = ("ord_" +++ show (i + 1)) ∷ ids_from (suc i) n

active_lem :
    (ms : List Move) (a : App) (k n : ℕ)
    → a.active ≡ pos k
    → in_flight ms k ≡ some n
    → (act_all ms a).active ≡ pos n
unfolding checkout
active_lem [] a k n h e = h ∙ ap (λ o. elim o [ some m ↦ pos m | none ↦ pos 0 ]) e
active_lem (buy (err w) key now ∷ ms) a k n h e = active_lem ms a k n h e
active_lem (buy (ok req) key now ∷ ms) a k n h e = active_lem ms _ k n h e
active_lem (enter ∷ ms) a k n h e =
    active_lem ms _ (suc k) n (unfold enter_login increment in ap increment h) e
active_lem (leave ∷ ms) a zero n h e = absurd (cc)
active_lem (leave ∷ ms) a (suc k) n h e =
    active_lem ms _ k n (unfold leave_login decrement in ap decrement h) e
active_lem (clear ∷ ms) a k n h e = absurd (cc)

refused : (n : ℕ) → (login_reply (pos (suc n))).status ≡ (if ltb n 5 then 200 else 500)
unfolding login_reply
refused n = elim (Bool-cases (ltb n 5)) [
  | inl q ↦
      let fits : ltb_ℤ (pos 5) (pos (suc n)) ≡ false = ground (arith, q) in rw q (rw fits refl)
  | inr q ↦ let full : ltb_ℤ (pos 5) (pos (suc n)) ≡ true = ground (arith, q) in rw q (rw full refl)
]

-- While the state is not reset, a login is refused exactly if at least five others are in flight.
pub login_reply-in_flight :
    (ms : List Move) (n : ℕ)
    → in_flight ms 0 ≡ some n
    → (login_reply (enter_login (act_all ms new_app)).1).status ≡ (if ltb n 5 then 200 else 500)
unfolding enter_login increment
login_reply-in_flight ms n e =
    let read = ap increment (active_lem ms new_app 0 n refl e) in
    ap (λ x. (login_reply x).status) read ∙ refused n

ids_from-suc : (i n : ℕ) → ids_from i n ++ ("ord_" +++ show (i + n + 1)) ∷ [] ≡ ids_from i (suc n)
ids_from-suc i zero = ap (λ (k : ℕ). ("ord_" +++ show k) ∷ []) (omega arith)
ids_from-suc i (suc n) =
    ap (λ (l : List String). ("ord_" +++ show (i + 1)) ∷ l)
      (ap (λ (k : ℕ). ids_from (suc i) n ++ ("ord_" +++ show k) ∷ []) (omega arith)
        ∙ ids_from-suc (suc i) n)

-- The ids count the orders up.
record Numbered (os : List Order) (n : ℕ) : Type 0 where
  ids : map (λ o. o.id) os ≡ ids_from 0 n
  size : length os ≡ n

Numbered-append :
    (os : List Order) (n : ℕ) (o : Order)
    → Numbered os n
    → o.id ≡ "ord_" +++ show (length os + 1)
    → Numbered (os ++ o ∷ []) (suc n)
Numbered-append os n o h e = record {
  ids =
      map-append (λ (o' : Order). o'.id) os (o ∷ [])
      ∙ ap (λ (l : List String). l ++ o.id ∷ []) h.ids
      ∙ ap (λ (x : String). ids_from 0 n ++ x ∷ [])
          (e ∙ ap (λ (k : ℕ). "ord_" +++ show (k + 1)) h.size)
      ∙ ap (λ (k : ℕ). ids_from 0 n ++ ("ord_" +++ show k) ∷ []) (omega arith)
      ∙ ids_from-suc 0 n;
  size = omega (arith, length-append os (o ∷ []), h.size);
}

bought_lem :
    (ms : List Move) (a : App) (n : ℕ)
    → Numbered a.orders n
    → Numbered (act_all ms a).orders (bought ms n)
unfolding checkout reset enter_login leave_login
bought_lem [] a n h = h
bought_lem (buy (err w) key now ∷ ms) a n h = bought_lem ms a n h
bought_lem (buy (ok req) key now ∷ ms) a n h =
    bought_lem ms _ (suc n) (Numbered-append a.orders n _ h (unfold new_order in refl))
bought_lem (clear ∷ ms) a n h = bought_lem ms _ 0 (record { ids = refl; size = refl })
bought_lem (enter ∷ ms) a n h = bought_lem ms _ n h
bought_lem (leave ∷ ms) a n h = bought_lem ms _ n h

filter_orders-all : (os : List Order) → filter_orders "" "" os ≡ os
unfolding filter_orders is_nil
filter_orders-all [] = refl
filter_orders-all (o ∷ os) = ap (λ (l : List Order). o ∷ l) (filter_orders-all os)

-- After any moves from the start, a query without filters counts the checkouts since the last reset whose
-- bodies could be read, whatever their idempotency keys, and their ids are ord_1, ord_2, and so on.
pub orders_by_query-act_all :
    (ms : List Move)
    → ((orders_by_query "" "" (act_all ms new_app)).0 ≡ bought ms 0)
      × (map (λ o. o.id) (orders_by_query "" "" (act_all ms new_app)).1 ≡ ids_from 0 (bought ms 0))
unfolding orders_by_query
orders_by_query-act_all ms =
    let all = filter_orders-all (act_all ms new_app).orders in
    let h = bought_lem ms new_app 0 (record { ids = refl; size = refl }) in
    (ap length all ∙ h.size, ap (map (λ o. o.id)) all ∙ h.ids)
