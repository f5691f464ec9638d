-- ===== src/Examples/ConfigCases.antt =====
-- Configurations and clients of the demo API, on concrete inputs.
use wreckr.Prelude.{
  ℕ, suc, ◌*◌, ℤ, pos, negsuc, pos_part, ◌/◌, String, ◌==◌, ◌≡◌, ◌↔◌, refl, true, false, List, [],
  ◌∷◌, Each, map, some, none, ltb, show, is_nil, arith, if◌then◌else◌,
}
use wreckr.Platform.{ok, err}
use wreckr.Guardrails.{matches_allowlist}
use wreckr.Guardrails.Metadata.{Admitted}
use wreckr.Config.{from_env}
use wreckr.Config.Listed.{Item, from_env-Admitted}
use wreckr.Demo.{CheckoutRequest, new_app, orders_by_query, enter_login, login_reply}
use wreckr.Demo.Schedules.{
  Move, buy, clear, enter, leave, act_all, bought, ids_from, orders_by_query-act_all,
}
use wreckr.Examples.Web.{web, Address}

-- An environment with two variables.
abbrev env : String → String
env key =
    if key == "WRECKR_TARGET_ALLOWLIST"
    then "localhost:9090,demo"
    else if key == "WRECKR_RUN_TIMEOUT_SECONDS"
    then "60"
    else ""

abbrev whole_seconds : ℤ → ℤ
whole_seconds d = pos (pos_part d / 1000000000)

abbrev local : Address
local = record { scheme = "http"; host = "demo" }

demo-Item : Item "demo"
unfolding is_nil wreckr.Prelude.trim_space
demo-Item = record {
  commaless = (refl, (refl, (refl, (refl, tt))));
  visible = refl;
  trimmed = refl;
}

localhost-Item : Item "localhost:9090"
unfolding is_nil wreckr.Prelude.trim_space
localhost-Item = record {
  commaless = (
    refl,
    (
      refl,
      (
        refl,
        (refl, (refl, (refl, (refl, (refl, (refl, (refl, (refl, (refl, (refl, (refl, tt))))))))))),
      ),
    ),
  );
  visible = refl;
  trimmed = refl;
}

env_allowlist :
    env "WRECKR_TARGET_ALLOWLIST" ≡ wreckr.Prelude.join "," ("localhost:9090" ∷ "demo" ∷ [])
unfolding wreckr.Prelude.join
env_allowlist = refl

from_env-Admitted_example :
    (matches_allowlist web local (from_env env web whole_seconds).guardrails.target_allowlist
      ≡ true)
    ↔ Admitted web local ("localhost:9090" ∷ "demo" ∷ [])
from_env-Admitted_example =
    from_env-Admitted env web whole_seconds "localhost:9090" ("demo" ∷ []) local
      (localhost-Item, (demo-Item, tt)) env_allowlist

env_timeout : env "WRECKR_RUN_TIMEOUT_SECONDS" ≡ show 60
unfolding show
env_timeout = refl

abbrev order_of_two : Move
order_of_two =
    buy (ok (record { user_id = "u1"; sku = "s1"; quantity = pos 2 })) "key-1"
      "2026-01-01T00:00:00Z"

-- The same checkout twice, with one key, and a login in between.
abbrev clients : List Move
clients = order_of_two ∷ enter ∷ order_of_two ∷ buy (err "EOF") "" "" ∷ leave ∷ enter ∷ []

orders_by_query-act_all_example :
    ((orders_by_query "" "" (act_all clients new_app)).0 ≡ bought clients 0)
    × (map (λ o. o.id) (orders_by_query "" "" (act_all clients new_app)).1
        ≡ ids_from 0 (bought clients 0))
orders_by_query-act_all_example = orders_by_query-act_all clients

twice : bought clients 0 ≡ 2
twice = refl

-- A reset during a login leaves the number of logins in flight below 0.
reset_meanwhile : (act_all (enter ∷ clear ∷ leave ∷ []) new_app).active ≡ negsuc 0
unfolding wreckr.Demo.leave_login wreckr.Demo.reset
reset_meanwhile = refl
