-- ===== src/Http/Metrics.antt =====
-- The counters of the metrics page (apps/api/internal/httpapi/server.go, metrics).
use wreckr.Prelude.{
  ℕ, suc, ◌+◌, List, [], ◌∷◌, length, ◌≡◌, arith, all, refl, ◌∙◌, Bool, true, false,
}
use wreckr.Store.{RunStatus, queued, running, passed, failed, errored, canceled, RunRecord, Memory}
use wreckr.Store.Runs.{list_runs}

pub record Counts : Type 0 where
  pub total : ℕ
  pub active : ℕ
  pub passed : ℕ
  pub failed : ℕ
  pub errored : ℕ
  pub canceled : ℕ

-- One turn of the loop.
unfoldable pub count_run : RunStatus → Counts → Counts
count_run queued c = record c { active = suc c.active }
count_run running c = record c { active = suc c.active }
count_run passed c = record c { passed = suc c.passed }
count_run failed c = record c { failed = suc c.failed }
count_run errored c = record c { errored = suc c.errored }
count_run canceled c = record c { canceled = suc c.canceled }
count_run (RunStatus.other _) c = c

unfoldable pub count_runs : List RunRecord → Counts → Counts
unfolding count_run
count_runs [] c = c
count_runs (r ∷ rs) c = count_runs rs (count_run r.status c)

unfoldable pub metrics : Memory → Counts
metrics m =
    let rs = list_runs m in
    count_runs rs
      (record { total = length rs; active = 0; passed = 0; failed = 0; errored = 0; canceled = 0 })

abbrev pub sum : Counts → ℕ
sum c = c.active + c.passed + c.failed + c.errored + c.canceled

abbrev pub is_counted : RunStatus → Bool
is_counted (RunStatus.other _) = false
is_counted _ = true

count_run-sum :
    (st : RunStatus) (c : Counts) → is_counted st ≡ true → sum (count_run st c) ≡ suc (sum c)
unfolding count_run
count_run-sum st c h = ground arith

count_runs-sum :
    (rs : List RunRecord) (c : Counts)
    → all (λ r. is_counted r.status) rs ≡ true
    → sum (count_runs rs c) ≡ sum c + length rs
unfolding count_runs
count_runs-sum [] c h = omega arith
count_runs-sum (r ∷ rs) c h =
    let ih = count_runs-sum rs (count_run r.status c) (ground arith) in
    let one = count_run-sum r.status c (ground arith) in omega (arith, ih, one)

one_total : (st : RunStatus) (c : Counts) → (count_run st c).total ≡ c.total
unfolding count_run
one_total st c = ground arith

count_runs-total : (rs : List RunRecord) (c : Counts) → (count_runs rs c).total ≡ c.total
unfolding count_runs
count_runs-total [] c = refl
count_runs-total (r ∷ rs) c = count_runs-total rs (count_run r.status c) ∙ one_total r.status c

-- The counters of the metrics page add up to its total, where every stored status is one that the
-- program knows.
pub metrics-sum :
    (m : Memory)
    → all (λ r. is_counted r.status) (list_runs m) ≡ true
    → sum (metrics m) ≡ (metrics m).total
unfolding metrics
metrics-sum m h =
    let rs = list_runs m in
    let start : Counts = record {
      total = length rs;
      active = 0;
      passed = 0;
      failed = 0;
      errored = 0;
      canceled = 0;
    } in
    let counts = count_runs-sum rs start h in
    let total = count_runs-total rs start in omega (arith, counts, total)
