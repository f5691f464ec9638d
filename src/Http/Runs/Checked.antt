-- ===== src/Http/Runs/Checked.antt =====
-- What the API lets into the store (apps/api/internal/httpapi/server.go, createRun).
use wreckr.Prelude.{
  ap, subst, ℤ, pos, String, ◌≡◌, refl, true, Option, none, some, arith, Bool-cases, inl, inr,
  eqb_ℤ, ltb_ℤ, trim_space,
}
use wreckr.Platform.{Platform, Result, ok, err}
use wreckr.Scenario.{Scenario}
use wreckr.Scenario.Validate.{validate}
use wreckr.Scenario.Valid.{Valid, validate_iff}
use wreckr.Guardrails.{Guardrails, check_scenario}
use wreckr.Guardrails.Accepts.{GoodBase, Within, check_scenario_iff}
use wreckr.Store.{ScenarioVersionRecord, Memory}
use wreckr.Http.{Config, Step, go, stop, ◌>>=◌, >>=-eq-go, check}
use wreckr.Http.Prepare.{checked, prepare, apply_run_guardrails, resolve_scenario_target}
use wreckr.Http.Runs.{CreateRunRequest, admit, pick_scenario}

-- The two checks in a row, by what they report.
checks_pass :
    {A : Type 0} (v w : Option String) (a b : A)
    → (check 400 v >>= λ _. check 400 w >>= λ _. go a) ≡ go b
    → (v ≡ none) × (w ≡ none) × (a ≡ b)
checks_pass none none a b h = (refl, refl, cc)
checks_pass none (some e) a b h = cc
checks_pass (some e) w a b h = cc

abbrev value_of : {A : Type 0} → A → Step A → A
value_of a (go b) = b
value_of a (stop _) = a

module _ (p : Platform) (g : Guardrails) where
  -- The scenario passed both checks.
  pub record Checked (s : Scenario) : Type 0 where
    pub valid : Valid p s
    pub within : Within p s g

  checked-Checked :
      (sc : Scenario) (target_id : String) (ready : Scenario × String)
      → checked p g sc target_id ≡ go ready
      → Checked ready.0
  unfolding checked
  checked-Checked sc target_id ready h =
      let (v, w, same) =
        checks_pass (validate p sc) (check_scenario p sc g) (sc, target_id) ready h in
      let valid = (validate_iff p sc).0 v in
      let within = (check_scenario_iff p sc g).0 w in
      subst (λ r. Checked r.0) same (record { valid = valid; within = within })

  pub prepare-Checked :
      (m : Memory) (raw : Scenario) (explicit : String) (ready : Scenario × String)
      → prepare p g m raw explicit ≡ go ready
      → Checked ready.0
  unfolding prepare
  prepare-Checked m raw explicit ready h =
      let (resolved, _, h1) = >>=-eq-go (resolve_scenario_target m raw explicit) _ ready h in
      checked-Checked _ _ ready h1

  targets_kept :
      (sc : Scenario) (rate : ℤ) (o : Result p.Url)
      → GoodBase p sc g o
      → GoodBase p (record sc { traffic = record sc.traffic { rate_per_second = rate } }) g o
  targets_kept sc rate (err e) h = h
  targets_kept sc rate (ok base) h = record {
    base_url = h.base_url;
    setup = h.setup;
    requests = h.requests;
    teardown = h.teardown;
    probes = h.probes;
  }

  -- A rate that is filled in is the limit itself.
  filled-Checked :
      (sc : Scenario)
      → Checked sc
      → ltb_ℤ (pos 0) g.max_request_rate ≡ true
      → Checked (record sc { traffic = record sc.traffic { rate_per_second = g.max_request_rate } })
  filled-Checked sc h set =
      let t = h.valid.traffic in
      let w = h.within in
      record {
        valid = record {
          version = h.valid.version;
          named = h.valid.named;
          target = h.valid.target;
          some_request = h.valid.some_request;
          traffic = record {
            known = t.known;
            concurrency = t.concurrency;
            iterations = t.iterations;
            rate = ground (arith, set);
            attempts = t.attempts;
            backoff = t.backoff;
          };
          setup = h.valid.setup;
          requests = h.valid.requests;
          teardown = h.valid.teardown;
          invariants = h.valid.invariants;
        };
        within = record {
          concurrency = w.concurrency;
          rate = ground arith;
          setup = w.setup;
          requests = w.requests;
          teardown = w.teardown;
          targets = targets_kept sc g.max_request_rate _ w.targets;
        };
      }

  apply_run_guardrails-Checked : (sc : Scenario) → Checked sc → Checked (apply_run_guardrails g sc)
  unfolding apply_run_guardrails
  apply_run_guardrails-Checked sc h = elim (Bool-cases (ltb_ℤ (pos 0) g.max_request_rate)) [
    | inl a ↦ elim (Bool-cases (eqb_ℤ sc.traffic.rate_per_second (pos 0))) [
      | inl b ↦ rw (a, b) (filled-Checked sc h a)
      | inr b ↦ rw (a, b) h
    ]
    | inr a ↦ rw a h
  ]

module _ (p : Platform) (c : Config) where
  -- What createRun runs: the scenario passed both checks, with the default rate in place.
  pub admit-Checked :
      (req : CreateRunRequest) (m : Memory)
      (ready : Scenario × String × Option ScenarioVersionRecord)
      → admit p c req m ≡ go ready
      → Checked p c.guardrails ready.0
  unfolding admit
  admit-Checked req m ready h =
      let (picked, _, h1) =
        >>=-eq-go
          (pick_scenario req.scenario (trim_space req.scenario_id) req.scenario_version_number m) _
          ready h in
      let (made, is_made, h2) =
        >>=-eq-go (prepare p c.guardrails m picked.0 (trim_space req.target_id)) _ ready h1 in
      let sound = prepare-Checked p c.guardrails m _ _ made is_made in
      let filled = apply_run_guardrails-Checked p c.guardrails made.0 sound in
      subst (λ r. Checked p c.guardrails r.0) (ap (value_of ready) h2) filled
