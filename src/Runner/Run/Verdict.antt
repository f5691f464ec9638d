-- ===== src/Runner/Run/Verdict.antt =====
-- What the report of a run says about its phases (apps/api/internal/runner/runner.go, RunWithOptions).
use wreckr.Prelude.{
  String, ◌≡◌, refl, ap, ◌∙◌, Bool, true, false, not, ◌&&◌, List, [], ◌∷◌, ◌++◌, Option, none, some,
  all, all-append, arith, Bool-cases, inl, inr, is_nil, if◌then◌else◌,
}
use wreckr.Platform.{Platform, ok}
use wreckr.Event.{Event}
use wreckr.Scenario.{Scenario}
use wreckr.Scenario.Normalize.{normalized, with_env}
use wreckr.Scenario.Validate.{validate}
use wreckr.Report.{Report, ResponseRecord, CheckResult}
use wreckr.Report.Build.{FloatOps, build, has_error, summarize}
use wreckr.Report.Verdict.{passes, build_lem}
use wreckr.Runner.{run_control_requests, has_failed_check}
use wreckr.Runner.Send.{Net}
use wreckr.Runner.Traffic.{Sent}
use wreckr.Runner.Checks.{evaluate_thresholds, evaluate_invariants}
use wreckr.Runner.Checks.Limits.{within, evaluate_thresholds_lem}
use wreckr.Runner.Run.{
  Circumstances, Findings, events_of, records_of, send_control, run_traffic, conclude, perform,
  reported, checked_run, run_with_options,
}

abbrev pub all_pass : List CheckResult → Bool
all_pass cs = all (λ c. c.passed) cs

failed_any : (cs : List CheckResult) → all_pass cs ≡ not (has_failed_check cs)
unfolding has_failed_check
failed_any [] = refl
failed_any (c ∷ cs) = ground (arith, failed_any cs)

module _ (p : Platform) (f : FloatOps) (net : Net) (run_id : String) (sc : Scenario)
    (c : Circumstances) where
  -- The checks of setup and of teardown.
  abbrev pub setup_checks : List CheckResult
  setup_checks =
      (run_control_requests run_id "setup" (send_control p f net run_id sc c.setup) sc.setup).checks

  abbrev pub teardown_checks : List CheckResult
  teardown_checks =
      let down =
        run_control_requests run_id "teardown" (send_control p f net run_id sc c.teardown)
          sc.teardown in
      down.checks

  -- The responses of the traffic are good and the checks of them pass.
  abbrev pub good_traffic : List ResponseRecord → Bool
  good_traffic records =
      within f (summarize f records).error_rate sc.thresholds.max_error_rate
      && within f (summarize f records).latency.p95_ms sc.thresholds.p95_ms
      && all_pass (evaluate_invariants f net p run_id sc records c.visits 0 sc.invariants)
      && all (λ r. not (has_error r)) records

  abbrev pub good_findings : Findings → Bool
  good_findings found =
      (all_pass found.thresholds && all_pass found.invariants)
      && all (λ r. not (has_error r)) found.records

  conclude_lem :
      (before : List Event) (records : List ResponseRecord)
      → good_findings (conclude p f net run_id sc c before records)
        ≡ good_traffic records && not (has_failed_check teardown_checks)
  unfolding conclude
  conclude_lem before records =
      let limits = evaluate_thresholds_lem f sc.thresholds records in
      let down = failed_any teardown_checks in
      let joined =
        all-append (λ (c : CheckResult). c.passed) (evaluate_thresholds f sc.thresholds records)
          teardown_checks in
      elim (Bool-cases (has_failed_check teardown_checks)) [
        | inl q ↦ rw q (ground (arith, limits, down, joined))
        | inr q ↦ rw q (ground (arith, limits))
      ]

  -- A teardown without failed checks adds no record.
  conclude-records :
      (before : List Event) (records : List ResponseRecord)
      → has_failed_check teardown_checks ≡ false
      → (conclude p f net run_id sc c before records).records ≡ records
  unfolding conclude
  conclude-records before records h = rw h refl

  abbrev pub report_of : Findings → Report
  report_of found =
      build f c.finished_at c.duration run_id sc.name c.started_at found.records found.thresholds
        found.invariants

  report-responses : (found : Findings) → (report_of found).responses ≡ found.records
  unfolding build
  report-responses found = refl

  report_lem : (found : Findings) → passes (report_of found).status ≡ good_findings found
  report_lem found =
      (build_lem f c.finished_at c.duration run_id sc.name c.started_at found.records
        found.thresholds found.invariants).0

  setup_failed :
      has_failed_check setup_checks ≡ true
      → (found : Findings) × (perform p f net run_id sc c ≡ some found)
        × (good_findings found ≡ false)
        × (found.thresholds ≡ setup_checks)
  unfolding perform
  setup_failed h =
      let up =
        run_control_requests run_id "setup" (send_control p f net run_id sc c.setup) sc.setup in
      let bad = failed_any setup_checks in
      (
        record {
          events = up.events;
          records = up.records;
          thresholds = up.checks;
          invariants = [];
        },
        rw h refl,
        ground (arith, bad, h),
        refl,
      )

  abbrev setup_events : List Event
  setup_events =
      (run_control_requests run_id "setup" (send_control p f net run_id sc c.setup) sc.setup).events

  traffic_done :
      (sent : List Sent)
      → has_failed_check setup_checks ≡ false
      → run_traffic p f net sc.traffic.type run_id sc c ≡ some sent
      → perform p f net run_id sc c
        ≡ some (conclude p f net run_id sc c (setup_events ++ events_of sent) (records_of sent))
  unfolding perform
  traffic_done sent h e = rw h (rw e refl)

module _ (p : Platform) (f : FloatOps) (net : Net) (id : String) (given : Scenario)
    (c : Circumstances) where
  -- The scenario as the runner takes it, and the id of the run.
  abbrev pub taken : Scenario
  taken = normalized p (with_env p given)

  abbrev pub named : String
  named = if is_nil id then c.made_id else id

  -- A run of a valid scenario whose setup has no failed check and whose traffic returns has a report. It
  -- is passed exactly when no response of the traffic has an error, the error rate and the 95th percentile
  -- of the latency are within the limits, every invariant holds, and no request of the teardown failed.
  pub run_with_options-passes :
      (sent : List Sent)
      → validate p taken ≡ none
      → has_failed_check (setup_checks p f net named taken c) ≡ false
      → run_traffic p f net taken.traffic.type named taken c ≡ some sent
      → (rep : Report) × (run_with_options p f net id given c ≡ some (ok rep))
        × (passes rep.status
            ≡ good_traffic p f net named taken c (records_of sent)
              && not (has_failed_check (teardown_checks p f net named taken c)))
  unfolding run_with_options
  run_with_options-passes sent valid up done =
      let before = setup_events p f net named taken c ++ events_of sent in
      let found = conclude p f net named taken c before (records_of sent) in
      (
        report_of p f net named taken c found,
        ap (λ (o : Option String). checked_run p f net o named taken c) valid
            ∙ ap (reported p f net named taken c) (traffic_done p f net named taken c sent up done),
        report_lem p f net named taken c found
            ∙ conclude_lem p f net named taken c before (records_of sent),
      )

  -- The responses of its report are those of the traffic where the teardown has no failed check.
  pub run_with_options-responses :
      (sent : List Sent)
      → validate p taken ≡ none
      → has_failed_check (setup_checks p f net named taken c) ≡ false
      → run_traffic p f net taken.traffic.type named taken c ≡ some sent
      → has_failed_check (teardown_checks p f net named taken c) ≡ false
      → (rep : Report) × (run_with_options p f net id given c ≡ some (ok rep))
        × (passes rep.status ≡ good_traffic p f net named taken c (records_of sent))
        × (rep.responses ≡ records_of sent)
  unfolding run_with_options
  run_with_options-responses sent valid up done down =
      let before = setup_events p f net named taken c ++ events_of sent in
      let found = conclude p f net named taken c before (records_of sent) in
      let verdict = conclude_lem p f net named taken c before (records_of sent) in
      (
        report_of p f net named taken c found,
        ap (λ (o : Option String). checked_run p f net o named taken c) valid
            ∙ ap (reported p f net named taken c) (traffic_done p f net named taken c sent up done),
        report_lem p f net named taken c found ∙ ground (arith, verdict, down),
        report-responses p f net named taken c found
            ∙ conclude-records p f net named taken c before (records_of sent) down,
      )

  -- A run of a valid scenario whose setup has a failed check has a report that is not passed and lists the
  -- checks of the setup; no traffic is awaited for it.
  pub run_with_options_setup_failed :
      validate p taken ≡ none
      → has_failed_check (setup_checks p f net named taken c) ≡ true
      → (rep : Report) × (run_with_options p f net id given c ≡ some (ok rep))
        × (passes rep.status ≡ false)
        × (rep.thresholds ≡ setup_checks p f net named taken c)
  unfolding run_with_options build
  run_with_options_setup_failed valid up =
      let (found, e, bad, same) = setup_failed p f net named taken c up in
      (
        report_of p f net named taken c found,
        ap (λ (o : Option String). checked_run p f net o named taken c) valid
            ∙ ap (reported p f net named taken c) e,
        report_lem p f net named taken c found ∙ bad,
        same,
      )
