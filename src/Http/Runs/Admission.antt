-- ===== src/Http/Runs/Admission.antt =====
-- What a request for a run does to the store (apps/api/internal/httpapi/server.go, createRun).
use wreckr.Prelude.{
  Dict, ℤ, pos, String, ◌+++◌, show, ◌≡◌, refl, sym, subst, ◌⊎◌, inl, inr, Bool, true, false,
  Option, none, some, lookup, lookup-insert, eq_refl, Bool-cases, is_nil, trim_space, pos_part,
  ltb_ℤ,
}
use wreckr.Platform.{Platform}
use wreckr.Scenario.{Scenario}
use wreckr.Scenario.Validate.{validate}
use wreckr.Guardrails.{check_scenario}
use wreckr.Store.{RunRecord, ScenarioVersionRecord, Memory}
use wreckr.Store.Runs
use wreckr.Store.Events.{append_run_event}
use wreckr.Store.Op.{apply, error_run}
use wreckr.Store.Later.{Kept}
use wreckr.Store.History.{apply-Kept}
use wreckr.Store.Targets.{get_target}
use wreckr.Store.Scenarios.{get_scenario, get_scenario_version}
use wreckr.Http.{Config, Server, Answer, Step, go, stop, ◌>>=◌, check, found}
use wreckr.Http.Prepare.{checked, prepare, resolve_scenario_target, target_id_of}
use wreckr.Http.Execute.Settles.{NoReplay, execute_run-EndsLater}
use wreckr.Http.Runs.{
  CreateRunRequest, Setting, Created, admit, pick_stored, pick_scenario, post_run, create, dispatch,
  enqueued, direct, decided,
}
use wreckr.Http.Runs.Checked.{Checked, admit-Checked}

abbrev pub Refusal : Answer → Type 0
Refusal a = (a.code ≡ 400) ⊎ (a.code ≡ 404)

-- A step that stops, stops with a refusal.
abbrev pub Refuses {ℓ} : {A : Type ℓ} → Step A → Type 0
Refuses (go a) = Unit
Refuses (stop a) = Refusal a

bind-Refuses {ℓ κ} :
    {A : Type ℓ} {B : Type κ} (m : Step A) (f : A → Step B)
    → Refuses m
    → ((a : A) → Refuses (f a))
    → Refuses (m >>= f)
bind-Refuses (go a) f h k = k a
bind-Refuses (stop a) f h k = h

check-Refuses : (o : Option String) → Refuses (check 400 o)
check-Refuses none = tt
check-Refuses (some e) = inl refl

found-Refuses {ℓ} : {A : Type ℓ} (message : String) (o : Option A) → Refuses (found 404 message o)
found-Refuses message none = inr refl
found-Refuses message (some a) = tt

target-Refuses {ℓ} : {A : Type ℓ} (message : String) (o : Option A) → Refuses (found 400 message o)
target-Refuses message none = inl refl
target-Refuses message (some a) = tt

resolve-Refuses :
    (m : Memory) (sc : Scenario) (id : String) → Refuses (resolve_scenario_target m sc id)
unfolding resolve_scenario_target
resolve-Refuses m sc id = elim (Bool-cases (is_nil (target_id_of id sc))) [
  | inl q ↦ rw q tt
  | inr q ↦ rw q (
      bind-Refuses (found 400 _ (get_target (target_id_of id sc) m)) _ (target-Refuses _ _)
        (λ a. tt))
]

pick_stored-Refuses : (id : String) (n : ℤ) (m : Memory) → Refuses (pick_stored id n m)
unfolding pick_stored
pick_stored-Refuses id n m = elim (Bool-cases (is_nil id)) [
  | inl q ↦ rw q (inl refl)
  | inr q ↦ elim (Bool-cases (ltb_ℤ (pos 0) n)) [
    | inl v ↦
        rw (q, v)
          (bind-Refuses (found 404 _ (get_scenario_version id (pos_part n) m)) _ (found-Refuses _ _)
            (λ a. tt))
    | inr v ↦
        rw (q, v) (bind-Refuses (found 404 _ (get_scenario id m)) _ (found-Refuses _ _) (λ a. tt))
  ]
]

pick-Refuses :
    (o : Option Scenario) (id : String) (n : ℤ) (m : Memory) → Refuses (pick_scenario o id n m)
unfolding pick_scenario
pick-Refuses (some sc) id n m = tt
pick-Refuses none id n m = pick_stored-Refuses id n m

module _ (p : Platform) (c : Config) where
  pub prepare-Refuses :
      (m : Memory) (sc : Scenario) (id : String) → Refuses (prepare p c.guardrails m sc id)
  unfolding prepare checked
  prepare-Refuses m sc id =
      bind-Refuses (resolve_scenario_target m sc id) _ (resolve-Refuses m sc id) (λ r.
        bind-Refuses (check 400 (validate p _)) _ (check-Refuses _) (λ _.
          bind-Refuses (check 400 (check_scenario p _ c.guardrails)) _ (check-Refuses _) (λ _. tt)))

  admit-Refuses : (req : CreateRunRequest) (m : Memory) → Refuses (admit p c req m)
  unfolding admit
  admit-Refuses req m =
      bind-Refuses
        (pick_scenario req.scenario (trim_space req.scenario_id) req.scenario_version_number m) _
        (pick-Refuses _ _ _ m)
        (λ picked.
          bind-Refuses (prepare p c.guardrails m picked.0 (trim_space req.target_id)) _
            (prepare-Refuses m _ _) (λ ready. tt))

  -- The run `id` is stored with a scenario that passed both checks.
  abbrev pub Stores : String → Dict RunRecord → Type 0
  Stores id rs = (r : RunRecord) × (lookup id rs ≡ some r) × Checked p c.guardrails r.scenario

  Kept-Stores :
      (id : String) (r : RunRecord) (rs : Dict RunRecord)
      → Checked p c.guardrails r.scenario
      → Kept id r rs
      → Stores id rs
  Kept-Stores id r rs ok (t, at, later) =
      (t, at, subst (Checked p c.guardrails) (sym later.same_scenario) ok)

  module _ (w : Setting) (r : RunRecord) (safe : NoReplay w.env r.id)
      (ok : Checked p c.guardrails r.scenario) where
    enqueued-Stores :
        (failed : Option String) (s : Server)
        → lookup r.id s.store.runs ≡ some r
        → Stores r.id (enqueued p c w r failed s).server.store.runs
    unfolding apply enqueued
    enqueued-Stores none s held = (r, held, ok)
    enqueued-Stores (some e) s held = Kept-Stores r.id r _ ok (
        apply-Kept r.id r s.store held
          (error_run w.refused_at w.refused_logged ("enqueue run: " +++ e) r.id) refl)

    direct-Stores :
        (sync : Bool) (s : Server)
        → lookup r.id s.store.runs ≡ some r
        → Stores r.id (direct p c w sync r s).server.store.runs
    unfolding direct
    direct-Stores true s held =
        let (t, at, _, later) = execute_run-EndsLater c w.env r.id r.scenario safe r s held in
        Kept-Stores r.id r _ ok (t, at, later)
    direct-Stores false s held = (r, held, ok)

    dispatch-Stores :
        (queue : Option (String → Option String)) (sync : Bool) (s : Server)
        → lookup r.id s.store.runs ≡ some r
        → Stores r.id (dispatch p c queue w sync r s).server.store.runs
    unfolding dispatch
    dispatch-Stores (some f) sync s held = enqueued-Stores (f r.id) s held
    dispatch-Stores none sync s held = direct-Stores sync s held

  -- The request was refused, with code 400 or 404, and nothing was changed or started.
  abbrev pub Refused : Server → Created → Type 0
  Refused s made = (made.server ≡ s) × (made.launch ≡ none) × Refusal made.answer

  decide :
      (w : Setting) (req : CreateRunRequest) (s : Server)
      (o : Step (Scenario × String × Option ScenarioVersionRecord))
      → NoReplay w.env ("run_" +++ show w.now)
      → Refuses o
      → ((ready : Scenario × String × Option ScenarioVersionRecord)
          → o ≡ go ready
          → Checked p c.guardrails ready.0)
      → let made = decided p c w req s o in
        Refused s made ⊎ Stores ("run_" +++ show w.now) made.server.store.runs
  unfolding decided create Runs.create_run
  decide w req s (stop a) safe h k = inl (refl, refl, h)
  decide w req s (go (sc, tid, v)) safe h k = inr (
      dispatch-Stores w _ safe (k (sc, tid, v) refl) w.queue req.sync _
        (unfold append_run_event in rw lookup-insert (rw (eq_refl ("run_" +++ show w.now)))))

  -- A request for a run is refused with code 400 or 404, and then changes nothing and starts nothing,
  -- or the store holds the new run with a scenario that Validate and the guardrails accept. This holds
  -- whether the run is queued, fails to be queued, is executed at once, or is left to a goroutine, if no
  -- other handler creates a run of the same id meanwhile.
  pub post_run_lem :
      (w : Setting) (bad : Option String) (req : CreateRunRequest) (s : Server)
      → NoReplay w.env ("run_" +++ show w.now)
      → let made = post_run p c w bad req s in
        Refused s made ⊎ Stores ("run_" +++ show w.now) made.server.store.runs
  unfolding post_run
  post_run_lem w (some e) req s safe = inl (refl, refl, inl refl)
  post_run_lem w none req s safe =
      decide w req s (admit p c req s.store) safe (admit-Refuses req s.store)
        (λ ready h. admit-Checked p c req s.store ready h)
