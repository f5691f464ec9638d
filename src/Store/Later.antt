-- ===== src/Store/Later.antt =====
-- One operation of the store, seen from one run that the store holds.
use wreckr.Prelude.{
  Dict, String, ◌≡◌, refl, ◌⊎◌, inl, inr, some, true, false, arith, ◌==◌, eq_iff, lookup, insert,
  lookup-insert, Bool-cases,
}
use wreckr.Store.{RunStatus, running, RunRecord, Memory, is_terminal}

-- The moves of a status: none, to running, or to a terminal one, and only from one that is not.
abbrev pub Moves : RunStatus → RunStatus → Type 0
Moves s t = (s ≡ t) ⊎ ((is_terminal s ≡ false) × ((t ≡ running) ⊎ (is_terminal t ≡ true)))

-- `t` is a later state of the run `r`.
pub record Later (r t : RunRecord) : Type 0 where
  pub same_id : t.id ≡ r.id
  pub same_target : t.target_id ≡ r.target_id
  pub same_scenario_id : t.scenario_id ≡ r.scenario_id
  pub same_version_id : t.scenario_version_id ≡ r.scenario_version_id
  pub same_version_number : t.scenario_version_number ≡ r.scenario_version_number
  pub same_scenario : t.scenario ≡ r.scenario
  pub same_created_at : t.created_at ≡ r.created_at
  pub moves : Moves r.status t.status
  pub settled : is_terminal r.status ≡ true → t ≡ r

pub Later-refl : (r : RunRecord) → Later r r
Later-refl r = record {
  same_id = refl;
  same_target = refl;
  same_scenario_id = refl;
  same_version_id = refl;
  same_version_number = refl;
  same_scenario = refl;
  same_created_at = refl;
  moves = inl refl;
  settled = λ _. refl;
}

pub Later-trans : (r s t : RunRecord) → Later r s → Later s t → Later r t
unfolding is_terminal
Later-trans r s t h k = ground arith

-- The run map `rs` holds a later state of the run `r` under `id`.
abbrev pub Kept : String → RunRecord → Dict RunRecord → Type 0
Kept id r rs = (t : RunRecord) × (lookup id rs ≡ some t) × Later r t

module _ (id : String) (r : RunRecord) (m : Memory) (held : lookup id m.runs ≡ some r) where
  pub Kept-same : {rs : Dict RunRecord} → rs ≡ m.runs → Kept id r rs
  Kept-same e = (r, rw e held, Later-refl r)

  -- A run written under another key, or a later state under this one.
  pub Kept-insert :
      (k : String) (s : RunRecord) {rs : Dict RunRecord}
      → rs ≡ insert k s m.runs
      → (k ≡ id → Later r s)
      → Kept id r rs
  Kept-insert k s e later = elim (Bool-cases (k == id)) [
    | inl same ↦ (s, rw e (rw lookup-insert (rw same)), later ((eq_iff k id).0 same))
    | inr other ↦ (r, rw e (rw lookup-insert (rw other held)), Later-refl r)
  ]
