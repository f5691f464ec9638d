-- ===== src/Http/Execute/Marks.antt =====
-- The marks by which a client ends an execution (apps/api/internal/httpapi/server.go,
-- registerRunCancel, requestRunCancel and finishRunCancel).
use wreckr.Prelude.{
  String, ◌==◌, eq_refl, eq_iff, ◌≡◌, refl, inl, inr, List, [], ◌∷◌, Bool, true, false, ◌||◌, arith,
  lookup, lookup-insert, lookup-erase, any, is_some, Bool-cases,
}
use wreckr.Http.{insert, Server, register_run_cancel, request_run_cancel, finish_run_cancel}
use wreckr.Http.Execute.{Act, write, request, act, act_all}

abbrev pub asks : String → Act → Bool
asks id (write op) = false
asks id (request k) = k == id

abbrev pub registered : String → Server → Bool
registered id s = is_some (lookup id s.run_cancels)

abbrev pub marked : String → Server → Bool
marked id s = is_some (lookup id s.cancel_requests)

pub request_told :
    (k : String) (s : Server)
    → registered k s ≡ true
    → request_run_cancel k s ≡ (record s { cancel_requests = insert k tt s.cancel_requests }, true)
unfolding request_run_cancel
request_told k s h = rw h refl

pub request_unknown :
    (k : String) (s : Server) → registered k s ≡ false → request_run_cancel k s ≡ (s, false)
unfolding request_run_cancel
request_unknown k s h = rw h refl

marks_after :
    (k id : String) (s : Server)
    → registered id s ≡ true
    → (registered id (request_run_cancel k s).0 ≡ true)
      × (marked id (request_run_cancel k s).0 ≡ marked id s || k == id)
marks_after k id s h = elim (Bool-cases (registered k s)) [
  | inl r ↦ rw (request_told k s r) (h, rw lookup-insert (ground arith))
  | inr r ↦ rw (request_unknown k s r) (h, ground (arith, eq_iff k id))
]

act_marks :
    (a : Act) (id : String) (s : Server)
    → registered id s ≡ true
    → (registered id (act a s) ≡ true) × (marked id (act a s) ≡ marked id s || asks id a)
unfolding act
act_marks (write op) id s h = (h, ground arith)
act_marks (request k) id s h = marks_after k id s h

act_all_marks :
    (acts : List Act) (id : String) (s : Server)
    → registered id s ≡ true
    → marked id (act_all acts s) ≡ marked id s || any (asks id) acts
unfolding act_all
act_all_marks [] id s h = ground arith
act_all_marks (a ∷ acts) id s h =
    let (kept, mark) = act_marks a id s h in
    let rest = act_all_marks acts id (act a s) kept in ground (arith, rest, mark)

-- Between the registration of an execution and its end, other handlers write to the store and ask to
-- end executions. At the end the server says that a client asked to end this one exactly when one of
-- them did, or a mark was left from before; and no mark of the run is left then.
pub finish_run_cancel_lem :
    (acts : List Act) (id : String) (s : Server)
    → let (t, asked) = finish_run_cancel id (act_all acts (register_run_cancel id s)) in
      (asked ≡ marked id s || any (asks id) acts)
      × (registered id t ≡ false)
      × (marked id t ≡ false)
unfolding finish_run_cancel register_run_cancel
finish_run_cancel_lem acts id s = (
  act_all_marks acts id (register_run_cancel id s)
      (unfold register_run_cancel in rw lookup-insert (rw (eq_refl id) refl)),
  rw lookup-erase (rw (eq_refl id) refl),
  rw lookup-erase (rw (eq_refl id) refl),
)
