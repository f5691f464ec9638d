-- ===== src/Store/Sound.antt =====
-- The invariant of the memory store (apps/api/internal/store/memory.go), kept by every method.
use mathlib.Core.Path.{subst₂}
use wreckr.Prelude.{
  ◌∙◌, Extends, String, ◌==◌, eq_iff, ◌≡◌, ◌⊎◌, inl, inr, List, [], ◌∷◌, some, Bool, true, false,
  arith, lookup, insert, lookup-insert, any, Dict,
}
use wreckr.Event.{Event, EventType, run_queued}
use wreckr.Store.{RunRecord, Memory, is_terminal, events_of, new_memory}
use wreckr.Store.Op.{Op, apply, apply_all}
use wreckr.Store.Effect.{
  Filed, Effect, quiet, logged, created, moved, is_terminal_type, apply-Effect,
}
use wreckr.Store.Log.{Numbered, Effect-Extends, Effect-Numbered, events-same, any-Extends, any-last}

abbrev pub is_terminal_event : Event → Bool
is_terminal_event e = is_terminal_type e.type

abbrev is_queued_type : EventType → Bool
is_queued_type run_queued = true
is_queued_type _ = false

abbrev pub is_queued_event : Event → Bool
is_queued_event e = is_queued_type e.type

-- A stored run stands under its own id, is filed, and its log says that it was queued and, once it
-- is terminal, that it ended.
pub record RunSound (k : String) (r : RunRecord) (es : List Event) : Type 0 where
  pub keyed : r.id ≡ k
  pub filed : Filed r
  pub opened : any is_queued_event es ≡ true
  pub ended : is_terminal r.status ≡ true → any is_terminal_event es ≡ true

pub record Sound (m : Memory) : Type 0 where
  pub runs : (k : String) (r : RunRecord) → lookup k m.runs ≡ some r → RunSound k r (events_of m k)
  pub numbered : (k : String) → Numbered 0 (events_of m k)

RunSound-Extends :
    (k : String) (r : RunRecord) (es fs : List Event)
    → Extends es fs
    → RunSound k r es
    → RunSound k r fs
RunSound-Extends k r es fs x h = record {
  keyed = h.keyed;
  filed = h.filed;
  opened = any-Extends is_queued_event es fs x h.opened;
  ended = λ t. any-Extends is_terminal_event es fs x (h.ended t);
}

-- What a map holds after a write was written, or was there before.
found {ℓ} :
    {A : Type ℓ} (k j : String) (s t : A) (m : Dict A)
    → lookup j (insert k s m) ≡ some t
    → ((k ≡ j) × (s ≡ t)) ⊎ (((k == j) ≡ false) × (lookup j m ≡ some t))
found k j s t m h = ground (arith, lookup-insert k j s m, eq_iff k j)

module _ (m n : Memory) (h : Sound m) (eff : Effect m n) where
  -- A run that the method left alone.
  old_run : (j : String) (t : RunRecord) → lookup j m.runs ≡ some t → RunSound j t (events_of n j)
  old_run j t q =
      RunSound-Extends j t (events_of m j) (events_of n j) (Effect-Extends m n eff j) (h.runs j t q)

  -- A method that writes the run `s` under `k`, where `s` is sound with the new log.
  new_run :
      (k : String) (s : RunRecord)
      → n.runs ≡ insert k s m.runs
      → RunSound k s (events_of n k)
      → (j : String) (t : RunRecord) → lookup j n.runs ≡ some t
      → RunSound j t (events_of n j)
  new_run k s w ok j t q = elim (found k j s t m.runs (rw w at q)) [
    | inl (p, e) ↦ subst₂ (λ x y. RunSound x y (events_of n x)) p e ok
    | inr (_, q') ↦ old_run j t q'
  ]

Effect-Sound : (m n : Memory) → Effect m n → Sound m → Sound n
unfolding is_terminal
Effect-Sound m n (quiet r l) h = record {
  runs = λ j t q. old_run m n h (quiet r l) j t (rw r at q);
  numbered = λ j. Effect-Numbered m n (quiet r l) j (h.numbered j);
}
Effect-Sound m n (logged k e r a) h = record {
  runs = λ j t q. old_run m n h (logged k e r a) j t (rw r at q);
  numbered = λ j. Effect-Numbered m n (logged k e r a) j (h.numbered j);
}
Effect-Sound m n (created k e s w a own new first) h = record {
  runs = new_run m n h (created k e s w a own new first) k s w (record {
    keyed = own;
    filed = ground arith;
    opened = rw (events-same m n k e a) (any-last is_queued_event (events_of m k) e (ground arith));
    ended = ground arith;
  });
  numbered = λ j. Effect-Numbered m n (created k e s w a own new first) j (h.numbered j);
}
Effect-Sound m n (moved k e r s f w a live later ends filed) h = record {
  runs = new_run m n h (moved k e r s f w a live later ends filed) k s w (
      let old = old_run m n h (moved k e r s f w a live later ends filed) k r f in
      record {
        keyed = later.same_id ∙ old.keyed;
        filed = filed;
        opened = old.opened;
        ended =
            λ t. rw (events-same m n k e a) (any-last is_terminal_event (events_of m k) e (ends t));
      });
  numbered = λ j. Effect-Numbered m n (moved k e r s f w a live later ends filed) j (h.numbered j);
}

pub apply_all-Sound : (ops : List Op) (m : Memory) → Sound m → Sound (apply_all ops m)
unfolding apply_all
apply_all-Sound [] m h = h
apply_all-Sound (op ∷ ops) m h =
    apply_all-Sound ops (apply op m) (Effect-Sound m (apply op m) (apply-Effect op m) h)

pub new_memory-Sound : Sound new_memory
unfolding new_memory events_of lookup
new_memory-Sound = record { runs = λ k r q. cc; numbered = λ k. tt }

-- A store that begins as new is sound after any history of methods: each stored run stands under its own
-- id, was announced by a queued event, has a terminal event in its log once its status is terminal, and,
-- once it passed, failed or was canceled, holds a report of its own version that says failed if the run
-- failed, canceled if it was canceled, and anything but failed if it passed; and every log is numbered
-- 1, 2, 3 and so on.
pub new_memory-apply_all : (ops : List Op) → Sound (apply_all ops new_memory)
new_memory-apply_all ops = apply_all-Sound ops new_memory new_memory-Sound
