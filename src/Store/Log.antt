-- ===== src/Store/Log.antt =====
-- How a method changes the event logs of the memory store
-- (apps/api/internal/store/memory.go, appendRunEventLocked).
use wreckr.Prelude.{
  Extends, Extends-refl, eq_refl, ℕ, suc, ◌+◌, String, ◌==◌, eq_iff, ◌≡◌, inl, inr, List, [], ◌∷◌,
  ◌++◌, Bool, true, false, arith, lookup-insert, length, Bool-cases, any, any-append,
}
use wreckr.Event.{Event}
use wreckr.Store.{Memory, events_of}
use wreckr.Store.Effect.{Appends, Effect, quiet, logged, created, moved}

-- The events of a log carry the numbers n + 1, n + 2, ... in their order.
abbrev pub Numbered : ℕ → List Event → Type 0
Numbered n [] = Unit
Numbered n (e ∷ es) = (e.sequence ≡ suc n) × Numbered (suc n) es

Numbered-append :
    (n : ℕ) (es : List Event) (e : Event)
    → Numbered n es
    → e.sequence ≡ n + length es + 1
    → Numbered n (es ++ e ∷ [])
Numbered-append n [] e h s = omega arith
Numbered-append n (x ∷ es) e h s = (h.0, Numbered-append (suc n) es e h.1 (omega arith))

module _ (m n : Memory) (k : String) (e : Event) (app : Appends m n k e) where
  pub events-same : events_of n k ≡ events_of m k ++ e ∷ []
  unfolding events_of
  events-same = rw (app.log) (rw lookup-insert (rw (eq_refl k)))

  events-other : (j : String) → (k == j) ≡ false → events_of n j ≡ events_of m j
  unfolding events_of
  events-other j h = rw (app.log) (rw lookup-insert (rw h))

  log-Extends : (j : String) → Extends (events_of m j) (events_of n j)
  log-Extends j = elim (Bool-cases (k == j)) [
    | inl same ↦ rw (← (eq_iff k j).0 same) (e ∷ [], events-same)
    | inr other ↦ rw (events-other j other) (Extends-refl (events_of m j))
  ]

  log-Numbered : (j : String) → Numbered 0 (events_of m j) → Numbered 0 (events_of n j)
  log-Numbered j h = elim (Bool-cases (k == j)) [
    | inl same ↦
        let p = (eq_iff k j).0 same in
        rw (← p)
          (rw events-same (Numbered-append 0 (events_of m k) e (rw p h) (omega (arith, app.place))))
    | inr other ↦ rw (events-other j other) h
  ]

quiet-events :
    (m n : Memory) → n.run_events ≡ m.run_events → (j : String) → events_of n j ≡ events_of m j
unfolding events_of
quiet-events m n e j = rw e

-- A log is only appended to.
pub Effect-Extends :
    (m n : Memory) → Effect m n → (j : String) → Extends (events_of m j) (events_of n j)
Effect-Extends m n (quiet r e) j = rw (quiet-events m n e j) (Extends-refl (events_of m j))
Effect-Extends m n (logged k e r a) j = log-Extends m n k e a j
Effect-Extends m n (created k e s r a p q t) j = log-Extends m n k e a j
Effect-Extends m n (moved k e r s f w a t l d g) j = log-Extends m n k e a j

pub Effect-Numbered :
    (m n : Memory)
    → Effect m n
    → (j : String) → Numbered 0 (events_of m j)
    → Numbered 0 (events_of n j)
Effect-Numbered m n (quiet r e) j h = rw (quiet-events m n e j) h
Effect-Numbered m n (logged k e r a) j h = log-Numbered m n k e a j h
Effect-Numbered m n (created k e s r a p q t) j h = log-Numbered m n k e a j h
Effect-Numbered m n (moved k e r s f w a t l d g) j h = log-Numbered m n k e a j h

pub any-Extends {ℓ} :
    {A : Type ℓ} (p : A → Bool) (xs ys : List A) → Extends xs ys → any p xs ≡ true → any p ys ≡ true
any-Extends p xs ys (zs, e) h = rw e (rw any-append (rw h))

pub any-last {ℓ} :
    {A : Type ℓ} (p : A → Bool) (xs : List A) (x : A) → p x ≡ true → any p (xs ++ x ∷ []) ≡ true
any-last p xs x h = rw any-append (ground arith)
