-- ===== src/Prelude/Pieces.antt =====
-- The pieces of a text between separators.
use Prim.Native.Char.{Char, code}
use Prim.Native.Nat.{ℕ}
use Prim.Native.String.{String, ◌++◌}
use mathlib.Core.Path.{◌≡◌, refl, ap, ◌∙◌}
use mathlib.Core.Bool.{true, false}
use mathlib.Core.List.{List, [], ◌∷◌}
use native.Mathlib.Omega.{arith}
use text.Mathlib.TextLemmas.{cons-append, nil-append}
use wreckr.Prelude.Tests.{eqb}
use wreckr.Prelude.Problems.{Each}
use wreckr.Prelude.Text.{join}
use wreckr.Prelude.Split.{split}

-- A character does not stand in a text.
abbrev pub Lacks : ℕ → String → Type 0
Lacks k String.[] = Unit
Lacks k (String.◌∷◌ c s) = (eqb (code c) k ≡ false) × Lacks k s

pub split-append :
    (d : Char) (s rest : String)
    → Lacks (code d) s
    → split (code d) (s ++ String.◌∷◌ d rest) ≡ s ∷ split (code d) rest
unfolding split
split-append d String.[] rest h =
    let same : eqb (code d) (code d) ≡ true = ground arith in
    rw (nil-append (String.◌∷◌ d rest)) (rw same refl)
split-append d (String.◌∷◌ c s) rest h =
    let q = h.0 in
    rw (cons-append c s (String.◌∷◌ d rest)) (rw q (rw (split-append d s rest h.1) refl))

pub split-Lacks : (d : Char) (s : String) → Lacks (code d) s → split (code d) s ≡ s ∷ []
unfolding split
split-Lacks d String.[] h = refl
split-Lacks d (String.◌∷◌ c s) h = let q = h.0 in rw q (rw (split-Lacks d s h.1) refl)

-- Pieces without the separator are found again in the text that joins them.
pub split-join :
    (d : Char) (x : String) (xs : List String)
    → Each (Lacks (code d)) (x ∷ xs)
    → split (code d) (join (String.◌∷◌ d "") (x ∷ xs)) ≡ x ∷ xs
unfolding join
split-join d x [] h = split-Lacks d x h.0
split-join d x (y ∷ ys) h =
    let rest = join (String.◌∷◌ d "") (y ∷ ys) in
    let joined : x ++ String.◌∷◌ d "" ++ rest ≡ x ++ String.◌∷◌ d rest =
      ap (λ (u : String). x ++ u) (cons-append d "" rest ∙ ap (String.◌∷◌ d) (nil-append rest)) in
    ap (split (code d)) joined
    ∙ split-append d x rest h.0
    ∙ ap (λ (l : List String). x ∷ l) (split-join d y ys h.1)
