-- ===== src/Prelude/Order/Swaps.antt =====
-- Sorting the keys of a map does not depend on the order in which the map gives them.
use Prim.Native.Char.{Char, code}
use Prim.Native.String.{String}
use mathlib.Core.Path.{◌≡◌, refl, sym, ap, ◌∙◌}
use mathlib.Core.Logic.{◌≢◌, inl, inr}
use mathlib.Core.Bool.{true, false}
use mathlib.Core.List.{List, [], ◌∷◌, ◌++◌}
use native.Mathlib.Omega.{arith}
use text.Mathlib.TextEquality.{Char-path}
use wreckr.Prelude.Tests.{eqb, Bool-cases}
use wreckr.Prelude.Order.{text_before, insert_entry, sort_entries}

before_asymmetric : (s t : String) → text_before s t ≡ true → text_before t s ≡ false
unfolding text_before
before_asymmetric String.[] String.[] h = refl
before_asymmetric String.[] (String.◌∷◌ d t) h = refl
before_asymmetric (String.◌∷◌ c s) String.[] h = cc
before_asymmetric (String.◌∷◌ c s) (String.◌∷◌ d t) h =
    let deeper = before_asymmetric s t in ground arith

before_transitive :
    (s t u : String) → text_before s t ≡ true → text_before t u ≡ true → text_before s u ≡ true
unfolding text_before
before_transitive String.[] String.[] u h k = cc
before_transitive String.[] (String.◌∷◌ d t) String.[] h k = cc
before_transitive String.[] (String.◌∷◌ d t) (String.◌∷◌ e u) h k = refl
before_transitive (String.◌∷◌ c s) String.[] u h k = cc
before_transitive (String.◌∷◌ c s) (String.◌∷◌ d t) String.[] h k = cc
before_transitive (String.◌∷◌ c s) (String.◌∷◌ d t) (String.◌∷◌ e u) h k =
    let deeper = before_transitive s t u in ground arith

before_antisymmetric : (s t : String) → text_before s t ≡ false → text_before t s ≡ false → s ≡ t
unfolding text_before
before_antisymmetric String.[] String.[] h k = refl
before_antisymmetric String.[] (String.◌∷◌ d t) h k = cc
before_antisymmetric (String.◌∷◌ c s) String.[] h k = cc
before_antisymmetric (String.◌∷◌ c s) (String.◌∷◌ d t) h k =
    elim (Bool-cases (eqb (code c) (code d))) [
      | inl q ↦
          let same : code c ≡ code d = ground (arith, q) in
          let here : text_before s t ≡ false = ground (arith, same) in
          let there : text_before t s ≡ false = ground (arith, same) in
          ap (λ (x : Char). String.◌∷◌ x s) (Char-path c d same)
          ∙ ap (String.◌∷◌ d) (before_antisymmetric s t here there)
      | inr q ↦ absurd (ground (arith, q))
    ]

not_before : (s t : String) → s ≢ t → text_before s t ≡ false → text_before t s ≡ true
not_before s t differ h = elim (Bool-cases (text_before t s)) [
  | inl q ↦ q
  | inr q ↦ absurd (differ (before_antisymmetric s t h q))
]

module _ {ℓ} {V : Type ℓ} where
  insert_swap :
      (x y : String × V) (l : List (String × V))
      → text_before x.0 y.0 ≡ true
      → insert_entry x (insert_entry y l) ≡ insert_entry y (insert_entry x l)
  unfolding insert_entry
  insert_swap x y [] h = let back = before_asymmetric x.0 y.0 h in rw h (rw back refl)
  insert_swap x y (z ∷ rest) h =
      let back = before_asymmetric x.0 y.0 h in
      elim (Bool-cases (text_before y.0 z.0)) [
        | inl q ↦
            let first = before_transitive x.0 y.0 z.0 h q in
            rw q (rw first (rw h (rw back (rw q refl))))
        | inr q ↦ elim (Bool-cases (text_before x.0 z.0)) [
          | inl r ↦ rw q (rw r (rw back (rw q refl)))
          | inr r ↦
              rw q (rw r (rw q (ap (λ (l : List (String × V)). z ∷ l) (insert_swap x y rest h))))
        ]
      ]

  -- Two orders of the entries of a map: one is made of the other by swapping neighbours.
  pub data Reordered : List (String × V) → List (String × V) → Type ℓ where
    as_is : (l : List (String × V)) → Reordered l l
    swapped :
        (xs : List (String × V)) (x y : String × V) (ys l : List (String × V))
        → x.0 ≢ y.0
        → Reordered (xs ++ y ∷ x ∷ ys) l
        → Reordered (xs ++ x ∷ y ∷ ys) l

  sort_swap :
      (xs : List (String × V)) (x y : String × V) (ys : List (String × V))
      → x.0 ≢ y.0
      → sort_entries (xs ++ x ∷ y ∷ ys) ≡ sort_entries (xs ++ y ∷ x ∷ ys)
  unfolding sort_entries
  sort_swap [] x y ys h = elim (Bool-cases (text_before x.0 y.0)) [
    | inl q ↦ insert_swap x y (sort_entries ys) q
    | inr q ↦ sym (insert_swap y x (sort_entries ys) (not_before x.0 y.0 h q))
  ]
  sort_swap (z ∷ xs) x y ys h = ap (insert_entry z) (sort_swap xs x y ys h)

  pub sort_entries-Reordered :
      (l l' : List (String × V)) → Reordered l l' → sort_entries l ≡ sort_entries l'
  sort_entries-Reordered _ _ (as_is l) = refl
  sort_entries-Reordered _ _ (swapped xs x y ys l' h r) =
      sort_swap xs x y ys h ∙ sort_entries-Reordered _ l' r
