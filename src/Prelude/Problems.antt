-- ===== src/Prelude/Problems.antt =====
-- Lists of problems: a check appends a problem where something is wrong, and accepts when none was.
use Prim.Native.String.{String}
use mathlib.Core.Path.{◌≡◌, refl}
use mathlib.Core.Logic.{◌↔◌}
use mathlib.Core.Bool.{Bool, true, false}
use mathlib.Core.Option.{none, some}
use mathlib.Core.List.{List, [], ◌∷◌, ◌++◌}
use wreckr.Prelude.Tests.{if◌then◌else◌}
use wreckr.Prelude.Lists.{is_empty}

-- if bad { problems = append(problems, message) }
abbrev pub when : Bool → String → List String
when bad message = if bad then message ∷ [] else []

-- Each element of a list has a property.
abbrev pub Each {ℓ κ} : {A : Type ℓ} → (A → Type κ) → List A → Type κ
Each Q [] = Unit
Each Q (x ∷ more) = Q x × Each Q more

-- The two lists of problems are empty exactly when both are.
pub append_iff {ℓ} : {A : Type ℓ} (xs ys : List A) → (xs ++ ys ≡ []) ↔ ((xs ≡ []) × (ys ≡ []))
append_iff [] ys = (λ h. (refl, h), λ h. h.1)
append_iff (x ∷ xs) ys = (λ h. cc, λ h. cc)

pub when_iff : (b : Bool) (m : String) → (when b m ≡ []) ↔ (b ≡ false)
when_iff true m = (λ h. cc, λ h. cc)
when_iff false m = (λ h. refl, λ h. refl)

pub iff_trans {ℓ κ μ} : {A : Type ℓ} {B : Type κ} {C : Type μ} → A ↔ B → B ↔ C → A ↔ C
iff_trans f g = (λ a. g.0 (f.0 a), λ c. f.1 (g.1 c))

-- Equivalent parts of a pair.
pub both_iff {ℓ κ μ ν} :
    {A : Type ℓ} {B : Type κ} {C : Type μ} {D : Type ν} → A ↔ B → C ↔ D → (A × C) ↔ (B × D)
both_iff f g = (λ h. (f.0 h.0, g.0 h.1), λ h. (f.1 h.0, g.1 h.1))

-- A list of problems in two parts, and what each part's emptiness means.
pub parts_iff {κ μ} :
    {P : Type κ} {Q : Type μ} (xs ys : List String)
    → (xs ≡ []) ↔ P
    → (ys ≡ []) ↔ Q
    → (xs ++ ys ≡ []) ↔ (P × Q)
parts_iff xs ys f g = iff_trans (append_iff xs ys) (both_iff f g)

pub none_iff :
    (xs : List String) (e : String) → ((if is_empty xs then none else some e) ≡ none) ↔ (xs ≡ [])
none_iff [] e = (λ h. refl, λ h. refl)
none_iff (x ∷ xs) e = (λ h. cc, λ h. cc)
