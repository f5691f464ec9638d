-- ===== src/Scenario/JsonPath/Printed.antt =====
-- Paths as they are written (apps/api/internal/scenario/jsonpath.go): a path of fields and indexes leads to
-- the value that the fields and the indexes lead to.
use Prim.Native.String.{String}
use wreckr.Prelude.{
  Lacks, split-append, split-Lacks, ◌≢◌, ℕ, pos, ◌+++◌, ◌==◌, ◌≡◌, ◌≢◌, eq_iff, refl, ap, ◌∙◌, Bool,
  true, false, List, [], ◌∷◌, Option, none, some, split, is_nil, has_prefix, trim_prefix, map, Each,
  Bool-cases, inl, inr,
}
use wreckr.Platform.{Result, ok, err}
use wreckr.Value.{Float64, Json}
use wreckr.Scenario.JsonPath.Segment.{Small, print_segment, parse_segment-print_segment}
use wreckr.Scenario.JsonPath.{
  from_root, then_walk, follow, name_step, segment_step, walk, lookup_json_path,
}

-- A step of a path: the name of a field, or none, and indexes.
abbrev pub PathStep : Type 0
PathStep = String × List ℕ

abbrev pub print_steps : PathStep → List PathStep → String
print_steps s [] = print_segment s
print_steps s (t ∷ ss) = print_segment s +++ String.◌∷◌ "." (print_steps t ss)

abbrev pub print_path : PathStep → List PathStep → String
print_path s ss = String.◌∷◌ "$" (String.◌∷◌ "." (print_steps s ss))

-- What a step must be for its text to be read as it: no dot, no bracket in its name, not empty, and not
-- the word for the length of a list.
pub record Plain (s : PathStep) : Type 0 where
  pub dotless : Lacks 46 (print_segment s)
  pub name : Lacks 91 s.0
  pub indexes : Small s.1
  pub visible : is_nil (print_segment s) ≡ false
  pub other : (print_segment s == "length") ≡ false

split-print :
    (s : PathStep) (ss : List PathStep)
    → Each Plain (s ∷ ss)
    → split 46 (print_steps s ss) ≡ map print_segment (s ∷ ss)
split-print s [] h = split-Lacks "." (print_segment s) h.0.dotless
split-print s (t ∷ ss) h =
    split-append "." (print_segment s) (print_steps t ss) h.0.dotless
    ∙ ap (λ (l : List String). print_segment s ∷ l) (split-print t ss h.1)

abbrev pub onwards : Option Json → (Json → Option Json) → Option Json
onwards none next = none
onwards (some value) next = next value

-- Where the steps lead from a value.
abbrev pub navigate : List PathStep → Json → Option Json
navigate [] value = some value
navigate ((name, ns) ∷ more) value =
    onwards (follow (map pos ns) (name_step name value)) (navigate more)

second : String → String
second String.[] = ""
second (String.◌∷◌ c String.[]) = ""
second (String.◌∷◌ c (String.◌∷◌ d s)) = "x"

ne_text : ◌≢◌ {A = String} "x" ""
unfolding is_nil
ne_text e = let q : ◌≡◌ {A = Bool} false true = ap is_nil e in cc

differ : (s t : String) → second s ≢ second t → (s == t) ≡ false
differ s t h = elim (Bool-cases (s == t)) [
  | inl q ↦ absurd (h (ap second ((eq_iff s t).0 q)))
  | inr q ↦ q
]

not_short :
    (s : String) (t : String) → second t ≡ "" → (String.◌∷◌ "$" (String.◌∷◌ "." s) == t) ≡ false
unfolding second
not_short s t e = differ (String.◌∷◌ "$" (String.◌∷◌ "." s)) t (λ q. absurd (ne_text (q ∙ e)))

module _ (of_nat : ℕ → Float64) where
  then_walk_lem :
      (o : Option Json) (next : Json → Result (Option Json)) (onward : Json → Option Json)
      → ((v : Json) → next v ≡ ok (onward v))
      → then_walk of_nat (ok o) next ≡ ok (onwards o onward)
  then_walk_lem none next onward h = refl
  then_walk_lem (some v) next onward h = h v

  segment_step-print :
      (s : PathStep) (value : Json)
      → Plain s
      → segment_step of_nat (print_segment s) value
        ≡ ok (follow (map pos s.1) (name_step s.0 value))
  unfolding segment_step
  segment_step-print (name, ns) value h =
      rw h.visible (rw h.other (rw (parse_segment-print_segment name ns h.name h.indexes) refl))

  walk-print :
      (ss : List PathStep) (value : Json)
      → Each Plain ss
      → walk of_nat (map print_segment ss) value ≡ ok (navigate ss value)
  unfolding walk
  walk-print [] value h = refl
  walk-print (s ∷ ss) value h =
      ap (λ (r : Result (Option Json)). then_walk of_nat r (walk of_nat (map print_segment ss)))
        (segment_step-print s value h.0)
      ∙ then_walk_lem (follow (map pos s.1) (name_step s.0 value))
          (walk of_nat (map print_segment ss)) (navigate ss) (λ v. walk-print ss v h.1)

  -- Where the steps lead from the root of a document.
  abbrev pub reached : List PathStep → Result Json → Result (Option Json)
  reached ss (err e) = err e
  reached ss (ok root) = ok (navigate ss root)

  from_root-print :
      (ss : List PathStep) (decoded : Result Json)
      → Each Plain ss
      → from_root of_nat decoded (walk of_nat (map print_segment ss)) ≡ reached ss decoded
  from_root-print ss (err e) h = refl
  from_root-print ss (ok root) h = walk-print ss root h

  -- A path that is written from steps of fields and indexes leads to the value that these lead to in the
  -- document, and is found to have none where they lead nowhere; a document that is no JSON is the error
  -- of its decoding. No step may be empty, have a dot, have a bracket in its name, or be the word length,
  -- and the indexes fit an int.
  pub lookup_json_path-print_path :
      (s : PathStep) (ss : List PathStep) (decoded : Result Json)
      → Each Plain (s ∷ ss)
      → lookup_json_path of_nat decoded (print_path s ss) ≡ reached (s ∷ ss) decoded
  unfolding lookup_json_path trim_prefix has_prefix
  lookup_json_path-print_path s ss decoded h =
      let rest = print_steps s ss in
      rw (not_short rest "" (unfold second in refl)) (
        rw (not_short rest "$" (unfold second in refl))
          (rw (split-print s ss h) (from_root-print (s ∷ ss) decoded h)))
