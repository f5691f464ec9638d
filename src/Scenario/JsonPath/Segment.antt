-- ===== src/Scenario/JsonPath/Segment.antt =====
-- Segments as they are written (apps/api/internal/scenario/jsonpath.go, parseSegment).
use Prim.Native.Char.{code}
use Prim.Native.String.{String}
use text.Mathlib.TextLemmas.{
  cons-append, nil-append, append-nil as append_nil, append_assoc as text_assoc,
}
use wreckr.Prelude.{
  Lacks, if-eq-some, ℕ, ◌+◌, ◌*◌, ◌-◌, ◌<◌, ℤ, pos, ◌+++◌, ◌≡◌, refl, sym, ap, ◌∙◌, false, ◌&&◌,
  List, [], ◌∷◌, ◌++◌, append_assoc, append-nil, none, some, show, cut, atoi, scan, int_limit,
  atoi-show, scan-show, leb, map, arith, Each,
}
use wreckr.Platform.{ok}
use wreckr.Scenario.JsonPath.{index_loop, parse_segment}

-- One index, and several.
abbrev pub print_indexes : List ℕ → String
print_indexes [] = ""
print_indexes (n ∷ ns) = String.◌∷◌ "[" (show n +++ String.◌∷◌ "]" (print_indexes ns))

abbrev pub print_segment : String × List ℕ → String
print_segment (name, ns) = name +++ print_indexes ns

-- Digits are no other characters.
scanned-Lacks :
    (k : ℕ) (s : String) (m n : ℕ) → leb 48 k && leb k 57 ≡ false → scan s m ≡ some n → Lacks k s
unfolding scan
scanned-Lacks k String.[] m n h e = tt
scanned-Lacks k (String.◌∷◌ c s) m n h e =
    let (digit, rest) = if-eq-some _ (scan s (m * 10 + (code c - 48))) e in
    (ground (arith, digit, h), scanned-Lacks k s (m * 10 + (code c - 48)) n h rest)

module _ (segment : String) (indexes : List ℤ) where
  inside_lem :
      (t read rest : String) (n : ℤ)
      → Lacks 93 t
      → atoi (read +++ t) ≡ some n
      → index_loop segment (some read) (t +++ String.◌∷◌ "]" rest) indexes
        ≡ index_loop segment none rest (indexes ++ n ∷ [])
  unfolding index_loop
  inside_lem String.[] read rest n h e =
      let whole : atoi read ≡ some n = ap atoi (sym (append_nil read)) ∙ e in
      rw (nil-append (String.◌∷◌ "]" rest)) (rw whole refl)
  inside_lem (String.◌∷◌ c t) read rest n h e =
      let moved =
        text_assoc read (String.◌∷◌ c "") t
        ∙ ap (λ (u : String). read +++ u) (cons-append c "" t ∙ ap (String.◌∷◌ c) (nil-append t)) in
      let q = h.0 in
      rw (cons-append c t (String.◌∷◌ "]" rest))
        (rw q (inside_lem t (read +++ String.◌∷◌ c "") rest n h.1 (ap atoi moved ∙ e)))

show-Lacks : (k n : ℕ) → leb 48 k && leb k 57 ≡ false → Lacks k (show n)
show-Lacks k n h = scanned-Lacks k (show n) 0 n h (scan-show n)

-- Every index fits an int.
abbrev pub Small : List ℕ → Type 0
Small ns = Each (λ n. n < int_limit) ns

index_loop-print :
    (segment : String) (ns : List ℕ) (indexes : List ℤ)
    → Small ns
    → index_loop segment none (print_indexes ns) indexes ≡ ok (indexes ++ map pos ns)
unfolding index_loop
index_loop-print segment [] indexes h = rw (append-nil indexes) refl
index_loop-print segment (n ∷ ns) indexes h =
    inside_lem segment indexes (show n) "" (print_indexes ns) (pos n) (show-Lacks 93 n refl)
      (ap atoi (nil-append (show n)) ∙ atoi-show n h.0)
    ∙ index_loop-print segment ns (indexes ++ pos n ∷ []) h.1
    ∙ ap ok (append_assoc indexes (pos n ∷ []) (map pos ns))

cut-append :
    (name rest : String)
    → Lacks 91 name
    → cut 91 (name +++ String.◌∷◌ "[" rest) ≡ (name, String.◌∷◌ "[" rest)
unfolding cut
cut-append String.[] rest h = rw (nil-append (String.◌∷◌ "[" rest)) refl
cut-append (String.◌∷◌ c name) rest h =
    let q = h.0 in
    rw (cons-append c name (String.◌∷◌ "[" rest)) (rw q (rw (cut-append name rest h.1) refl))

cut-Lacks : (name : String) → Lacks 91 name → cut 91 name ≡ (name, "")
unfolding cut
cut-Lacks String.[] h = refl
cut-Lacks (String.◌∷◌ c name) h = let q = h.0 in rw q (rw (cut-Lacks name h.1) refl)

-- A segment is read as the name and the indexes that it was written from; the name has no bracket.
pub parse_segment-print_segment :
    (name : String) (ns : List ℕ)
    → Lacks 91 name
    → Small ns
    → parse_segment (print_segment (name, ns)) ≡ ok (name, map pos ns)
unfolding parse_segment
parse_segment-print_segment name [] h k =
    rw (append_nil name) (rw (cut-Lacks name h) (unfold index_loop in refl))
parse_segment-print_segment name (n ∷ ns) h k =
    let written = print_indexes (n ∷ ns) in
    rw (cut-append name (show n +++ String.◌∷◌ "]" (print_indexes ns)) h)
      (rw (index_loop-print (name +++ written) (n ∷ ns) [] k) refl)
