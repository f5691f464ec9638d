-- ===== src/K6/Names/Read.antt =====
-- The names that the compiler gives to the metrics of a script, as the k6 runner reads them
-- (apps/api/internal/k6script/compiler.go and apps/api/internal/runner/k6_runner.go).
use Prim.Native.Char.{Char, code}
use Prim.Native.String.{String}
use text.Mathlib.TextLemmas.{
  cons-append, nil-append, append-nil as append_nil, append_assoc as text_assoc,
}
use wreckr.Prelude.{
  ltb, show_nonempty, ℕ, ◌+◌, ◌-◌, ◌*◌, ◌<◌, pos, ◌+++◌, ◌≡◌, refl, sym, ap, ◌∙◌, Bool, true, false,
  ◌||◌, some, show, show_ℤ, quote, quote_char, quote_all, cut, scan, int_limit, atoi-show,
  scan-show, is_nil, has_prefix, trim_prefix, drop_prefix, eqb, arith, if-eq-some,
}
use wreckr.K6.Thresholds.{status_metric}
use wreckr.K6.Names.{
  match_metric, match_name, name_until, status_of, after, digits_then_brace, status_number,
}

-- The characters that the verb %q escapes, if those beyond ASCII print.
abbrev pub is_escaped : ℕ → Bool
is_escaped c = eqb c 34 || eqb c 92 || (ltb c 32 || eqb c 127)

-- A text that %q only puts in quotes.
abbrev pub Unescaped : String → Type 0
Unescaped String.[] = Unit
Unescaped (String.◌∷◌ c s) = (is_escaped (code c) ≡ false) × Unescaped s

plain_char : (c : Char) → is_escaped (code c) ≡ false → quote_char c ≡ String.◌∷◌ c ""
unfolding quote_char
plain_char c h = ground arith

quote_all-Unescaped : (s : String) → Unescaped s → quote_all s ≡ s
unfolding quote_all quote_char
quote_all-Unescaped String.[] h = refl
quote_all-Unescaped (String.◌∷◌ c s) h =
    ap (λ (q : String). q +++ quote_all s) (plain_char c h.0)
    ∙ cons-append c "" (quote_all s)
    ∙ ap (String.◌∷◌ c) (nil-append (quote_all s) ∙ quote_all-Unescaped s h.1)

has_prefix-append : (s t : String) → has_prefix (s +++ t) s ≡ true
unfolding has_prefix
has_prefix-append String.[] t = refl
has_prefix-append (String.◌∷◌ c s) t =
    let same : eqb (code c) (code c) ≡ true = ground arith in
    rw (cons-append c s t) (rw same (has_prefix-append s t))

drop_prefix-append : (s t : String) → drop_prefix (s +++ t) s ≡ t
unfolding drop_prefix
drop_prefix-append String.[] t = nil-append t
drop_prefix-append (String.◌∷◌ c s) t = rw (cons-append c s t) (drop_prefix-append s t)

after-append : (s t : String) → after s (s +++ t) ≡ some t
unfolding after trim_prefix
after-append s t = rw (has_prefix-append s t) (ap some (drop_prefix-append s t))

cut-quote :
    (name rest : String)
    → Unescaped name
    → cut 34 (name +++ String.◌∷◌ "\"" rest) ≡ (name, String.◌∷◌ "\"" rest)
unfolding cut
cut-quote String.[] rest h = rw (nil-append (String.◌∷◌ "\"" rest)) refl
cut-quote (String.◌∷◌ c name) rest h =
    let other : eqb (code c) 34 ≡ false = ground (arith, h) in
    rw (cons-append c name (String.◌∷◌ "\"" rest)) (rw other (rw (cut-quote name rest h.1) refl))

digits_then_brace-scan :
    (s read : String) (m n : ℕ)
    → scan s m ≡ some n
    → is_nil (read +++ s) ≡ false
    → digits_then_brace read (s +++ "}") ≡ some (read +++ s)
unfolding digits_then_brace scan
digits_then_brace-scan String.[] read m n e h =
    let some_read : is_nil read ≡ false = ap is_nil (sym (append_nil read)) ∙ h in
    rw (append_nil read) (rw some_read (unfold is_nil in refl))
digits_then_brace-scan (String.◌∷◌ c s) read m n e h =
    let moved =
      text_assoc read (String.◌∷◌ c "") s
      ∙ ap (λ (u : String). read +++ u) (cons-append c "" s ∙ ap (String.◌∷◌ c) (nil-append s)) in
    let (digit, rest) = if-eq-some _ (scan s (m * 10 + (code c - 48))) e in
    let later =
      digits_then_brace-scan s (read +++ String.◌∷◌ c "") (m * 10 + (code c - 48)) n rest
        (ap is_nil moved ∙ h) in
    rw (cons-append c s "}") (rw digit (later ∙ ap some moved))

-- A name of a metric, with what stands behind the quoted name.
spelled :
    (name digits : String)
    → "http_reqs{name:" +++ ("\"" +++ name +++ "\"") +++ ",status:" +++ digits +++ "}"
      ≡ "http_reqs{name:"
        +++ ("\"" +++ (name +++ String.◌∷◌ "\"" (",status:" +++ (digits +++ "}"))))
spelled name digits =
    let rest = ",status:" +++ (digits +++ "}") in
    simp (text_assoc) (
      ap (λ (u : String). "http_reqs{name:" +++ ("\"" +++ (name +++ u)))
        (cons-append "\"" "" rest ∙ ap (String.◌∷◌ "\"") (nil-append rest)))

-- The status behind a name is read back.
status_of-digits :
    (name digits : String) (n : ℕ)
    → scan digits 0 ≡ some n
    → is_nil digits ≡ false
    → status_of name (some (digits +++ "}")) ≡ some (name, digits)
unfolding status_of
status_of-digits name digits n e h =
    rw (digits_then_brace-scan digits "" 0 n e (ap is_nil (nil-append digits) ∙ h), status_of)
      (ap (λ (u : String). some (name, u)) (nil-append digits))

name_until-quoted :
    (name digits : String) (n : ℕ)
    → Unescaped name
    → is_nil name ≡ false
    → scan digits 0 ≡ some n
    → is_nil digits ≡ false
    → name_until 34 "\",status:" (name +++ String.◌∷◌ "\"" (",status:" +++ (digits +++ "}")))
      ≡ some (name, digits)
unfolding name_until
name_until-quoted name digits n plain visible e h =
    let tail = digits +++ "}" in
    let found =
      ap (after "\",status:") (sym (cons-append "\"" ",status:" tail))
      ∙ after-append "\",status:" tail in
    rw (cut-quote name (",status:" +++ tail) plain)
      (rw visible (ap (status_of name) found ∙ status_of-digits name digits n e h))

match_name-quoted :
    (name digits : String) (n : ℕ)
    → Unescaped name
    → is_nil name ≡ false
    → scan digits 0 ≡ some n
    → is_nil digits ≡ false
    → match_name (some ("\"" +++ (name +++ String.◌∷◌ "\"" (",status:" +++ (digits +++ "}")))))
      ≡ some (name, digits)
unfolding match_name
match_name-quoted name digits n plain visible e h =
    let rest = name +++ String.◌∷◌ "\"" (",status:" +++ (digits +++ "}")) in
    rw (after-append "\"" rest) (rw (name_until-quoted name digits n plain visible e h) refl)

-- A name that is quoted without escapes and the digits of a status are read back.
match_metric-spelled :
    (name digits : String) (n : ℕ)
    → Unescaped name
    → is_nil name ≡ false
    → scan digits 0 ≡ some n
    → is_nil digits ≡ false
    → match_metric (
        "http_reqs{name:"
        +++ ("\"" +++ (name +++ String.◌∷◌ "\"" (",status:" +++ (digits +++ "}")))))
      ≡ some (name, digits)
unfolding match_metric
match_metric-spelled name digits n plain visible e h =
    rw
      (after-append "http_reqs{name:"
        ("\"" +++ (name +++ String.◌∷◌ "\"" (",status:" +++ (digits +++ "}")))))
      (match_name-quoted name digits n plain visible e h)

-- For a status below 2^63 and a name that is not empty and that %q puts in quotes as it is, the name of the
-- metric that the compiler asks k6 for gives the runner the name and the status back.
pub match_metric-status_metric :
    (name : String) (n : ℕ)
    → Unescaped name
    → is_nil name ≡ false
    → n < int_limit
    → (match_metric (status_metric name (pos n)) ≡ some (name, show n))
      × (status_number (show n) ≡ pos n)
unfolding status_metric quote show_ℤ status_number
match_metric-status_metric name n plain visible small =
    let same =
      ap
        (λ (q : String).
          "http_reqs{name:" +++ ("\"" +++ q +++ "\"") +++ ",status:" +++ show n +++ "}")
        (quote_all-Unescaped name plain) in
    (
      ap match_metric (same ∙ spelled name (show n))
          ∙ match_metric-spelled name (show n) n plain visible (scan-show n) (show_nonempty n),
      rw (atoi-show n small, status_number) refl,
    )
