-- ===== src/Report/Verdict.antt =====
-- What the status and the numbers of a report say (apps/api/internal/report/report.go).
use wreckr.Prelude.{
  ltb_ℤ, leb_ℤ, show_ℤ, ◌||◌, pos, leb_ℤ, ◌||◌, show_ℤ, pos, ltb_ℤ, sym, ℕ, suc, ◌+◌, String, ◌+++◌,
  ◌==◌, eq_iff, ◌≡◌, refl, ◌∙◌, ap, Bool, true, false, not, ◌&&◌, List, [], ◌∷◌, ◌++◌, append_assoc,
  append-nil, arith, lookup, lookup-insert, length, all, all-append, count_where, Dict, Bool-cases,
  inl, inr, if◌then◌else◌,
}
use wreckr.Value.{Float64}
use wreckr.Event.{Time}
use wreckr.Report.{Status, passed, failed, ResponseRecord, CheckResult}
use wreckr.Report.Build.{
  FloatOps, status_key, increment, count_of, has_error, Tally, tally, no_tally, summarize, judge,
  judge_records, build,
}

abbrev pub passes : Status → Bool
passes passed = true
passes _ = false

abbrev pub line_of : CheckResult → String
line_of c = c.name +++ ": " +++ c.message

-- The lines of the checks that failed.
abbrev pub failed_lines : List CheckResult → List String
failed_lines [] = []
failed_lines (c ∷ cs) = let rest = failed_lines cs in if c.passed then rest else line_of c ∷ rest

-- One more, counted before or after.
counted : (b : Bool) (x n : ℕ) → (if b then suc x else x) + n ≡ x + (if b then suc n else n)
counted true x n = omega arith
counted false x n = refl

none_before : (n : ℕ) → 0 + n ≡ n
none_before n = omega arith

increment_lem :
    (set key : String) (codes : Dict ℕ)
    → count_of (lookup key (increment set codes))
      ≡ (if set == key then suc (count_of (lookup key codes)) else count_of (lookup key codes))
unfolding increment
increment_lem set key codes = rw lookup-insert (ground (arith, eq_iff set key))

alone_or : (b : Bool) → b ≡ b || false
alone_or true = refl
alone_or false = refl

-- Whether a key names the status of a record: its digits, or `error` where there is none.
abbrev pub same_key : String → ResponseRecord → Bool
same_key key r =
    (ltb_ℤ (pos 0) r.status_code && (show_ℤ r.status_code == key))
    || (leb_ℤ r.status_code (pos 0) && ("error" == key))

same_key_lem : (key : String) (r : ResponseRecord) → (status_key r == key) ≡ same_key key r
unfolding status_key
same_key_lem key r = elim (Bool-cases (ltb_ℤ (pos 0) r.status_code)) [
  | inl q ↦
      let out : leb_ℤ r.status_code (pos 0) ≡ false = ground (arith, q) in
      rw q (rw out (alone_or (show_ℤ r.status_code == key)))
  | inr q ↦ let out : leb_ℤ r.status_code (pos 0) ≡ true = ground (arith, q) in rw q (rw out refl)
]

judge_lem :
    (cs : List CheckResult) (s : Status) (fs : List String)
    → (passes (judge cs (s, fs)).0 ≡ passes s && all (λ c. c.passed) cs)
      × ((judge cs (s, fs)).1 ≡ fs ++ failed_lines cs)
unfolding judge
judge_lem [] s fs = (ground arith, sym (append-nil fs))
judge_lem (c ∷ cs) s fs = elim (Bool-cases c.passed) [
  | inl q ↦ rw q (judge_lem cs s fs)
  | inr q ↦
      let (verdict, lines) = judge_lem cs failed (fs ++ line_of c ∷ []) in
      rw q (ground (arith, verdict), lines ∙ append_assoc fs (line_of c ∷ []) (failed_lines cs))
]

judge_records_lem :
    (rs : List ResponseRecord) (s : Status)
    → passes (judge_records rs s) ≡ passes s && all (λ r. not (has_error r)) rs
unfolding judge_records
judge_records_lem [] s = ground arith
judge_records_lem (r ∷ rs) s = let ih = judge_records_lem rs s in ground (arith, ih)

module _ (f : FloatOps) where
  -- A report says passed exactly when every threshold and invariant passed and no request had an error,
  -- and its failures are the lines of the checks that failed, the thresholds' first.
  pub build_lem :
      (finished : Time) (duration : Float64) (id name : String) (started : Time)
      (records : List ResponseRecord) (thresholds invariants : List CheckResult)
      → let rep = build f finished duration id name started records thresholds invariants in
        (passes rep.status
          ≡ (all (λ c. c.passed) thresholds && all (λ c. c.passed) invariants)
            && all (λ r. not (has_error r)) records)
        × (rep.failures ≡ failed_lines (thresholds ++ invariants))
  unfolding build
  build_lem finished duration id name started records thresholds invariants =
      let (verdict, lines) = judge_lem (thresholds ++ invariants) passed [] in
      let requests = judge_records_lem records (judge (thresholds ++ invariants) (passed, [])).0 in
      let both = all-append (λ c. c.passed) thresholds invariants in
      (ground (arith, verdict, requests, both), lines)

  tally_lem :
      (rs : List ResponseRecord) (t : Tally)
      → let u = tally f rs t in
        (u.total_requests ≡ t.total_requests + length rs)
        × (u.failed_requests ≡ t.failed_requests + count_where has_error rs)
        × ((key : String)
            → count_of (lookup key u.status_codes)
              ≡ count_of (lookup key t.status_codes) + count_where (same_key key) rs)
  unfolding tally
  tally_lem [] t = (omega arith, omega arith, λ key. omega arith)
  tally_lem (r ∷ rs) t =
      let t' : Tally = record {
        total_requests = suc t.total_requests;
        failed_requests = if has_error r then suc t.failed_requests else t.failed_requests;
        status_codes = increment (status_key r) t.status_codes;
        durations = t.durations ++ r.duration_ms ∷ [];
        total = f.add t.total r.duration_ms;
      } in
      let (all_of, bad, by_key) = tally_lem rs t' in
      (
        omega (arith, all_of),
        bad ∙ counted (has_error r) t.failed_requests (count_where has_error rs),
        λ key.
            by_key key
            ∙ (ap (λ n. n + count_where (same_key key) rs)
                  (increment_lem (status_key r) key t.status_codes
                    ∙ ap
                        (λ b.
                          if b
                          then suc (count_of (lookup key t.status_codes))
                          else count_of (lookup key t.status_codes))
                        (same_key_lem key r))
                ∙ counted (same_key key r) (count_of (lookup key t.status_codes))
                    (count_where (same_key key) rs)),
      )

  -- A summary counts the requests, those with an error, and for each key how many requests have that
  -- status code, where the digits of a number above 0 are the key of that status and `error` is that of
  -- the requests without one.
  pub summarize_lem :
      (records : List ResponseRecord) (key : String)
      → let s = summarize f records in
        (s.total_requests ≡ length records)
        × (s.failed_requests ≡ count_where has_error records)
        × (count_of (lookup key s.status_codes) ≡ count_where (same_key key) records)
  unfolding summarize lookup
  summarize_lem [] key = (refl, refl, refl)
  summarize_lem (r ∷ rs) key =
      let (all_of, bad, by_key) = tally_lem (r ∷ rs) (no_tally f) in
      (all_of ∙ none_before _, bad ∙ none_before _, by_key key ∙ none_before _)
