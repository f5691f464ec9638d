-- ===== src/Config/Listed.antt =====
-- The limits and lists that the environment sets (apps/api/internal/config/config.go).
use wreckr.Prelude.{
  times_small, ℕ, ◌*◌, ◌<◌, int_limit, ℤ, pos, times, String, ◌≡◌, refl, ap, ◌∙◌, sym, subst, ◌+++◌,
  ◌↔◌, is_nil-append, true, false, List, [], ◌∷◌, Each, Lacks, join, split, split-join, trim_space,
  is_nil, atoi, atoi-show, show, show_nonempty, arith,
}
use wreckr.Platform.{Platform}
use wreckr.Guardrails.{matches_allowlist}
use wreckr.Guardrails.Metadata.{Admitted, matches_allowlist_iff}
use wreckr.Config.{second, keep_parts, or_fallback, env_int, env_csv, guardrails_from_env, from_env}

-- An item of a list as it is read: without commas, not empty, and without space around it.
pub record Item (x : String) : Type 0 where
  pub commaless : Lacks 44 x
  pub visible : is_nil x ≡ false
  pub trimmed : trim_space x ≡ x

keep_parts-Item : (xs : List String) → Each Item xs → keep_parts xs ≡ xs
unfolding keep_parts
keep_parts-Item [] h = refl
keep_parts-Item (x ∷ xs) h =
    let same = h.0.trimmed in
    let visible = h.0.visible in
    rw same (rw visible (ap (λ (l : List String). x ∷ l) (keep_parts-Item xs h.1)))

commaless_all : (xs : List String) → Each Item xs → Each (Lacks 44) xs
commaless_all [] h = tt
commaless_all (x ∷ xs) h = (h.0.commaless, commaless_all xs h.1)

join_visible :
    (x : String) (xs : List String) → is_nil x ≡ false → is_nil (join "," (x ∷ xs)) ≡ false
unfolding join is_nil
join_visible x [] h = h
join_visible x (y ∷ ys) h = is_nil-append x ("," +++ join "," (y ∷ ys)) h

module _ (env : String → String) where
  env_int-show :
      (key : String) (fallback : ℤ) (n : ℕ)
      → n < int_limit
      → env key ≡ show n
      → env_int env key fallback ≡ pos n
  unfolding env_int or_fallback
  env_int-show key fallback n small e =
      rw (ap is_nil e ∙ show_nonempty n)
        (ap (λ v. or_fallback fallback (atoi v)) e ∙ ap (or_fallback fallback) (atoi-show n small))

  env_int_unset : (key : String) (fallback : ℤ) → env key ≡ "" → env_int env key fallback ≡ fallback
  unfolding env_int is_nil
  env_int_unset key fallback e = rw e refl

  env_csv-join :
      (key x : String) (xs : List String)
      → Each Item (x ∷ xs)
      → env key ≡ join "," (x ∷ xs)
      → env_csv env key ≡ x ∷ xs
  unfolding env_csv
  env_csv-join key x xs h e =
      let visible = ap is_nil e ∙ join_visible x xs h.0.visible in
      rw visible (
        ap (λ v. keep_parts (split 44 v)) e
        ∙ ap keep_parts (split-join "," x xs (commaless_all (x ∷ xs) h))
        ∙ keep_parts-Item (x ∷ xs) h)

  module _ (p : Platform) (in_seconds : ℤ → ℤ) where
    -- Where the environment lists items, joined by commas, that hold no comma, are not empty and have no
    -- space around them, the allowlist of the configuration matches a URL exactly when an item admits it.
    pub from_env-Admitted :
        (x : String) (xs : List String) (u : p.Url)
        → Each Item (x ∷ xs)
        → env "WRECKR_TARGET_ALLOWLIST" ≡ join "," (x ∷ xs)
        → (matches_allowlist p u (from_env env p in_seconds).guardrails.target_allowlist ≡ true)
          ↔ Admitted p u (x ∷ xs)
    unfolding from_env guardrails_from_env
    from_env-Admitted x xs u h e =
        subst (λ (l : List String). (matches_allowlist p u l ≡ true) ↔ Admitted p u (x ∷ xs))
          (sym (env_csv-join "WRECKR_TARGET_ALLOWLIST" x xs h e))
          (matches_allowlist_iff p u (x ∷ xs))

    -- Where the environment sets the timeout of runs to a number of seconds that is in range, and no longest
    -- duration, and the seconds of that timeout are read exactly, it is both.
    pub from_env-times :
        (n : ℕ)
        → n * 1000000000 < int_limit
        → env "WRECKR_RUN_TIMEOUT_SECONDS" ≡ show n
        → env "WRECKR_MAX_RUN_DURATION_SECONDS" ≡ ""
        → in_seconds (pos (n * 1000000000)) ≡ pos n
        → ((from_env env p in_seconds).run_timeout ≡ pos (n * 1000000000))
          × ((from_env env p in_seconds).guardrails.max_run_duration ≡ pos (n * 1000000000))
    unfolding from_env guardrails_from_env
    from_env-times n small e d r =
        let in_range : n < int_limit = omega (arith, small) in
        let timeout =
          ap (λ x. times x second)
            (env_int-show "WRECKR_RUN_TIMEOUT_SECONDS" (pos 300) n in_range e)
          ∙ times_small n 1000000000 small in
        let longest =
          env_int_unset "WRECKR_MAX_RUN_DURATION_SECONDS" _ d ∙ ap in_seconds timeout ∙ r in
        (timeout, ap (λ x. times x second) longest ∙ times_small n 1000000000 small)
