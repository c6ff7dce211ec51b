-- ===== src/Pipelines/Forms/Laws.antt =====
-- What the checks of the form promise.
use Prim.Native.String.{len}
use stardelt_nova.Prelude.{
  ℕ, ◌≤◌, ◌≡◌, refl, ◌≢◌, ◌↔◌, ◌⊎◌, inl, inr, String, true, false, ◌||◌, none, some, [], ◌∷◌,
  length, All, arith, str_eq, eq_iff, Bool-cases, Option-cases,
}
use stardelt_nova.Prelude.Results.{ok, each_iff}
use stardelt_nova.Prelude.Int.{ℤ, pos, negsuc}
use stardelt_nova.Text.{is_empty, has_char}
use stardelt_nova.Map.{Map}
use stardelt_nova.Names.{valid_param_name}
use stardelt_nova.Pipelines.Forms.{
  statement_of, validate_sql, check_param, validate_params, PipelineOptions, PipelineOptionsView,
  in_bounds, with_defaults, resolve, max_statement_chars, max_params, max_param_value_chars,
}

abbrev pub IsBetween : ℕ → ℕ → ℤ → Type 0
IsBetween low high (pos n) = (low ≤ n) × (n ≤ high)
IsBetween low high (negsuc n) = ⊥

in_bounds-IsBetween : (low high : ℕ) (n : ℤ) → in_bounds low high n ≡ true → IsBetween low high n
unfolding in_bounds
in_bounds-IsBetween low high (pos n) h = (ground arith, ground arith)
in_bounds-IsBetween low high (negsuc n) h = cc

-- The options that are stored: inside their limits, the given ones where they were given.
pub record IsResolved (o : PipelineOptions) (v : PipelineOptionsView) : Type 0 where
  pub retries : IsBetween 0 5 v.retries
  pub backoff : IsBetween 1 60 v.backoff_minutes
  pub timeout : IsBetween 1 720 v.timeout_minutes
  pub mode : (v.concurrency ≡ "Allow") ⊎ (v.concurrency ≡ "Forbid")
  pub given_retries : (o.retries ≡ none) ⊎ (o.retries ≡ some v.retries)
  pub given_backoff : (o.backoff_minutes ≡ none) ⊎ (o.backoff_minutes ≡ some v.backoff_minutes)
  pub given_timeout : (o.timeout_minutes ≡ none) ⊎ (o.timeout_minutes ≡ some v.timeout_minutes)

module _ (o : PipelineOptions) where
  retries_given : (o.retries ≡ none) ⊎ (o.retries ≡ some (with_defaults o).retries)
  retries_given = elim (Option-cases o.retries) [ inl e ↦ inl e | inr (n, e) ↦ inr (rw e) ]

  backoff_given :
      (o.backoff_minutes ≡ none) ⊎ (o.backoff_minutes ≡ some (with_defaults o).backoff_minutes)
  backoff_given = elim (Option-cases o.backoff_minutes) [ inl e ↦ inl e | inr (n, e) ↦ inr (rw e) ]

  timeout_given :
      (o.timeout_minutes ≡ none) ⊎ (o.timeout_minutes ≡ some (with_defaults o).timeout_minutes)
  timeout_given = elim (Option-cases o.timeout_minutes) [ inl e ↦ inl e | inr (n, e) ↦ inr (rw e) ]

  mode_of :
      (s : String) → (str_eq s "Allow" || str_eq s "Forbid") ≡ true → (s ≡ "Allow") ⊎ (s ≡ "Forbid")
  mode_of s h = elim (Bool-cases (str_eq s "Allow")) [
    | inl allow ↦ inl ((eq_iff s "Allow").0 allow)
    | inr other ↦ inr ((eq_iff s "Forbid").0 (ground arith))
  ]

-- Options that are accepted have 0 to 5 retries, 1 to 60 minutes between them, 1 to 720 minutes
-- for a run and one of the two run modes, and each number that was given is stored as it was.
pub resolve-IsResolved :
    (o : PipelineOptions) (v : PipelineOptionsView) → resolve o ≡ ok v → IsResolved o v
unfolding resolve
resolve-IsResolved o v h =
    let same : with_defaults o ≡ v = ground arith in
    let r : in_bounds 0 5 (with_defaults o).retries ≡ true = ground arith in
    let b : in_bounds 1 60 (with_defaults o).backoff_minutes ≡ true = ground arith in
    let t : in_bounds 1 720 (with_defaults o).timeout_minutes ≡ true = ground arith in
    let m : (str_eq (with_defaults o).concurrency "Allow"
          || str_eq (with_defaults o).concurrency "Forbid")
        ≡ true =
      ground arith in
    rw (← same) (record {
      retries = in_bounds-IsBetween _ _ _ r;
      backoff = in_bounds-IsBetween _ _ _ b;
      timeout = in_bounds-IsBetween _ _ _ t;
      mode = mode_of o _ m;
      given_retries = retries_given o;
      given_backoff = backoff_given o;
      given_timeout = timeout_given o;
    })

pub record IsStatement (s : String) : Type 0 where
  pub is_there : s ≢ ""
  pub short : len s ≤ max_statement_chars
  pub no_nul : has_char 0 s ≡ false

there_of : (s : String) → is_empty s ≡ false → s ≢ ""
there_of String.[] h = cc
there_of (String.◌∷◌ c s) h = λ e. cc

-- A statement that is accepted is the trimmed text without one semicolon at its end; it is not
-- empty, has at most 20000 characters and no NUL.
pub validate_sql-IsStatement :
    (sql statement : String)
    → validate_sql sql ≡ ok statement
    → (statement ≡ statement_of sql) × IsStatement statement
unfolding validate_sql
validate_sql-IsStatement sql statement h =
    let same : statement_of sql ≡ statement = ground arith in
    rw (← same) (
      refl,
      record {
        is_there = there_of (statement_of sql) (ground arith);
        short = ground arith;
        no_nul = ground arith;
      },
    )

-- A parameter: its name is well formed, and its value is short and without NUL.
abbrev pub IsParam : String × String → Type 0
IsParam (name, value) =
    (valid_param_name name ≡ true)
    × (has_char 0 value ≡ false)
    × (len value ≤ max_param_value_chars)

check_param_iff : (e : String × String) → (check_param e ≡ ok tt) ↔ IsParam e
unfolding check_param
check_param_iff (name, value) = ground arith

params_iff : (es : Map String) → All (λ e. check_param e ≡ ok tt) es ↔ All IsParam es
params_iff [] = (λ _. tt, λ _. tt)
params_iff (e ∷ es) =
    let (to, from) = params_iff es in
    (λ h. ((check_param_iff e).0 h.0, to h.1), λ h. ((check_param_iff e).1 h.0, from h.1))

-- The parameters of a schedule are accepted exactly when there are at most 16, each with a well
-- formed name and a value of at most 256 characters without NUL.
pub validate_params_iff :
    (params : Map String)
    → (validate_params params ≡ ok tt) ↔ ((length params ≤ max_params) × All IsParam params)
unfolding validate_params
validate_params_iff params =
    let (to, from) = each_iff check_param params in
    let (there, back) = params_iff params in
    (
      λ h. (ground arith, there (to (ground arith))),
      λ h. let all_ok = from (back h.1) in ground arith,
    )
