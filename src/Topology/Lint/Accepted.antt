-- ===== src/Topology/Lint/Accepted.antt =====
-- Lint of topology/lint.go beside Parse of topology/parse.go, which decodes as Lint does when it is not
-- strict.
use xk6_otel_gen.Prelude.{
  ℕ, ◌≡◌, refl, sym, subst, ap, Bool, true, false, ◌||◌, Option, none, some, List, [], ◌∷◌, ◌++◌,
  map, Bool-cases, inl, inr, arith,
}
use xk6_otel_gen.Topology.Float.{Float64}
use xk6_otel_gen.Topology.Types.{Heap, Schema}
use xk6_otel_gen.Topology.Errors.{FieldPath, ValidationError}
use xk6_otel_gen.Topology.Raw.{RawSchema}
use xk6_otel_gen.Topology.Validate.Whole.{validate}
use xk6_otel_gen.Topology.Parse.Store.{Store}
use xk6_otel_gen.Topology.Parse.Lookup.{ParseErrors, Parsed}
use xk6_otel_gen.Topology.Parse.Schema.{build_schema}
use xk6_otel_gen.Topology.Parse.Whole.{
  ParseResult, parsed, parse, when_resolved, resolve_references,
}
use xk6_otel_gen.Topology.Lint.{
  LintSeverity, lint_error, lint_warning, LintMessage, LintIssue, Decoded, decoded, type_error,
  unreadable, root, unknown_field_warnings, issue_less, insert_issue, sort_lint_issues, linted,
  lint_checked, lint_resolved, lint_raw, lint_lax, lint_unknown, lint, parse_issue, rule_issue,
}

abbrev pub is_error : LintSeverity → Bool
is_error lint_error = true
is_error lint_warning = false

unfoldable pub has_errors : List LintIssue → Bool
has_errors [] = false
has_errors (x ∷ xs) = is_error x.severity || has_errors xs

has_errors-append :
    (xs ys : List LintIssue) → has_errors (xs ++ ys) ≡ has_errors xs || has_errors ys
unfolding has_errors
has_errors-append [] ys = refl
has_errors-append (x ∷ xs) ys = ground (arith, has_errors-append xs ys)

-- What the decoder that is not strict gives Parse.
unfoldable pub raw_of : {F : Type 0} → Decoded F → Parsed (RawSchema F)
raw_of (decoded raw) = Parsed.ok raw
raw_of (type_error msgs) = Parsed.failed (root ∷ [])
raw_of unreadable = Parsed.failed (root ∷ [])

all_clean :
    (issues : List LintIssue) (errs : ParseErrors) (found : List ValidationError)
    → has_errors ((issues ++ map parse_issue errs) ++ map rule_issue found) ≡ false
    → (errs ≡ []) × (found ≡ [])
unfolding has_errors
all_clean issues [] [] clean = (refl, refl)
all_clean issues [] (e ∷ found) clean =
    absurd (ground (arith, clean, has_errors-append (issues ++ []) (map rule_issue (e ∷ found))))
all_clean issues (e ∷ errs) found clean = absurd (
    ground (
      arith,
      clean,
      has_errors-append (issues ++ map parse_issue (e ∷ errs)) (map rule_issue found),
      has_errors-append issues (map parse_issue (e ∷ errs)),
    ))

module _ (less_path : FieldPath → FieldPath → Bool)
    (less_message : LintMessage → LintMessage → Bool) where
  has_errors-insert :
      (x : LintIssue) (xs : List LintIssue)
      → has_errors (insert_issue less_path less_message x xs) ≡ is_error x.severity || has_errors xs
  unfolding has_errors insert_issue
  has_errors-insert x [] = refl
  has_errors-insert x (y ∷ ys) = elim (Bool-cases (issue_less less_path less_message y x)) [
    | inl later ↦ ground (arith, later, has_errors-insert x ys)
    | inr here ↦ ground (arith, here)
  ]

  has_errors-sort :
      (xs : List LintIssue)
      → has_errors (sort_lint_issues less_path less_message xs) ≡ has_errors xs
  unfolding has_errors sort_lint_issues
  has_errors-sort [] = refl
  has_errors-sort (x ∷ xs) =
      ground (
        arith,
        has_errors-insert x (sort_lint_issues less_path less_message xs),
        has_errors-sort xs,
      )

  module _ (fl : Float64) (fuel : ℕ) where
    open fl use {F}

    abbrev pub IsAccepted : Option (ParseResult fl) → Type 0
    IsAccepted result = (s : Schema F) × ((h : Heap F) × (result ≡ some (ParseResult.parsed s h)))

    clean_checked :
        (issues : List LintIssue) (errs : ParseErrors) (found : Option (List ValidationError))
        (out : List LintIssue)
        → lint_checked less_path less_message fl fuel issues errs found ≡ some (linted out)
        → has_errors out ≡ false
        → (errs ≡ []) × (found ≡ some [])
    clean_checked issues errs none out ran clean = absurd cc
    clean_checked issues errs (some found) out ran clean =
        let all = (issues ++ map parse_issue errs) ++ map rule_issue found in
        let same : sort_lint_issues less_path less_message all ≡ out = cc ran in
        let (no_errs, no_found) =
          all_clean issues errs found (cc (same, clean, has_errors-sort all)) in
        (no_errs, ap some no_found)

    clean_resolved :
        (issues : List LintIssue) (r : ParseErrors × (Schema F × Store F)) (out : List LintIssue)
        → lint_resolved less_path less_message fl fuel issues r ≡ some (linted out)
        → has_errors out ≡ false
        → IsAccepted (when_resolved fl fuel r)
    clean_resolved issues (errs, (s, st)) out ran clean =
        let (no_errs, quiet) =
          clean_checked issues errs (validate fl fuel st.heap (some s)) out ran clean in
        rw (no_errs, quiet) (s, (st.heap, refl))

    clean_raw :
        (issues : List LintIssue) (raw : RawSchema F) (out : List LintIssue)
        → lint_raw less_path less_message fl fuel issues raw ≡ some (linted out)
        → has_errors out ≡ false
        → IsAccepted (parse fl fuel (Parsed.ok raw))
    unfolding parse
    clean_raw issues raw out ran clean =
        clean_resolved issues
          (resolve_references fl (build_schema fl raw).0 raw (build_schema fl raw).1) out ran clean

    clean_lax :
        (issues later : List LintIssue) (lax : Decoded F) (out : List LintIssue)
        → lint_lax less_path less_message fl fuel issues later lax ≡ some (linted out)
        → has_errors out ≡ false
        → IsAccepted (parse fl fuel (raw_of lax))
    unfolding raw_of
    clean_lax issues later (decoded raw) out ran clean =
        clean_raw (issues ++ later) raw out ran clean
    clean_lax issues later (type_error msgs) out ran clean =
        let all = issues ++ parse_issue root ∷ [] in
        let same : sort_lint_issues less_path less_message all ≡ out = cc ran in
        let clean_all : has_errors all ≡ false = cc (same, clean, has_errors-sort all) in
        absurd (
          unfold has_errors in
          ground (arith, clean_all, has_errors-append issues (parse_issue root ∷ [])))
    clean_lax issues later unreadable out ran clean = absurd cc

    clean_unknown :
        (warnings : Option (List LintIssue)) (lax : Decoded F) (out : List LintIssue)
        → lint_unknown less_path less_message fl fuel warnings lax ≡ some (linted out)
        → has_errors out ≡ false
        → IsAccepted (parse fl fuel (raw_of lax))
    clean_unknown none lax out ran clean = clean_lax [] (parse_issue root ∷ []) lax out ran clean
    clean_unknown (some warnings) lax out ran clean = clean_lax warnings [] lax out ran clean

    -- If the strict decoder gives no other value than the one that is not strict, and Lint returns
    -- issues none of which is an error, then Parse returns a schema for the same input.
    pub lint-parse :
        (strict lax : Decoded F) (out : List LintIssue)
        → ((raw : RawSchema F) → strict ≡ decoded raw → lax ≡ decoded raw)
        → lint less_path less_message fl fuel strict lax ≡ some (linted out)
        → has_errors out ≡ false
        → (s : Schema F) × ((h : Heap F) × (parse fl fuel (raw_of lax) ≡ some (parsed s h)))
    unfolding lint
    lint-parse (decoded raw) lax out agree ran clean =
        let same = agree raw refl in
        subst (λ d. IsAccepted (parse fl fuel (raw_of d))) (sym same)
          (unfold raw_of in clean_raw [] raw out ran clean)
    lint-parse (type_error msgs) lax out agree ran clean =
        clean_unknown (unknown_field_warnings msgs) lax out ran clean
    lint-parse unreadable lax out agree ran clean =
        clean_lax [] (parse_issue root ∷ []) lax out ran clean
