-- ===== src/Topology/Lint.antt =====
-- topology/lint.go. What the YAML decoder returns, strictly and not, is an argument, and so is the
-- order of the texts of paths and messages. sort.SliceStable is an insertion sort, which is stable.
pub mod Accepted
use Prim.Native.Char.{code}
use xk6_otel_gen.Prelude.{
  ℕ, String, Bool, true, false, ◌&&◌, ◌||◌, not, Option, none, some, List, [], ◌∷◌, ◌++◌, map,
  str_eq, if◌then◌else◌, ◌==◌,
}
use xk6_otel_gen.Prelude.Text.{cut, contains_text}
use xk6_otel_gen.Topology.Float.{Float64}
use xk6_otel_gen.Topology.Types.{Schema}
use xk6_otel_gen.Topology.Errors.{FieldPath, ValidationError, key}
use xk6_otel_gen.Topology.Raw.{RawSchema}
use xk6_otel_gen.Topology.Validate.Whole.{validate}
use xk6_otel_gen.Topology.Parse.Store.{Store}
use xk6_otel_gen.Topology.Parse.Lookup.{ParseErrors}
use xk6_otel_gen.Topology.Parse.Schema.{build_schema}
use xk6_otel_gen.Topology.Parse.Whole.{resolve_references}

pub data LintSeverity : Type 0 where
  lint_error : LintSeverity
  lint_warning : LintSeverity

-- What a message says, without its text: an error of the decoder or the resolver, the rule of a
-- validation error, or the decoder's own text.
pub data LintMessage : Type 0 where
  not_parsed : LintMessage
  breaks : String → LintMessage
  says : String → LintMessage

pub record LintIssue : Type 0 where
  pub path : FieldPath
  pub severity : LintSeverity
  pub message : LintMessage

-- What decodeRaw returns: a value, an error that wraps a yaml.TypeError with its messages, or another
-- error.
pub data Decoded (F : Type 0) : Type 0 where
  decoded : RawSchema F → Decoded F
  type_error : List String → Decoded F
  unreadable : Decoded F

abbrev pub root : FieldPath
root = key "<root>" ∷ []

unfoldable pub trim_quotes_left : String → String
trim_quotes_left String.[] = ""
trim_quotes_left (String.◌∷◌ c s) =
    let rest = trim_quotes_left s in if code c == 34 then rest else String.◌∷◌ c s

unfoldable pub trim_quotes_right : String → String
trim_quotes_right String.[] = ""
trim_quotes_right (String.◌∷◌ c s) =
    let rest = trim_quotes_right s in
    if code c == 34 && str_eq rest "" then "" else String.◌∷◌ c rest

abbrev pub field_path : String → FieldPath
field_path field = if str_eq field "" then root else key "<root>" ∷ key field ∷ []

abbrev pub field_before : Option (String × String) → FieldPath
unfolding trim_quotes_left trim_quotes_right
field_before none = root
field_before (some (value, _)) = field_path (trim_quotes_right (trim_quotes_left value))

abbrev pub field_after : Option (String × String) → FieldPath
unfolding cut
field_after none = root
field_after (some (_, after)) = field_before (cut " not found" after)

unfoldable pub unknown_field_path : String → FieldPath
unknown_field_path msg = field_after (cut "field " msg)

abbrev pub unknown_field_warning : String → LintIssue
unknown_field_warning msg = record {
  path = unknown_field_path msg;
  severity = lint_warning;
  message = LintMessage.says msg;
}

-- nil, false where a message is not about an unknown field.
unfoldable pub unknown_field_warnings : List String → Option (List LintIssue)
unfolding unknown_field_path
unknown_field_warnings [] = some []
unknown_field_warnings (msg ∷ msgs) =
    let rest = unknown_field_warnings msgs in
    if not (contains_text "field " msg) || not (contains_text " not found" msg)
    then none
    else elim rest [ none ↦ none | some warnings ↦ some (unknown_field_warning msg ∷ warnings) ]

abbrev pub error_at : FieldPath → LintMessage → LintIssue
error_at path message = record { path = path; severity = lint_error; message = message }

-- appendIssuesFromError on the joined errors of resolveReferences and of Validate, and on an error of
-- the decoder.
abbrev pub parse_issue : FieldPath → LintIssue
parse_issue path = error_at path not_parsed

abbrev pub rule_issue : ValidationError → LintIssue
rule_issue e = error_at e.path (breaks e.rule)

abbrev pub same_severity : LintSeverity → LintSeverity → Bool
same_severity lint_error lint_error = true
same_severity lint_warning lint_warning = true
same_severity _ _ = false

abbrev pub less_severity : LintSeverity → LintSeverity → Bool
less_severity lint_error lint_warning = true
less_severity _ _ = false

module _ (less_path : FieldPath → FieldPath → Bool)
    (less_message : LintMessage → LintMessage → Bool) where
  -- Of two texts one is less than the other unless they are the same.
  abbrev pub differ : FieldPath → FieldPath → Bool
  differ a b = less_path a b || less_path b a

  unfoldable pub issue_less : LintIssue → LintIssue → Bool
  issue_less a b =
      if differ a.path b.path
      then less_path a.path b.path
      else if not (same_severity a.severity b.severity)
      then less_severity a.severity b.severity
      else less_message a.message b.message

  -- Before the first issue that is greater.
  unfoldable pub insert_issue : LintIssue → List LintIssue → List LintIssue
  unfolding issue_less
  insert_issue x [] = x ∷ []
  insert_issue x (y ∷ ys) =
      let rest = insert_issue x ys in if issue_less y x then y ∷ rest else x ∷ y ∷ ys

  -- An issue is inserted before the equal ones that came after it.
  unfoldable pub sort_lint_issues : List LintIssue → List LintIssue
  unfolding insert_issue
  sort_lint_issues [] = []
  sort_lint_issues (x ∷ xs) = insert_issue x (sort_lint_issues xs)

  -- The issues, with the decoder's error where it is returned beside them.
  pub data Linted : Type 0 where
    linted : List LintIssue → Linted
    not_read : List LintIssue → Linted

  module _ (fl : Float64) (fuel : ℕ) where
    open fl use {F}

    abbrev pub lint_checked :
        List LintIssue → ParseErrors → Option (List ValidationError) → Option Linted
    lint_checked issues errs none = none
    lint_checked issues errs (some found) =
        some (linted (sort_lint_issues ((issues ++ map parse_issue errs) ++ map rule_issue found)))

    abbrev pub lint_resolved : List LintIssue → ParseErrors × (Schema F × Store F) → Option Linted
    lint_resolved issues (errs, (s, st)) =
        lint_checked issues errs (validate fl fuel st.heap (some s))

    abbrev pub lint_raw : List LintIssue → RawSchema F → Option Linted
    lint_raw issues raw =
        let (s, st) = build_schema fl raw in lint_resolved issues (resolve_references fl s raw st)

    -- Once the strict decoder has failed: the issues so far and the ones added if the other does not.
    abbrev pub lint_lax : List LintIssue → List LintIssue → Decoded F → Option Linted
    lint_lax issues later (decoded raw) = lint_raw (issues ++ later) raw
    lint_lax issues later (type_error msgs) =
        some (linted (sort_lint_issues (issues ++ parse_issue root ∷ [])))
    lint_lax issues later unreadable = some (not_read issues)

    abbrev pub lint_unknown : Option (List LintIssue) → Decoded F → Option Linted
    lint_unknown none lax = lint_lax [] (parse_issue root ∷ []) lax
    lint_unknown (some warnings) lax = lint_lax warnings [] lax

    -- `none` where the validation runs out of fuel.
    unfoldable pub lint : Decoded F → Decoded F → Option Linted
    unfolding build_schema resolve_references validate unknown_field_warnings sort_lint_issues
    lint (decoded raw) lax = lint_raw [] raw
    lint (type_error msgs) lax = lint_unknown (unknown_field_warnings msgs) lax
    lint unreadable lax = lint_lax [] (parse_issue root ∷ []) lax
