-- ===== src/Topology/Parse/Accepted.antt =====
-- What Parse of topology/parse.go returns has passed Validate.
use xk6_otel_gen.Prelude.{ℕ, ◌≡◌, refl, Option, none, some, List, [], ◌∷◌}
use xk6_otel_gen.Topology.Float.{Float64}
use xk6_otel_gen.Topology.Types.{Heap, Schema}
use xk6_otel_gen.Topology.Errors.{ValidationError}
use xk6_otel_gen.Topology.Raw.{RawSchema}
use xk6_otel_gen.Topology.Validate.Whole.{validate}
use xk6_otel_gen.Topology.Parse.Store.{Store}
use xk6_otel_gen.Topology.Parse.Lookup.{ParseErrors, Parsed}
use xk6_otel_gen.Topology.Parse.Schema.{build_schema}
use xk6_otel_gen.Topology.Parse.Whole.{
  ParseResult, parsed, parse, checked, when_resolved, resolve_references,
}

module _ (fl : Float64) (fuel : ℕ) where
  open fl use {F}

  -- The schema and the heap of a result, if it is one.
  abbrev outcome : Option (ParseResult fl) → Option (Schema F × Heap F)
  outcome (some (ParseResult.parsed s h)) = some (s, h)
  outcome _ = none

  checked-validated :
      (found : Option (List ValidationError)) (s' : Schema F) (h' : Heap F) (s : Schema F)
      (h : Heap F)
      → checked fl found s' h' ≡ some (parsed s h)
      → (found ≡ some []) × (s' ≡ s) × (h' ≡ h)
  checked-validated none s' h' s h e = absurd cc
  checked-validated (some []) s' h' s h e = (refl, cc, cc)
  checked-validated (some (x ∷ xs)) s' h' s h e = absurd cc

  resolved-validated :
      (r : ParseErrors × (Schema F × Store F)) (s : Schema F) (h : Heap F)
      → when_resolved fl fuel r ≡ some (parsed s h)
      → (r.0 ≡ []) × (validate fl fuel h (some s) ≡ some [])
  resolved-validated ([], (s', st)) s h e =
      let (quiet, same, heap) =
        checked-validated (validate fl fuel st.heap (some s')) s' st.heap s h e in
      (refl, cc (quiet, same, heap))
  resolved-validated (x ∷ xs, (s', st)) s h e = absurd cc

  pub parse-validated :
      (decoded : Parsed (RawSchema F)) (s : Schema F) (h : Heap F)
      → parse fl fuel decoded ≡ some (parsed s h)
      → validate fl fuel h (some s) ≡ some []
  unfolding parse
  parse-validated (Parsed.failed es) s h e = absurd cc
  parse-validated (Parsed.ok raw) s h e =
      (resolved-validated
        (resolve_references fl (build_schema fl raw).0 raw (build_schema fl raw).1) s h e).1
