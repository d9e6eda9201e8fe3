-- ===== src/Topology/Errors.antt =====
-- topology/errors.go: validation errors. A path such as `services.a.operations.b.calls[0]` is the
-- list of its segments; the free text of a message is left out.
use xk6_otel_gen.Prelude.{ℕ, String, List, [], ◌∷◌, ◌++◌}

pub data Segment : Type 0 where
  key : String → Segment
  at : ℕ → Segment

abbrev pub FieldPath : Type 0
FieldPath = List Segment

infixl 66 ◌/ₖ◌ ◌/ᵢ◌
-- path + "." + name
abbrev pub ◌/ₖ◌ : FieldPath → String → FieldPath
p /ₖ name = p ++ key name ∷ []

-- path + "[i]"
abbrev pub ◌/ᵢ◌ : FieldPath → ℕ → FieldPath
p /ᵢ i = p ++ at i ∷ []

pub record ValidationError : Type 0 where
  pub path : FieldPath
  pub rule : String

abbrev pub new_validation_error : FieldPath → String → ValidationError
new_validation_error path rule = record { path = path; rule = rule }

-- An `append` of one error under a test.
abbrev pub one_error : FieldPath → String → List ValidationError
one_error path rule = new_validation_error path rule ∷ []
