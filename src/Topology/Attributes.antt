-- ===== src/Topology/Attributes.antt =====
-- The free-form maps (map[string]any) of topology/types.go: values as the YAML decoder makes them, and
-- reflect.DeepEqual on them. A float64 is its bits, a map the list of its entries.
use xk6_otel_gen.Prelude.{
  ℕ, suc, ◌%◌, ◌^◌, ◌≡◌, refl, String, Bool, true, false, not, ◌&&◌, ◌||◌, Option, none, some,
  str_eq, ◌==◌, ltb, if◌then◌else◌, ==_self, Bool-cases, inl, inr, eq_iff,
}
use text.Mathlib.TextPositions.{eq_refl}
use xk6_otel_gen.Prelude.Int.{ℤ, eq_ℤ}

-- `other` is a value of another type, such as a time, by its type and its text.
mutual
  pub data Value : Type 0 where
    null : Value
    flag : Bool → Value
    int : ℤ → Value
    float : ℕ → Value
    str : String → Value
    other : String → String → Value
    list : Values → Value
    object : Entries → Value

  pub data Values : Type 0 where
    end : Values
    cons : Value → Values → Values

  pub data Entries : Type 0 where
    no_entry : Entries
    entry : String → Value → Entries → Entries

-- A map, `none` for nil.
abbrev pub Attributes : Type 0
Attributes = Option Entries

-- The tag omitempty of topology/raw.go: a map without entries is not written.
unfoldable pub omit_empty : Attributes → Attributes
omit_empty none = none
omit_empty (some Entries.no_entry) = none
omit_empty (some (Entries.entry k v es)) = some (Entries.entry k v es)

-- The exponent has only ones, and the fraction is not 0.
abbrev pub is_nan_bits : ℕ → Bool
is_nan_bits bits = ltb 0x7FF0000000000000 (bits % 2 ^ 63)

-- a == b on float64, where 0 and -0 are equal.
abbrev pub equal_bits : ℕ → ℕ → Bool
equal_bits a b =
    not (is_nan_bits a) && (not (is_nan_bits b) && (a == b || (a % 2 ^ 63 == 0 && b % 2 ^ 63 == 0)))

abbrev pub equal_flag : Bool → Bool → Bool
equal_flag true b = b
equal_flag false b = not b

unfoldable pub value_at : String → Entries → Option Value
value_at k Entries.no_entry = none
value_at k (Entries.entry j v es) =
    let later = value_at k es in if str_eq j k then some v else later

unfoldable pub count_entries : Entries → ℕ
count_entries Entries.no_entry = 0
count_entries (Entries.entry k v es) = suc (count_entries es)

unfoldable mutual
  unfolding value_at count_entries

  pub deep_equal : Value → Value → Bool
  deep_equal Value.null Value.null = true
  deep_equal (Value.flag a) (Value.flag b) = equal_flag a b
  deep_equal (Value.int a) (Value.int b) = eq_ℤ a b
  deep_equal (Value.float a) (Value.float b) = equal_bits a b
  deep_equal (Value.str a) (Value.str b) = str_eq a b
  deep_equal (Value.other t a) (Value.other u b) = str_eq t u && str_eq a b
  deep_equal (Value.list a) (Value.list b) = deep_equal_values a b
  deep_equal (Value.object a) (Value.object b) =
      count_entries a == count_entries b && deep_equal_entries a b
  deep_equal _ _ = false

  pub deep_equal_values : Values → Values → Bool
  deep_equal_values Values.end Values.end = true
  deep_equal_values (Values.cons v vs) (Values.cons w ws) =
      deep_equal v w && deep_equal_values vs ws
  deep_equal_values _ _ = false

  -- Each entry of the first map has an equal one in the second.
  pub deep_equal_entries : Entries → Entries → Bool
  deep_equal_entries Entries.no_entry m = true
  deep_equal_entries (Entries.entry k v es) m =
      elim (value_at k m) [ none ↦ false | some w ↦ deep_equal v w ] && deep_equal_entries es m

-- reflect.DeepEqual on two maps.
unfoldable pub equal_attributes : Attributes → Attributes → Bool
unfolding deep_equal_entries count_entries
equal_attributes none none = true
equal_attributes (some a) (some b) = count_entries a == count_entries b && deep_equal_entries a b
equal_attributes _ _ = false

-- A value without NaN, whose maps have each key once.
unfoldable mutual
  unfolding value_at

  pub IsComparable : Value → Type 0
  IsComparable (Value.float a) = is_nan_bits a ≡ false
  IsComparable (Value.list vs) = AreComparable vs
  IsComparable (Value.object es) = AreEntries es
  IsComparable _ = Unit

  pub AreComparable : Values → Type 0
  AreComparable Values.end = Unit
  AreComparable (Values.cons v vs) = IsComparable v × AreComparable vs

  pub AreEntries : Entries → Type 0
  AreEntries Entries.no_entry = Unit
  AreEntries (Entries.entry k v es) = (value_at k es ≡ none) × (IsComparable v × AreEntries es)

-- Each entry of one map stands in another.
abbrev Holds : Entries → Entries → Type 0
Holds es m = (k : String) (v : Value) → value_at k es ≡ some v → value_at k m ≡ some v

mutual
  unfolding deep_equal IsComparable value_at

  deep_equal_self : (v : Value) → IsComparable v → deep_equal v v ≡ true
  deep_equal_self Value.null c = refl
  deep_equal_self (Value.flag true) c = refl
  deep_equal_self (Value.flag false) c = refl
  deep_equal_self (Value.int a) c = ==_self _
  deep_equal_self (Value.float a) c = rw (c, ==_self a) refl
  deep_equal_self (Value.str a) c = eq_refl a
  deep_equal_self (Value.other t a) c = rw (eq_refl t, eq_refl a) refl
  deep_equal_self (Value.list vs) c = values_self vs c
  deep_equal_self (Value.object es) c =
      rw (==_self (count_entries es), entries_self es es c (λ k v e. e)) refl

  values_self : (vs : Values) → AreComparable vs → deep_equal_values vs vs ≡ true
  values_self Values.end c = refl
  values_self (Values.cons v vs) c = rw (deep_equal_self v c.0, values_self vs c.1) refl

  entries_self : (es m : Entries) → AreEntries es → Holds es m → deep_equal_entries es m ≡ true
  entries_self Entries.no_entry m c holds = refl
  entries_self (Entries.entry k v es) m c holds =
      rw (holds k v (rw (eq_refl k) refl), deep_equal_self v c.1.0)
        (entries_self es m c.1.1 (λ j w e. holds j w (elim (Bool-cases (str_eq k j)) [
          | inl same ↦ absurd (cc ((eq_iff k j).0 same, c.0, e))
          | inr differs ↦ rw differs e
        ])))

abbrev pub has_entries : Entries → Bool
has_entries Entries.no_entry = false
has_entries (Entries.entry k v es) = true

-- A map that YAML keeps: nil, or with an entry.
abbrev pub HasEntries : Attributes → Type 0
HasEntries none = Unit
HasEntries (some es) = has_entries es ≡ true

pub omit_empty-HasEntries : (a : Attributes) → HasEntries a → omit_empty a ≡ a
unfolding omit_empty
omit_empty-HasEntries none kept = refl
omit_empty-HasEntries (some Entries.no_entry) kept = absurd cc
omit_empty-HasEntries (some (Entries.entry k v es)) kept = refl

-- A map that YAML keeps and that is equal to a copy of it.
abbrev pub IsKeptMap : Attributes → Type 0
IsKeptMap none = Unit
IsKeptMap (some es) = AreEntries es × (has_entries es ≡ true)

pub equal_attributes-omit_empty :
    (a : Attributes) → IsKeptMap a → equal_attributes (omit_empty a) a ≡ true
unfolding equal_attributes omit_empty
equal_attributes-omit_empty none kept = refl
equal_attributes-omit_empty (some Entries.no_entry) kept = absurd (cc kept.1)
equal_attributes-omit_empty (some (Entries.entry k v es)) kept =
    let m = Entries.entry k v es in
    rw (==_self (count_entries m), entries_self m m kept.0 (λ j w e. e)) refl
