-- ===== src/Prelude/Text.antt =====
-- Go's texts: those of package strings that the code calls, over code points.
use Prim.Native.Nat.{ℕ, ◌+◌}
use Prim.Native.Char.{Char, code}
use Prim.Native.String.{String, ◌++◌ as ◌++ₛ◌}
use mathlib.Core.Path.{◌≡◌, refl}
use mathlib.Core.Bool.{Bool, true, false, ◌&&◌, ◌||◌}
use mathlib.Core.Option.{Option, none, some}
use mathlib.Core.List.{List, [], ◌∷◌, map}
use text.Mathlib.Text.{◌==◌ as str_eq}
use mathlib.Core.Logic.{inl, inr}
use text.Mathlib.TextEquality.{eq_iff}
use text.Mathlib.TextLemmas.{nil-append, cons-append, append-eq-nil_iff}
use xk6_otel_gen.Prelude.Tests.{==_self, Bool-cases, leb, ◌==◌, if◌then◌else◌}

abbrev pub codes : String → List ℕ
codes String.[] = []
codes (String.◌∷◌ c s) = code c ∷ codes s

-- unicode.IsSpace
unfoldable is_space : ℕ → Bool
is_space c =
    (leb 9 c && leb c 13)
    || (c == 32
        || (c == 0x85
            || (c == 0xA0
                || (c == 0x1680
                    || ((leb 0x2000 c && leb c 0x200A)
                        || (c == 0x2028
                            || (c == 0x2029 || (c == 0x202F || (c == 0x205F || c == 0x3000)))))))))

unfoldable trim_left : String → String
unfolding is_space
trim_left String.[] = ""
trim_left (String.◌∷◌ c s) =
    let rest = trim_left s in if is_space (code c) then rest else String.◌∷◌ c s

-- A space goes where nothing but spaces comes after it.
unfoldable trim_right : String → String
unfolding is_space
trim_right String.[] = ""
trim_right (String.◌∷◌ c s) =
    let rest = trim_right s in if is_space (code c) && str_eq rest "" then "" else String.◌∷◌ c rest

-- strings.TrimSpace
unfoldable pub trim_space : String → String
unfolding trim_left trim_right
trim_space s = trim_right (trim_left s)

-- unicode.ToLower, but for the characters whose lower case is not ASCII: they are left as they are.
unfoldable lower : ℕ → ℕ
lower c =
    if leb 65 c && leb c 90
    then c + 32
    else if c == 0x130
    then 105
    else if c == 0x212A
    then 107
    else c

abbrev same_codes : List ℕ → List ℕ → Bool
same_codes [] [] = true
same_codes (c ∷ s) (d ∷ t) = c == d && same_codes s t
same_codes _ _ = false

-- strings.ToLower(s) == token, for a token of lower-case ASCII.
unfoldable pub lower_is : String → String → Bool
unfolding lower
lower_is token s = same_codes (map lower (codes s)) (codes token)

-- strings.ToLower(strings.TrimSpace(s)) == token
unfoldable pub reads_as : String → String → Bool
unfolding trim_space lower_is
reads_as token s = lower_is token (trim_space s)

abbrev before_first : Char → List String → List String
before_first c [] = []
before_first c (part ∷ parts) = String.◌∷◌ c part ∷ parts

-- strings.Split at one character.
unfoldable pub split : Char → String → List String
split d String.[] = "" ∷ []
split d (String.◌∷◌ c s) =
    let parts = split d s in if code c == code d then "" ∷ parts else before_first c parts

-- What follows a prefix of a text.
unfoldable pub after_prefix : String → String → Option String
after_prefix String.[] s = some s
after_prefix (String.◌∷◌ c p) String.[] = none
after_prefix (String.◌∷◌ c p) (String.◌∷◌ d s) =
    let rest = after_prefix p s in if code c == code d then rest else none

-- One character further: the separator is found here, or later, or not at all.
abbrev pub cut_at : Char → Option String → Option (String × String) → Option (String × String)
cut_at c (some after) later = some (String.[], after)
cut_at c none none = none
cut_at c none (some (before, after)) = some (String.◌∷◌ c before, after)

-- strings.Cut for a separator that is not empty.
unfoldable pub cut : String → String → Option (String × String)
unfolding after_prefix
cut sep String.[] = none
cut sep (String.◌∷◌ c s) = cut_at c (after_prefix sep (String.◌∷◌ c s)) (cut sep s)

abbrev has_cut : Option (String × String) → Bool
has_cut none = false
has_cut (some parts) = true

abbrev is_any : List String → String → Bool
is_any [] s = false
is_any (t ∷ ts) s = str_eq s t || is_any ts s

-- strings.Contains
abbrev pub contains_text : String → String → Bool
contains_text part s = has_cut (cut part s)

-- strconv.ParseBool
unfoldable pub parse_bool : String → Option Bool
parse_bool s =
    if is_any ("1" ∷ "t" ∷ "T" ∷ "true" ∷ "TRUE" ∷ "True" ∷ []) s
    then some true
    else if is_any ("0" ∷ "f" ∷ "F" ∷ "false" ∷ "FALSE" ∷ "False" ∷ []) s
    then some false
    else none

-- if s == "" { return def }; return s
abbrev pub string_default : String → String → String
string_default s def = if str_eq s "" then def else s

trims : reads_as "grpc" " GRPC\n" ≡ true
unfolding reads_as
trims = refl

cuts : cut "->" "a.b-->c->d" ≡ some ("a.b-", "c->d")
unfolding cut
cuts = refl

cut_at-none :
    (c : Char) (here : Option String) (later : Option (String × String))
    → cut_at c here later ≡ none
    → (here ≡ none) × (later ≡ none)
cut_at-none c none none h = (refl, refl)
cut_at-none c none (some p) h = absurd cc
cut_at-none c (some s) later h = absurd cc

arrow_append : (after : String) → "->" ++ₛ after ≡ String.◌∷◌ "-" (String.◌∷◌ ">" after)
arrow_append after = rw (cons-append "-" ">" after, cons-append ">" "" after, nil-append after) refl

elsewhere :
    (d c : Char) (s t : String)
    → after_prefix (String.◌∷◌ d "") (String.◌∷◌ c s) ≡ none
    → after_prefix (String.◌∷◌ d "") (String.◌∷◌ c t) ≡ none
unfolding after_prefix
elsewhere d c s t here = elim (Bool-cases (code d == code c)) [
  | inl same ↦ absurd (cc (same, here))
  | inr other ↦ rw other refl
]

-- A text is cut at a character that comes after a part without it.
pub cut_char :
    (d : Char) (before after : String)
    → cut (String.◌∷◌ d "") before ≡ none
    → cut (String.◌∷◌ d "") (before ++ₛ (String.◌∷◌ d "" ++ₛ after)) ≡ some (before, after)
unfolding cut
cut_char d String.[] after h =
    rw
      (
        nil-append (String.◌∷◌ d "" ++ₛ after),
        cons-append d "" after,
        nil-append after,
        ==_self (code d),
      )
      refl
cut_char d (String.◌∷◌ c before) after h =
    let (here, later) =
      cut_at-none c (after_prefix (String.◌∷◌ d "") (String.◌∷◌ c before))
        (cut (String.◌∷◌ d "") before) h in
    rw
      (
        cons-append c before (String.◌∷◌ d "" ++ₛ after),
        cut_char d before after later,
        elsewhere d c before (before ++ₛ (String.◌∷◌ d "" ++ₛ after)) here,
      )
      refl

arrow_elsewhere :
    (c : Char) (before after : String)
    → after_prefix "->" (String.◌∷◌ c before) ≡ none
    → after_prefix "->" (String.◌∷◌ c (before ++ₛ ("->" ++ₛ after))) ≡ none
unfolding after_prefix
arrow_elsewhere c String.[] after h =
    rw (nil-append ("->" ++ₛ after), arrow_append after)
      (elim (Bool-cases (45 == code c)) [ inl dash ↦ rw dash refl | inr other ↦ rw other refl ])
arrow_elsewhere c (String.◌∷◌ d before) after h =
    rw (cons-append d before ("->" ++ₛ after)) (elim (Bool-cases (45 == code c)) [
      | inr other ↦ rw other refl
      | inl dash ↦ elim (Bool-cases (62 == code d)) [
        | inl head ↦ absurd (cc (dash, head, h))
        | inr other ↦ rw (dash, other) refl
      ]
    ])

-- A text is cut at an arrow that comes after a part without one.
pub cut_arrow :
    (before after : String)
    → cut "->" before ≡ none
    → cut "->" (before ++ₛ ("->" ++ₛ after)) ≡ some (before, after)
unfolding cut
cut_arrow String.[] after h = rw (nil-append ("->" ++ₛ after), arrow_append after) refl
cut_arrow (String.◌∷◌ c before) after h =
    let (here, later) =
      cut_at-none c (after_prefix "->" (String.◌∷◌ c before)) (cut "->" before) h in
    rw
      (
        cons-append c before ("->" ++ₛ after),
        cut_arrow before after later,
        arrow_elsewhere c before after here,
      )
      refl

-- A text with a part that is not empty is not empty.
pub append-not_empty : (s t : String) → str_eq s "" ≡ false → str_eq (s ++ₛ t) "" ≡ false
append-not_empty s t h = elim (Bool-cases (str_eq (s ++ₛ t) "")) [
  | inr other ↦ other
  | inl empty ↦
      let (s_empty, _) = (append-eq-nil_iff {p = s} {q = t}).0 ((eq_iff (s ++ₛ t) "").0 empty) in
      absurd (cc ((eq_iff s "").1 s_empty, h))
]

-- strings.HasSuffix for a suffix that is not empty.
unfoldable pub has_suffix : String → String → Bool
has_suffix end String.[] = false
has_suffix end (String.◌∷◌ c s) = str_eq (String.◌∷◌ c s) end || has_suffix end s
