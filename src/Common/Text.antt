-- ===== src/Common/Text.antt =====
-- Python's `str` methods, as far as the program uses them. A `str` is a `String`, a list of code
-- points. Case folding and the class `\w` are tables of Unicode that Python carries, so they are
-- a parameter.
use Prim.Native.Char.{Char, code}
use Prim.Native.Nat.{ℕ, zero, suc, ◌/◌, ◌%◌}
use Prim.Native.String.{String, ◌++◌}
use mathlib.Core.Bool.{Bool, true, false, not, ◌&&◌, ◌||◌}
use mathlib.Core.List.{List, [], ◌∷◌}
use mathlib.Core.Option.{Option, none, some}
use ai_career_os.Common.Tests.{ltb, leb, ◌==◌, str_eq, if◌then◌else◌}
use ai_career_os.Common.Lists.{any}

-- `str.isspace` of one code point.
unfoldable pub is_space : ℕ → Bool
is_space c =
    (leb 9 c && leb c 13)
    || (leb 28 c && leb c 32)
    || c == 0x85
    || c == 0xa0
    || c == 0x1680
    || (leb 0x2000 c && leb c 0x200a)
    || c == 0x2028
    || c == 0x2029
    || c == 0x202f
    || c == 0x205f
    || c == 0x3000

unfoldable pub lstrip : String → String
lstrip String.[] = ""
lstrip (String.◌∷◌ c s) = let rest = lstrip s in if is_space (code c) then rest else String.◌∷◌ c s

unfoldable pub rstrip : String → String
rstrip String.[] = ""
rstrip (String.◌∷◌ c s) =
    let rest = rstrip s in if str_eq rest "" && is_space (code c) then "" else String.◌∷◌ c rest

-- `s.strip()`
unfoldable pub strip : String → String
unfolding lstrip rstrip is_space
strip s = rstrip (lstrip s)

-- `s.startswith(prefix)`, and what follows the prefix
unfoldable pub after_prefix : String → String → Option String
after_prefix String.[] s = some s
after_prefix (String.◌∷◌ c p) String.[] = none
after_prefix (String.◌∷◌ c p) (String.◌∷◌ d s) = if code c == code d then after_prefix p s else none

abbrev pub is_some {ℓ} : {A : Type ℓ} → Option A → Bool
is_some none = false
is_some (some a) = true

-- `len(s)`
unfoldable pub str_len : String → ℕ
str_len String.[] = 0
str_len (String.◌∷◌ c s) = suc (str_len s)

-- `needle in s`
unfoldable pub contains : String → String → Bool
unfolding after_prefix
contains needle String.[] = is_some (after_prefix needle "")
contains needle (String.◌∷◌ c s) =
    is_some (after_prefix needle (String.◌∷◌ c s)) || contains needle s

-- `s[:n]`
unfoldable pub slice_to : ℕ → String → String
slice_to zero s = ""
slice_to (suc n) String.[] = ""
slice_to (suc n) (String.◌∷◌ c s) = String.◌∷◌ c (slice_to n s)

-- `sep.join(parts)`
unfoldable pub join : String → List String → String
join sep [] = ""
join sep (x ∷ []) = x
join sep (x ∷ y ∷ rest) = x ++ (sep ++ join sep (y ∷ rest))

digit : ℕ → String
digit d =
    if d == 0
    then "0"
    else if d == 1
    then "1"
    else if d == 2
    then "2"
    else if d == 3
    then "3"
    else if d == 4
    then "4"
    else if d == 5
    then "5"
    else if d == 6
    then "6"
    else if d == 7
    then "7"
    else if d == 8
    then "8"
    else "9"

digits_from : ℕ → ℕ → String
digits_from zero n = ""
digits_from (suc fuel) n =
    let front = digits_from fuel (n / 10) in if ltb n 10 then digit n else front ++ digit (n % 10)

-- `str(n)` of a natural number; `n + 1` rounds are enough, since each divides `n` by ten
unfoldable pub str_nat : ℕ → String
unfolding digit digits_from
str_nat n = digits_from (suc n) n

-- `x or y` on texts
abbrev pub str_or : String → String → String
str_or x y = if str_eq x "" then y else x

-- `(x or "")` on an optional text
abbrev pub or_blank : Option String → String
or_blank none = ""
or_blank (some x) = x

-- `bool(x)` on an optional text
abbrev pub truthy : Option String → Bool
truthy none = false
truthy (some x) = not (str_eq x "")

-- `x or None` on a text
abbrev pub non_blank : String → Option String
non_blank x = if str_eq x "" then none else some x

-- Python's Unicode tables.
pub record Unicode : Type 0 where
  -- `str.casefold`
  pub casefold : String → String
  -- `str.lower`
  pub lower : String → String
  -- the letter that `re.IGNORECASE` compares by
  pub fold_char : Char → ℕ
  -- `\w`
  pub is_word : Char → Bool

-- `re.search(r"\bphrase\b", s, re.I)` for phrases that begin and end with a word character.
module _ (u : Unicode) where
  open u use {fold_char, is_word}

  starts_word : String → Bool
  starts_word String.[] = false
  starts_word (String.◌∷◌ c s) = is_word c

  phrase_at : String → String → Bool
  phrase_at String.[] s = not (starts_word s)
  phrase_at (String.◌∷◌ c p) String.[] = false
  phrase_at (String.◌∷◌ c p) (String.◌∷◌ d s) = fold_char c == fold_char d && phrase_at p s

  search_from : Bool → String → String → Bool
  search_from inside phrase String.[] = false
  search_from inside phrase (String.◌∷◌ c s) =
      (not inside && phrase_at phrase (String.◌∷◌ c s)) || search_from (is_word c) phrase s

  unfoldable pub search_phrases : List String → String → Bool
  unfolding search_from phrase_at starts_word
  search_phrases phrases s = any (λ phrase. search_from false phrase s) phrases
