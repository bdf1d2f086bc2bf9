-- ===== src/Text.antt =====
-- The operations of Python's `str` that the master uses: `strip`, `split`, `replace` and `str(n)`.
pub mod Lengths
use Prim.Native.Char.{Char, code}
use google_file_system.Prelude.{
  ℕ, zero, suc, ◌/◌, ◌%◌, ◌≡◌, refl, String, ◌<>◌, Bool, true, false, ◌&&◌, List, [], ◌∷◌, ◌==◌,
  ltb, nat_eq, string_eq, if◌then◌else◌,
}

abbrev pub is_slash : Char → Bool
is_slash c = code c == b'/'

abbrev is_empty : String → Bool
is_empty String.[] = true
is_empty (String.◌∷◌ c s) = false

strip_left : String → String
strip_left String.[] = ""
strip_left (String.◌∷◌ c s) = if is_slash c then strip_left s else String.◌∷◌ c s

strip_right : String → String
strip_right String.[] = ""
strip_right (String.◌∷◌ c s) =
    let rest = strip_right s in if is_slash c && is_empty rest then "" else String.◌∷◌ c rest

-- `s.strip('/')`
unfoldable pub strip_slashes : String → String
unfolding strip_left strip_right
strip_slashes s = strip_right (strip_left s)

-- One character more, in front of the first part.
abbrev extend_first : Char → List String → List String
extend_first c [] = String.◌∷◌ c "" ∷ []
extend_first c (part ∷ parts) = String.◌∷◌ c part ∷ parts

-- `s.split('/')`
unfoldable pub split_slashes : String → List String
split_slashes String.[] = "" ∷ []
split_slashes (String.◌∷◌ c s) =
    let rest = split_slashes s in if is_slash c then "" ∷ rest else extend_first c rest

-- `s.replace('/', '_')`
unfoldable pub replace_slashes : String → String
replace_slashes String.[] = ""
replace_slashes (String.◌∷◌ c s) =
    let rest = replace_slashes s in if is_slash c then "_" <> rest else String.◌∷◌ c rest

digit : ℕ → String
digit d =
    if d == 0
    then "0"
    else if d == 1
    then "1"
    else if d == 2
    then "2"
    else if d == 3
    then "3"
    else if d == 4
    then "4"
    else if d == 5
    then "5"
    else if d == 6
    then "6"
    else if d == 7
    then "7"
    else if d == 8
    then "8"
    else "9"

decimal_from : ℕ → ℕ → String
decimal_from zero n = ""
decimal_from (suc fuel) n =
    let higher = decimal_from fuel (n / 10) in
    if ltb n 10 then digit n else higher <> digit (n % 10)

-- `str(n)`: a number has at most as many digits as its value and one more.
unfoldable pub decimal : ℕ → String
unfolding digit decimal_from
decimal n = decimal_from (suc n) n

decimal_example : decimal 1700000042 ≡ "1700000042"
unfolding decimal nat_eq
decimal_example = refl
