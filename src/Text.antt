-- ===== src/Text.antt =====
-- What the services use of Python's text: `str.strip`, and `str` of a number.
use Prim.Native.Char.{code}
pub use Prim.Native.String.{◌++◌}
use power_adapter_blogs.Shared.{
  ℕ, zero, suc, String, ◌≡◌, refl, Bool, true, false, ◌&&◌, ◌||◌, ◌==◌, leb, ltb, if◌then◌else◌,
}
use Prim.Native.Nat.{◌/◌, ◌%◌}

abbrev between : ℕ → ℕ → ℕ → Bool
between lo hi n = leb lo n && leb n hi

-- `str.isspace` of one character, by its code point
unfoldable pub is_space : ℕ → Bool
is_space c =
    between 9 13 c
    || (between 28 32 c
        || (c == 133
            || (c == 160
                || (c == 5760
                    || (between 8192 8202 c
                        || (between 8232 8233 c || (c == 8239 || (c == 8287 || c == 12288))))))))

-- `str.isascii`
unfoldable pub is_ascii : String → Bool
is_ascii String.[] = true
is_ascii (String.◌∷◌ c s) = ltb (code c) 128 && is_ascii s

unfoldable pub is_empty : String → Bool
is_empty String.[] = true
is_empty (String.◌∷◌ c s) = false

unfoldable pub strip_left : String → String
unfolding is_space
strip_left String.[] = String.[]
strip_left (String.◌∷◌ c s) =
    let rest = strip_left s in if is_space (code c) then rest else String.◌∷◌ c s

unfoldable pub strip_right : String → String
unfolding is_space is_empty
strip_right String.[] = String.[]
strip_right (String.◌∷◌ c s) =
    let rest = strip_right s in
    if is_empty rest && is_space (code c) then String.[] else String.◌∷◌ c rest

-- `text.strip()`
unfoldable pub strip : String → String
unfolding strip_left strip_right
strip s = strip_right (strip_left s)

digit : ℕ → String
digit n =
    if n == 0
    then "0"
    else if n == 1
    then "1"
    else if n == 2
    then "2"
    else if n == 3
    then "3"
    else if n == 4
    then "4"
    else if n == 5
    then "5"
    else if n == 6
    then "6"
    else if n == 7
    then "7"
    else if n == 8
    then "8"
    else "9"

-- The decimal digits of `n`. A number has at most as many digits as its value plus one, so the fuel
-- `suc n` of `text_of_number` is enough.
digits_of : ℕ → ℕ → String
unfolding digit
digits_of zero n = String.[]
digits_of (suc fuel) n =
    let more = digits_of fuel (n / 10) ++ digit (n % 10) in if ltb n 10 then digit n else more

-- `str(n)` of a natural number
unfoldable pub text_of_number : ℕ → String
unfolding digits_of
text_of_number n = digits_of (suc n) n

strip_sample : strip "  a b " ≡ "a b"
unfolding strip
strip_sample = refl

number_sample : text_of_number 4070 ≡ "4070"
unfolding text_of_number
number_sample = refl
