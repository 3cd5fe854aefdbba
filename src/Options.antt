-- ===== src/Options.antt =====
-- The options string of a HELLO message and of an SDP attribute (SRPP_functions.cpp,
-- Signaling_functions.hpp, sdp_srpp.hpp): `snprintf` with `%d`, `find_first_of`, `substr`, `atoi`.
pub mod Decimal
pub mod Negotiate
use dionysius.Common.{
  ℕ, zero, suc, ◌+◌, ◌-◌, ◌*◌, ◌/◌, ◌%◌, ◌<◌, List, [], ◌∷◌, ◌++◌, ltb, leb, ◌==◌, if◌then◌else◌,
  Bool, true, false, ◌&&◌, ◌||◌, not, ℤ, pos, negsuc, take,
}

-- The decimal digits of a number; the fuel is at least the count of digits.
unfoldable pub print_digits : ℕ → ℕ → List ℕ
print_digits zero n = []
print_digits (suc fuel) n =
    let higher = print_digits fuel (n / 10) in
    (if ltb n 10 then [] else higher) ++ (b'0' + n % 10) ∷ []

-- `%d`.
unfoldable pub print_int : ℤ → List ℕ
print_int (pos n) = print_digits (suc n) n
print_int (negsuc n) = b'-' ∷ print_digits (suc (suc n)) (suc n)

abbrev pub is_digit : ℕ → Bool
is_digit c = leb b'0' c && leb c b'9'

-- White space, as `isspace` has it.
abbrev pub is_space : ℕ → Bool
is_space c = c == b' ' || leb 9 c && leb c 13

-- The digits in front, onto a number.
pub read_digits : ℕ → List ℕ → ℕ
read_digits acc [] = acc
read_digits acc (c ∷ cs) =
    let rest = read_digits (acc * 10 + (c - b'0')) cs in if is_digit c then rest else acc

abbrev pub negate : ℕ → ℤ
negate zero = pos 0
negate (suc n) = negsuc n

pub read_signed : List ℕ → ℤ
read_signed [] = pos 0
read_signed (c ∷ cs) =
    if c == b'-'
    then negate (read_digits 0 cs)
    else if c == b'+'
    then pos (read_digits 0 cs)
    else pos (read_digits 0 (c ∷ cs))

-- `atoi`. A value past the range of `int`, where C leaves it undefined, is given as it is.
unfoldable pub atoi : List ℕ → ℤ
atoi [] = pos 0
atoi (c ∷ cs) = let rest = atoi cs in if is_space c then rest else read_signed (c ∷ cs)

-- `options.substr(0, options.find_first_of(','))`: all of it if there is no comma.
pub before_comma : List ℕ → List ℕ
before_comma [] = []
before_comma (c ∷ cs) = if c == b',' then [] else c ∷ before_comma cs

pub has_comma : List ℕ → Bool
has_comma [] = false
has_comma (c ∷ cs) = c == b',' || has_comma cs

pub past_comma : List ℕ → List ℕ
past_comma [] = []
past_comma (c ∷ cs) = if c == b',' then cs else past_comma cs

-- `options.substr(options.find_first_of(',')+1, …)`: without a comma, `npos + 1` is 0.
pub after_comma : List ℕ → List ℕ
after_comma s = if has_comma s then past_comma s else s

-- The two numbers that the handlers extract.
pub first_option : List ℕ → ℤ
first_option s = atoi (before_comma s)

pub second_option : List ℕ → ℤ
second_option s = atoi (before_comma (after_comma s))

-- ", YES, YES, YES, YES, DEFAULT, DEFAULT, DEFAULT"
abbrev pub yes_ : List ℕ
yes_ = b'Y' ∷ b'E' ∷ b'S' ∷ []

abbrev pub comma_space : List ℕ
comma_space = b',' ∷ b' ' ∷ []

abbrev pub default : List ℕ
default = b'D' ∷ b'E' ∷ b'F' ∷ b'A' ∷ b'U' ∷ b'L' ∷ b'T' ∷ []

abbrev pub three_defaults : List ℕ
three_defaults = comma_space ++ (default ++ (comma_space ++ (default ++ (comma_space ++ default))))

abbrev pub two_more : List ℕ
two_more = comma_space ++ (yes_ ++ (comma_space ++ yes_))

-- `snprintf(buf, 15, "%d,%d", key, psize)` keeps 14 characters.
unfoldable pub hello_options : ℤ → ℤ → List ℕ
hello_options key psize =
    take 14 (print_int key ++ (b',' ∷ print_int psize))
    ++ (comma_space ++ (yes_ ++ (comma_space ++ (yes_ ++ (two_more ++ three_defaults)))))

-- `snprintf(buf, 6, "%d", psize)` keeps 5, and "YES, YES, YES, DEFAULT, DEFAULT, DEFAULT" follows.
unfoldable pub hello_ack_options : ℤ → List ℕ
hello_ack_options psize = take 5 (print_int psize) ++ (yes_ ++ (two_more ++ three_defaults))
