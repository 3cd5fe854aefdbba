-- ===== src/Common/Text.antt =====
-- `std::string` as the list of its bytes: the searches and `substr`. A size is 64 bits wide.
use Prim.Native.Char.{code}
use Prim.Native.String.{String}
use Prim.Native.Nat.{ℕ, ◌+◌, ◌-◌, ◌^◌}
use mathlib.Core.Bool.{Bool, true, false, not, ◌&&◌, ◌||◌}
use mathlib.Core.Option.{Option, none, some}
use mathlib.Core.List.{List, [], ◌∷◌}
use dionysius.Common.Tests.{leb, ◌==◌, if◌then◌else◌}
use dionysius.Common.Lists.{length, take, drop}

-- The code points of a text: its bytes, if it is ASCII.
abbrev pub codes : String → List ℕ
codes String.[] = []
codes (String.◌∷◌ c s) = code c ∷ codes s

-- `string::npos`.
abbrev pub npos : ℕ
npos = 2 ^ 64 - 1

unfoldable pub starts_with : List ℕ → List ℕ → Bool
starts_with [] text = true
starts_with (p ∷ pat) [] = false
starts_with (p ∷ pat) (c ∷ text) = p == c && starts_with pat text

-- The first place of the pattern in the text, whose first byte has the given index.
unfoldable pub find_at : List ℕ → ℕ → List ℕ → ℕ
find_at pat i [] = if starts_with pat [] then i else npos
find_at pat i (c ∷ text) =
    let rest = find_at pat (i + 1) text in if starts_with pat (c ∷ text) then i else rest

-- `text.find(pat, from)`.
unfoldable pub find : List ℕ → List ℕ → ℕ → ℕ
find text pat from = if leb from (length text) then find_at pat from (drop from text) else npos

unfoldable pub is_in : ℕ → List ℕ → Bool
is_in c [] = false
is_in c (x ∷ xs) = c == x || is_in c xs

unfoldable pub find_any_at : List ℕ → ℕ → List ℕ → ℕ
find_any_at set i [] = npos
find_any_at set i (c ∷ text) =
    let rest = find_any_at set (i + 1) text in if is_in c set then i else rest

-- `text.find_first_of(set, from)`.
unfoldable pub find_first_of : List ℕ → List ℕ → ℕ → ℕ
find_first_of text set from = find_any_at set from (drop from text)

-- `text.find(pat, from) != string::npos`.
unfoldable pub contains : List ℕ → List ℕ → ℕ → Bool
contains text pat from = not (find text pat from == npos)

-- `text.substr(pos, n)`, which throws where the place is past the end.
unfoldable pub substr : List ℕ → ℕ → ℕ → Option (List ℕ)
substr text pos n = if leb pos (length text) then some (take n (drop pos text)) else none
