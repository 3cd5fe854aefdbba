-- ===== src/Machine/Words.antt =====
-- Words in the host's byte order, which is little-endian, and in the network's.
use dionysius.Common.{
  ℕ, ◌+◌, ◌-◌, ◌*◌, ◌/◌, ◌%◌, ◌^◌, List, [], ◌∷◌, get_or, drop, ltb, if◌then◌else◌, ℤ, pos, negsuc,
}

abbrev pub byte : ℕ → ℕ → ℕ
byte i w = w / 256 ^ i % 256

abbrev pub le16 : ℕ → List ℕ
le16 w = byte 0 w ∷ byte 1 w ∷ []

abbrev pub le32 : ℕ → List ℕ
le32 w = byte 0 w ∷ byte 1 w ∷ byte 2 w ∷ byte 3 w ∷ []

-- `htons` and `htonl`, stored.
abbrev pub be16 : ℕ → List ℕ
be16 w = byte 1 w ∷ byte 0 w ∷ []

abbrev pub be32 : ℕ → List ℕ
be32 w = byte 3 w ∷ byte 2 w ∷ byte 1 w ∷ byte 0 w ∷ []

-- The words at an offset, loaded by the host, and passed through `ntohs` or `ntohl`.
abbrev pub load_le16 : ℕ → List ℕ → ℕ
load_le16 off bs = let at = drop off bs in get_or at 0 0 + get_or at 1 0 * 256

abbrev pub load_le32 : ℕ → List ℕ → ℕ
load_le32 off bs =
    let at = drop off bs in
    get_or at 0 0 + get_or at 1 0 * 256 + get_or at 2 0 * 65536 + get_or at 3 0 * 16777216

abbrev pub load_be16 : ℕ → List ℕ → ℕ
load_be16 off bs = let at = drop off bs in get_or at 1 0 + get_or at 0 0 * 256

abbrev pub load_be32 : ℕ → List ℕ → ℕ
load_be32 off bs =
    let at = drop off bs in
    get_or at 3 0 + get_or at 2 0 * 256 + get_or at 1 0 * 65536 + get_or at 0 0 * 16777216

-- `ntohs` of a word in the host's order.
abbrev pub ntohs : ℕ → ℕ
ntohs w = w % 256 * 256 + w / 256 % 256

-- `ntohl` of a word in the host's order.
abbrev pub ntohl : ℕ → ℕ
ntohl w = load_be32 0 (le32 w)

-- An `unsigned int` as an `int`, and back.
abbrev pub to_int : ℕ → ℤ
to_int w = if ltb w (2 ^ 31) then pos w else negsuc (2 ^ 32 - w - 1)

abbrev pub to_unsigned : ℤ → ℕ
to_unsigned (pos n) = n % 2 ^ 32
to_unsigned (negsuc n) = 2 ^ 32 - 1 - n % 2 ^ 32
