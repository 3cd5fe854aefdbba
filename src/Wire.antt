-- ===== src/Wire.antt =====
-- libSRPP/include/SRPPMessage.hpp: `srpp_to_network` and `network_to_srpp`, the packet in memory.
-- The packet is the header (80 bytes), the payload, the padding, the 8 bytes of the flags and the
-- authentication tag (4 bytes). Bit-fields are laid out from the lowest bit of a little-endian word.
pub mod Layout
pub mod Send
pub mod Receive
pub mod RoundTrip
use dionysius.Common.{
  ℕ, zero, suc, ◌+◌, ◌-◌, ◌*◌, ◌/◌, ◌%◌, ◌^◌, bit_xor, bit_and, bit_or, List, [], ◌∷◌, ◌++◌, Option,
  none, some, length, get_elem?, get_or, take, drop, ltb, leb, ◌==◌, if◌then◌else◌, Bool, true,
  false, ◌&&◌, ◌>>=◌, ℤ, pos, negsuc,
}
use dionysius.Machine.{
  le16, le32, be16, be32, load_le16, load_le32, load_be16, load_be32, ntohs, to_unsigned, write,
  read, strcpy, distance,
}
use dionysius.Message.{SrppHeader, SrppEncrypted, SrppMessage}

-- `sizeof(SRPPHeader)`.
abbrev pub header_size : ℕ
header_size = 80

-- The 16 bits before `seq`: `cc`, `x`, `p`, `version`, `pt` and `m`.
abbrev pub flags_word : SrppHeader → ℕ
flags_word h = h.cc + h.x * 16 + h.p * 32 + h.version * 64 + h.pt * 256 + h.m * 32768

-- `hdr1->csrc[i] = htonl(srpp_header.csrc[i])`, for the given number of rounds; an index past the
-- array is out of bounds.
pub convert_csrc : ℕ → ℕ → List ℕ → Option (List ℕ)
convert_csrc zero i csrc = some []
convert_csrc (suc rounds) i csrc = do
  w ← get_elem? csrc i
  rest ← convert_csrc rounds (i + 1) csrc
  some (be32 w ++ rest)

-- The words that fill `csrc` from index `i`: `srand(ts + i*50); rand()*(2^32)+1`, where `^` is
-- exclusive or. `first_rand s` is the first `rand()` after `srand(s)`.
pub random_words : (ℕ → ℕ) → ℕ → ℕ → ℕ → List ℕ
random_words first_rand ts zero i = []
random_words first_rand ts (suc rounds) i =
    ((first_rand ((ts + i * 50) % 2 ^ 32) * bit_xor 2 32 + 1) % 2 ^ 32)
    ∷ random_words first_rand ts rounds (i + 1)

-- Stored in the host's order.
pub store_words : List ℕ → List ℕ
store_words [] = []
store_words (w ∷ ws) = le32 w ++ store_words ws

-- The header as `srpp_to_network` leaves it in memory.
pub header_bytes : (ℕ → ℕ) → SrppHeader → Option (List ℕ)
header_bytes first_rand h =
    let converted = ntohs h.cc in
    convert_csrc converted 0 h.csrc >>= λ given. some (
      le16 (flags_word h)
      ++ (be16 h.seq
          ++ (be32 h.ts
              ++ (be32 h.ssrc
                  ++ (given
                      ++ (store_words (random_words first_rand h.ts (15 - converted) converted)
                          ++ (be16 h.defined_by_profile
                              ++ (be16 h.extension_header ++ be32 h.srpp_signalling))))))))

-- The 8 bytes from `&encrypted_part.pad_count`: the count, `dummy_flag` below the padding bit, and
-- the original sequence number.
abbrev pub flag_bytes : SrppEncrypted → List ℕ
flag_bytes e =
    le32 e.pad_count
    ++ (le16 (e.dummy_flag + e.original_padding_bit * 32768) ++ le16 e.original_seq_number)

abbrev pub is_positive : ℤ → Bool
is_positive (pos n) = ltb 0 n
is_positive (negsuc n) = false

-- `if (key > 0 && srpp_signalling == 0) pad_count ^= key`.
unfoldable pub toggle_count : ℤ → SrppHeader → ℕ → ℕ
toggle_count key h count =
    if is_positive key && h.srpp_signalling == 0
    then bit_xor count (to_unsigned key) % 2 ^ 32
    else count

-- The padding is copied when the count says so; the result is the array and the address behind.
pub put_padding : SrppMessage → ℕ → List ℕ → ℕ → Option (List ℕ × ℕ)
put_padding msg count buff at =
    if ltb 0 count && msg.srpp_header.srpp_signalling == 0
    then (strcpy buff at msg.encrypted_part.srpp_padding >>= λ b. some (b, at + count))
    else some (buff, at)

-- `srpp_to_network(buff, key)` on the array that the caller allocated: the array afterwards, and the
-- message, whose count is toggled twice.
pub srpp_to_network : (ℕ → ℕ) → ℤ → SrppMessage → List ℕ → Option (List ℕ × SrppMessage)
srpp_to_network first_rand key msg buff = do
  let h = msg.srpp_header
  let e = msg.encrypted_part
  header ← header_bytes first_rand h
  with_header ← write buff 0 header
  with_payload ← strcpy with_header header_size e.original_payload
  let plain = toggle_count key h e.pad_count
  (with_padding, at) ← put_padding msg plain with_payload (header_size + length e.original_payload)
  let kept = record e { pad_count = toggle_count key h plain }
  with_flags ← write with_padding at (flag_bytes kept)
  with_tag ← write with_flags (at + 8) (be32 msg.authentication_tag)
  some (with_tag, record msg { encrypted_part = kept })

-- The contributing sources: the first `cc` go through `ntohl`, the others stay in the host's order.
pub load_csrc : ℕ → ℕ → ℕ → List ℕ → List ℕ
load_csrc zero i cc bs = []
load_csrc (suc rounds) i cc bs =
    (if ltb i cc then load_be32 0 bs else load_le32 0 bs) ∷ load_csrc rounds (i + 1) cc (drop 4 bs)

unfoldable pub load_header : List ℕ → SrppHeader
load_header bs =
    let flags = load_le16 0 bs in
    record {
      version = flags / 64 % 4;
      p = flags / 32 % 2;
      x = flags / 16 % 2;
      cc = flags % 16;
      m = flags / 32768 % 2;
      pt = flags / 256 % 128;
      seq = load_be16 2 bs;
      ts = load_be32 4 bs;
      ssrc = load_be32 8 bs;
      csrc = load_csrc 15 0 (flags % 16) (drop 12 bs);
      defined_by_profile = load_be16 72 bs;
      extension_header = load_be16 74 bs;
      srpp_signalling = load_be32 76 bs;
    }

-- `memcpy` back into the 8 bytes from `&encrypted_part.pad_count`.
pub load_flags : List ℕ → SrppEncrypted → SrppEncrypted
load_flags bs e =
    let flags = load_le16 4 bs in
    record e {
      pad_count = load_le32 0 bs;
      dummy_flag = flags % 32768;
      original_padding_bit = flags / 32768 % 2;
      original_seq_number = load_le16 6 bs;
    }

-- The end of `network_to_srpp`: the payload runs from the header up to the address `until`.
pub take_payload : List ℕ → ℕ → SrppMessage → Option (ℤ × SrppMessage)
take_payload buff until msg = do
  n ← distance header_size until
  payload ← read buff header_size n
  some (
    pos 0,
    record msg { encrypted_part = record msg.encrypted_part { original_payload = payload } },
  )

-- What follows the test of the count: with padding the payload ends before it, without it the
-- payload ends at the tag.
pub strip_padding : List ℕ → ℕ → ℤ → SrppMessage → Option (ℤ × SrppMessage)
strip_padding buff bytes key msg =
    let count = msg.encrypted_part.pad_count in
    let with_count =
      λ (c : ℕ). record msg { encrypted_part = record msg.encrypted_part { pad_count = c } } in
    if ltb 0 count && msg.srpp_header.srpp_signalling == 0
    then (distance (12 + count) bytes >>= λ until.
        take_payload buff until (with_count (bit_xor count (to_unsigned key) % 2 ^ 32)))
    else (distance 4 bytes >>= λ until. take_payload buff until (with_count 0))

-- `network_to_srpp(buff, bytes, key)` on the receiver's message: the return code and the message.
pub network_to_srpp : List ℕ → ℕ → ℤ → SrppMessage → Option (ℤ × SrppMessage)
network_to_srpp buff bytes key msg = do
  header ← read buff 0 header_size
  let h = load_header header
  tag_at ← distance 4 bytes
  tag ← read buff tag_at 4
  flags_at ← distance 8 tag_at
  flags ← read buff flags_at 8
  let e = load_flags flags msg.encrypted_part
  let count = toggle_count key h e.pad_count
  let loaded : SrppMessage = record {
    srpp_header = h;
    encrypted_part = record e { pad_count = count };
    authentication_tag = load_be32 0 tag;
  }
  if ltb 1500 count then some (negsuc 0, loaded) else strip_padding buff bytes key loaded
