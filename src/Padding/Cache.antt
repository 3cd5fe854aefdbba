-- ===== src/Padding/Cache.antt =====
-- libSRPP/src/Padding_functions.cpp: the cache of dummy packets.
use dionysius.Common.{
  ℕ, zero, suc, ◌+◌, ◌-◌, ◌*◌, ◌/◌, ◌%◌, ◌^◌, bit_xor, List, [], ◌∷◌, ◌++◌, if◌then◌else◌, ltb,
  ◌==◌, length, get_elem?, set, take, ℤ, pos, negsuc, to_nat,
}
use dionysius.Message.{SrppMessage}
use dionysius.World.{M, pure, ◌>>=◌, ◌>>◌, gets, modify, lift, fault, srpp_rand, construct}
use dionysius.Transport.{stale_bytes}

-- MAXDUMMYCACHESIZE; the array `dummy_cache` has 100 entries.
abbrev pub max_dummy_cache_size : ℕ
max_dummy_cache_size = 99

abbrev pub with_dummy_flag : ℕ → SrppMessage → SrppMessage
with_dummy_flag flag msg = record msg {
  encrypted_part = record msg.encrypted_part { dummy_flag = flag };
}

abbrev pub with_payload : List ℕ → SrppMessage → SrppMessage
with_payload payload msg = record msg {
  encrypted_part = record msg.encrypted_part { original_payload = payload };
}

-- `dummy_cache[i]`, out of bounds past the array.
unfoldable pub get_dummy : ℕ → M SrppMessage
get_dummy i = gets (λ w. get_elem? w.padding.dummy_cache i) >>= λ entry. lift entry

unfoldable pub set_dummy : ℕ → SrppMessage → M (Unit {0})
set_dummy i msg =
    modify
      λ w. record w { padding = record w.padding { dummy_cache = set w.padding.dummy_cache i msg } }

-- `srpp_rand(1,255) ^ srpp_rand(0,65536)`, as a `char`, the given number of times.
unfoldable pub random_chars : ℕ → M (List ℕ)
random_chars zero = pure []
random_chars (suc n) = do
  a ← srpp_rand 1 (pos 255)
  b ← srpp_rand 0 (pos 65536)
  rest ← random_chars n
  pure ((bit_xor a b % 2 ^ 8) ∷ rest)

-- `at(j) ^= srpp_rand(0,65536)` over the payload.
unfoldable pub scramble : List ℕ → M (List ℕ)
scramble [] = pure []
scramble (c ∷ cs) = do
  b ← srpp_rand 0 (pos 65536)
  rest ← scramble cs
  pure ((bit_xor c b % 2 ^ 8) ∷ rest)

-- One round of the constructor of `PaddingFunctions`: a new dummy of a random size.
unfoldable pub fill_entry : ℕ → M (Unit {0})
fill_entry i = do
  dummy ← construct
  limit ← gets (λ w. w.maxpacketsize)
  size ← srpp_rand 1 limit
  payload ← random_chars size
  set_dummy i (with_dummy_flag 1 (with_payload payload dummy))

-- The constructor fills the entries from `i` on; the entry with the last index is left alone.
unfoldable pub fill_cache : ℕ → ℕ → M (Unit {0})
fill_cache zero i = pure tt
fill_cache (suc rounds) i = do fill_entry i; fill_cache rounds (i + 1)

unfoldable pub new_padding_functions : M (Unit {0})
new_padding_functions = fill_cache max_dummy_cache_size 0

-- `add_to_dummy_cache`.
unfoldable pub add_to_dummy_cache : SrppMessage → M (Unit {0})
add_to_dummy_cache msg = do
  index ← srpp_rand 0 (pos max_dummy_cache_size)
  size ← srpp_rand 1 (pos 500)
  payload ← scramble msg.encrypted_part.original_payload
  more ← random_chars (size - length payload)
  set_dummy index (with_dummy_flag 1 (with_payload (payload ++ more) msg))

-- `sizeof` of a `vector<char>`.
abbrev pub vector_size : ℕ
vector_size = 24

-- `generate_dummy_data`: rounds of the loop, with fuel. Each round appends as many bytes as the dummy
-- has, but not more than are missing, of the memory at the address of the `vector` object, which has
-- 24 bytes.
unfoldable pub gather : ℕ → ℕ → ℕ → M (List ℕ)
gather zero index missing = fault
gather (suc fuel) index missing =
    let rest_of = λ (taken : ℕ). gather fuel index (missing - taken) in
    if missing == 0 then pure [] else do
      dummy ← get_dummy index
      let size = length dummy.encrypted_part.original_payload
      let taken : ℕ = if ltb missing size then missing else size
      bytes ← (if ltb vector_size taken then fault else stale_bytes taken)
      rest ← rest_of taken
      pure (bytes ++ rest)

-- The loop has fuel for `size + 1` rounds. A negative size gives no round.
unfoldable pub generate_dummy_data : ℤ → M (List ℕ)
generate_dummy_data size = do
  index ← srpp_rand 0 (pos max_dummy_cache_size)
  _ ← construct
  gather (suc (to_nat size)) index (to_nat size)

abbrev pub with_seq : ℕ → SrppMessage → SrppMessage
with_seq n msg = record msg { srpp_header = record msg.srpp_header { seq = n % 2 ^ 16 } }

-- The cut of `generate_dummy_pkt(size)`: to `size` bytes of payload without padding, or to padding
-- that fills up to `size`.
unfoldable pub cut_dummy : ℕ → SrppMessage → SrppMessage
cut_dummy size msg =
    let e = msg.encrypted_part in
    let pay_size = length e.original_payload in
    let pad_size = length e.srpp_padding in
    if ltb size pay_size
    then record msg {
      encrypted_part = record e {
        original_payload = take size e.original_payload;
        srpp_padding = [];
        pad_count = 0;
      };
    }
    else if ltb (size - pay_size) pad_size
    then record msg {
      encrypted_part = record e {
        srpp_padding = take (size - pay_size) e.srpp_padding;
        pad_count = size - pay_size;
      };
    }
    else msg

-- `generate_dummy_pkt(size)`: a random entry of the cache, cut in place, with the sequence number
-- before the increment.
unfoldable pub generate_dummy_pkt : ℕ → M SrppMessage
generate_dummy_pkt size = do
  index ← srpp_rand 0 (pos max_dummy_cache_size)
  number ← gets (λ w. w.last_sequence_no)
  dummy ← get_dummy index
  modify (λ w. record w { last_sequence_no = number + 1 })
  let cut = cut_dummy size (with_seq number dummy)
  set_dummy index cut
  pure cut

-- `generate_dummy_pkt()`: an entry of more than 1200 bytes loses a fifth of each part. The count is
-- left as it was.
unfoldable pub shorten_dummy : SrppMessage → SrppMessage
shorten_dummy msg =
    let e = msg.encrypted_part in
    let pay_size = length e.original_payload in
    let pad_size = length e.srpp_padding in
    if ltb 1200 (pay_size + pad_size)
    then record msg {
      encrypted_part = record e {
        original_payload = take (pay_size * 4 / 5) e.original_payload;
        srpp_padding = take (pad_size * 4 / 5) e.srpp_padding;
      };
    }
    else msg

unfoldable pub generate_any_dummy_pkt : M SrppMessage
generate_any_dummy_pkt = do
  index ← srpp_rand 0 (pos max_dummy_cache_size)
  number ← gets (λ w. w.last_sequence_no)
  dummy ← get_dummy index
  modify (λ w. record w { last_sequence_no = number + 1 })
  let cut = shorten_dummy (with_seq number dummy)
  set_dummy index cut
  pure cut

-- `unpad`: -1 for a dummy; else the padding is dropped.
unfoldable pub unpad : SrppMessage → ℤ × SrppMessage
unpad msg =
    let e = msg.encrypted_part in
    if e.dummy_flag == 1
    then (negsuc 0, msg)
    else (pos 1, record msg { encrypted_part = record e { srpp_padding = []; pad_count = 0 } })
