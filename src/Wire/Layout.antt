-- ===== src/Wire/Layout.antt =====
-- The header of SRPPMessage.hpp in memory: its size, and what loading gives back.
use dionysius.Common.{
  ℕ, zero, suc, ◌+◌, ◌*◌, ◌/◌, ◌%◌, ◌^◌, ◌<◌, List, [], ◌∷◌, ◌++◌, some, length, drop,
  length-append, drop_past, ◌≡◌, refl, ap, ap₂, ◌∙◌, arith,
}
use dionysius.Machine.{le16, be16, be32, load_le16, load_be16, load_be32}
use dionysius.Message.{SrppHeader}
use dionysius.Wire.{
  flags_word, random_words, store_words, header_bytes, load_csrc, load_header, convert_csrc,
}

-- Every field of the header but `csrc` fits its width, and no contributing source is counted.
pub record IsHeader (h : SrppHeader) : Type 0 where
  pub version_bits : h.version < 4
  pub p_bit : h.p < 2
  pub x_bit : h.x < 2
  pub no_sources : h.cc ≡ 0
  pub m_bit : h.m < 2
  pub pt_bits : h.pt < 128
  pub seq_word : h.seq < 2 ^ 16
  pub ts_word : h.ts < 2 ^ 32
  pub ssrc_word : h.ssrc < 2 ^ 32
  pub profile_word : h.defined_by_profile < 2 ^ 16
  pub extension_word : h.extension_header < 2 ^ 16
  pub signalling_word : h.srpp_signalling < 2 ^ 32

pub length-random_words :
    (first_rand : ℕ → ℕ) (ts rounds i : ℕ) → length (random_words first_rand ts rounds i) ≡ rounds
unfolding random_words
length-random_words first_rand ts zero i = refl
length-random_words first_rand ts (suc rounds) i =
    ap suc (length-random_words first_rand ts rounds (i + 1))

length-store_words : (ws : List ℕ) → length (store_words ws) ≡ 4 * length ws
unfolding store_words
length-store_words [] = refl
length-store_words (w ∷ ws) = omega (arith, length-store_words ws)

-- With no counted source, every word is loaded in the order that it was stored in.
load_csrc-random_words :
    (first_rand : ℕ → ℕ) (ts rounds i : ℕ) (rest : List ℕ)
    → load_csrc rounds i 0 (store_words (random_words first_rand ts rounds i) ++ rest)
      ≡ random_words first_rand ts rounds i
unfolding load_csrc store_words random_words
load_csrc-random_words first_rand ts zero i rest = refl
load_csrc-random_words first_rand ts (suc rounds) i rest =
    ap₂ ◌∷◌ (ground arith) (load_csrc-random_words first_rand ts rounds (i + 1) rest)

module _ (first_rand : ℕ → ℕ) (h : SrppHeader) where
  abbrev pub fill : List ℕ
  fill = random_words first_rand h.ts 15 0

  abbrev head : List ℕ
  head = le16 (flags_word h) ++ (be16 h.seq ++ (be32 h.ts ++ be32 h.ssrc))

  abbrev tail : List ℕ
  tail = be16 h.defined_by_profile ++ (be16 h.extension_header ++ be32 h.srpp_signalling)

  -- The header in memory, with every contributing source filled.
  abbrev pub filled_header : List ℕ
  filled_header = head ++ (store_words fill ++ tail)

  length-fill_bytes : length (store_words fill) ≡ 60
  length-fill_bytes =
      omega (arith, length-store_words fill, length-random_words first_rand h.ts 15 0)

  pub length-filled_header : length filled_header ≡ 80
  length-filled_header = omega (arith, length-append (store_words fill) tail, length-fill_bytes)

  drop-fill : (k : ℕ) → drop (60 + k) (store_words fill ++ tail) ≡ drop k tail
  drop-fill k = rw (← length-fill_bytes) (drop_past (store_words fill) tail k)

  -- What `srpp_to_network` stores for a header with no counted source.
  pub header_bytes_lem : IsHeader h → header_bytes first_rand h ≡ some filled_header
  unfolding header_bytes convert_csrc
  header_bytes_lem v = rw v.no_sources

  -- What `network_to_srpp` loads from it: the header, with the random words as its sources.
  pub load-filled_header : IsHeader h → load_header filled_header ≡ record h { csrc = fill }
  unfolding load_header
  load-filled_header v = λ i. record {
    version = v1 i;
    p = v2 i;
    x = v3 i;
    cc = v4 i;
    m = v5 i;
    pt = v6 i;
    seq = v7 i;
    ts = v8 i;
    ssrc = v9 i;
    csrc = v10 i;
    defined_by_profile = v11 i;
    extension_header = v12 i;
    srpp_signalling = v13 i;
  }
    where
      flags : ℕ
      flags = load_le16 0 filled_header

      v1 : flags / 64 % 4 ≡ h.version
      v1 = omega arith

      v2 : flags / 32 % 2 ≡ h.p
      v2 = omega arith

      v3 : flags / 16 % 2 ≡ h.x
      v3 = omega arith

      v4 : flags % 16 ≡ h.cc
      v4 = omega arith

      v5 : flags / 32768 % 2 ≡ h.m
      v5 = omega arith

      v6 : flags / 256 % 128 ≡ h.pt
      v6 = omega arith

      v7 : load_be16 2 filled_header ≡ h.seq
      v7 = omega arith

      v8 : load_be32 4 filled_header ≡ h.ts
      v8 = omega arith

      v9 : load_be32 8 filled_header ≡ h.ssrc
      v9 = omega arith

      v10 : load_csrc 15 0 (flags % 16) (store_words fill ++ tail) ≡ fill
      v10 =
          ap (λ c. load_csrc 15 0 c (store_words fill ++ tail)) (v4 ∙ v.no_sources)
          ∙ load_csrc-random_words first_rand h.ts 15 0 tail

      v11 : load_be16 72 filled_header ≡ h.defined_by_profile
      v11 = ap (load_be16 0) (drop-fill 0) ∙ omega arith

      v12 : load_be16 74 filled_header ≡ h.extension_header
      v12 = ap (load_be16 0) (drop-fill 2) ∙ omega arith

      v13 : load_be32 76 filled_header ≡ h.srpp_signalling
      v13 = ap (load_be32 0) (drop-fill 4) ∙ omega arith
