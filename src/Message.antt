-- ===== src/Message.antt =====
-- libSRPP/include/SRPPMessage.hpp: the SRPP message, its constructor and the exclusive-or cipher.
-- A byte, a flag and a field of the structs is the natural number that its bit pattern stands for;
-- every store keeps the width of its field, as a remainder.
pub mod Cipher
use dionysius.Common.{
  ℕ, ◌+◌, ◌%◌, ◌^◌, ◌<◌, bit_and, bit_xor, bit_or, List, [], ◌∷◌, map, All, length,
}
use dionysius.Common.{◌≡◌}

pub record SrppHeader : Type 0 where
  pub version : ℕ
  pub p : ℕ
  pub x : ℕ
  pub cc : ℕ
  pub m : ℕ
  pub pt : ℕ
  pub seq : ℕ
  pub ts : ℕ
  pub ssrc : ℕ
  pub csrc : List ℕ
  pub defined_by_profile : ℕ
  pub extension_header : ℕ
  pub srpp_signalling : ℕ

pub record SrppEncrypted : Type 0 where
  pub original_payload : List ℕ
  pub srpp_padding : List ℕ
  pub pad_count : ℕ
  pub original_padding_bit : ℕ
  pub dummy_flag : ℕ
  pub original_seq_number : ℕ

pub record SrppMessage : Type 0 where
  pub srpp_header : SrppHeader
  pub encrypted_part : SrppEncrypted
  pub authentication_tag : ℕ

-- Fifteen contributing sources, all zero.
abbrev pub no_csrc : List ℕ
no_csrc = 0 ∷ 0 ∷ 0 ∷ 0 ∷ 0 ∷ 0 ∷ 0 ∷ 0 ∷ 0 ∷ 0 ∷ 0 ∷ 0 ∷ 0 ∷ 0 ∷ 0 ∷ []

-- The constructor, with the incremented `lastSequenceNo`, the time in microseconds, `srppssrc`,
-- and the word that `srpp_signalling`, which it never sets, happens to hold.
unfoldable pub new_message : ℕ → ℕ → ℕ → ℕ → SrppMessage
new_message sequence now ssrc stale = record {
  srpp_header = record {
    version = 2;
    p = 0;
    x = 1;
    cc = 0xf00 % 2 ^ 4;
    m = 0;
    pt = 121;
    seq = sequence % 2 ^ 16;
    ts = now % 2 ^ 32;
    ssrc = ssrc;
    csrc = no_csrc;
    defined_by_profile = 9999;
    extension_header = 1;
    srpp_signalling = stale;
  };
  encrypted_part = record {
    original_payload = [];
    srpp_padding = [];
    pad_count = 0;
    original_padding_bit = 0;
    dummy_flag = 0;
    original_seq_number = 0;
  };
  authentication_tag = 0;
}

-- `c ^= key` on a `char`.
abbrev pub xor_byte : ℕ → ℕ → ℕ
xor_byte key c = bit_xor c key % 2 ^ 8

-- `SRPPMessage::encrypt`, field by field.
pub encrypt_part : ℕ → SrppEncrypted → SrppEncrypted
encrypt_part key e = record {
  original_payload = map (xor_byte key) e.original_payload;
  srpp_padding = map (xor_byte key) e.srpp_padding;
  pad_count = bit_xor e.pad_count key % 2 ^ 32;
  original_padding_bit = bit_xor e.original_padding_bit key % 2 ^ 1;
  dummy_flag = bit_xor e.dummy_flag key % 2 ^ 15;
  original_seq_number = bit_xor e.original_seq_number key % 2 ^ 16;
}

unfoldable pub encrypt : ℕ → SrppMessage → SrppMessage
unfolding encrypt_part
encrypt key msg = record msg { encrypted_part = encrypt_part key msg.encrypted_part }

-- `SRPPMessage::decrypt`, field by field.
pub decrypt_part : ℕ → SrppEncrypted → SrppEncrypted
decrypt_part key e = record {
  original_payload = map (xor_byte key) e.original_payload;
  srpp_padding = map (xor_byte key) e.srpp_padding;
  pad_count = bit_xor e.pad_count key % 2 ^ 32;
  original_padding_bit = bit_xor e.original_padding_bit key % 2 ^ 1;
  dummy_flag = bit_xor e.dummy_flag key % 2 ^ 15;
  original_seq_number = bit_xor e.original_seq_number key % 2 ^ 16;
}

pub decrypt : ℕ → SrppMessage → SrppMessage
unfolding decrypt_part
decrypt key msg = record msg { encrypted_part = decrypt_part key msg.encrypted_part }

-- `srpp::encrypt_srpp` of SRPP_functions.cpp, with the value `noise` that `srpp_rand` returned:
-- `dummy_flag &= noise | 1`, then `encrypt`.
pub masked : ℕ → SrppMessage → SrppEncrypted
masked noise msg = record msg.encrypted_part {
  dummy_flag = bit_and msg.encrypted_part.dummy_flag (bit_or noise 1);
}

pub encrypt_srpp : ℕ → ℕ → SrppMessage → SrppMessage
unfolding masked encrypt
encrypt_srpp noise key msg = encrypt key (record msg { encrypted_part = masked noise msg })

-- `srpp::decrypt_srpp` of SRPP_functions.cpp.
pub decrypt_srpp : ℕ → SrppMessage → SrppMessage
unfolding decrypt
decrypt_srpp key msg =
    let plain = decrypt key msg in
    record plain {
      encrypted_part = record plain.encrypted_part {
        dummy_flag = bit_and plain.encrypted_part.dummy_flag 1;
      };
    }

abbrev pub IsByte : ℕ → Type 0
IsByte b = b < 2 ^ 8

-- Every field of the encrypted part fits its width.
pub record IsInRange (e : SrppEncrypted) : Type 0 where
  pub payload_bytes : All IsByte e.original_payload
  pub padding_bytes : All IsByte e.srpp_padding
  pub pad_count_word : e.pad_count < 2 ^ 32
  pub padding_bit : e.original_padding_bit < 2
  pub flag_word : e.dummy_flag < 2 ^ 15
  pub seq_word : e.original_seq_number < 2 ^ 16
