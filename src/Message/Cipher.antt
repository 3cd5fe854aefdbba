-- ===== src/Message/Cipher.antt =====
-- The exclusive-or cipher of SRPPMessage.hpp and SRPP_functions.cpp, there and back.
use dionysius.Common.{
  ℕ, ◌%◌, bit_and, bit_or, List, [], ◌∷◌, map, All, ◌≡◌, refl, ap₂, arith, bit_xor_undo,
  bit_and-one, bit_and_odd, bit_or_one_odd, bit_and-le, ap, ◌∙◌,
}
use dionysius.Message.{
  SrppMessage, SrppEncrypted, IsByte, IsInRange, xor_byte, encrypt_part, decrypt_part, encrypt,
  decrypt, masked, encrypt_srpp, decrypt_srpp,
}

xor_bytes_undo :
    (key : ℕ) (bs : List ℕ) → All IsByte bs → map (xor_byte key) (map (xor_byte key) bs) ≡ bs
xor_bytes_undo key [] h = refl
xor_bytes_undo key (b ∷ bs) h = ap₂ ◌∷◌ (bit_xor_undo 8 b key h.0) (xor_bytes_undo key bs h.1)

pub decrypt_part-encrypt_part :
    (key : ℕ) (e : SrppEncrypted) → IsInRange e → decrypt_part key (encrypt_part key e) ≡ e
unfolding encrypt_part decrypt_part
decrypt_part-encrypt_part key e h = λ i. record {
  original_payload = xor_bytes_undo key e.original_payload h.payload_bytes i;
  srpp_padding = xor_bytes_undo key e.srpp_padding h.padding_bytes i;
  pad_count = bit_xor_undo 32 e.pad_count key h.pad_count_word i;
  original_padding_bit = bit_xor_undo 1 e.original_padding_bit key h.padding_bit i;
  dummy_flag = bit_xor_undo 15 e.dummy_flag key h.flag_word i;
  original_seq_number = bit_xor_undo 16 e.original_seq_number key h.seq_word i;
}

-- Decrypting a message whose fields fit their widths with the key that it was encrypted with gives
-- the message back, whatever the key.
pub decrypt-encrypt :
    (key : ℕ) (msg : SrppMessage)
    → IsInRange msg.encrypted_part
    → decrypt key (encrypt key msg) ≡ msg
unfolding encrypt decrypt
decrypt-encrypt key msg h =
    λ i. record msg { encrypted_part = decrypt_part-encrypt_part key msg.encrypted_part h i }

masked-IsInRange :
    (noise : ℕ) (msg : SrppMessage) → IsInRange msg.encrypted_part → IsInRange (masked noise msg)
unfolding masked
masked-IsInRange noise msg h = record {
  payload_bytes = h.payload_bytes;
  padding_bytes = h.padding_bytes;
  pad_count_word = h.pad_count_word;
  padding_bit = h.padding_bit;
  flag_word = omega (arith, bit_and-le flag flag (bit_or noise 1) (omega arith));
  seq_word = h.seq_word;
}
  where
    flag : ℕ
    flag = msg.encrypted_part.dummy_flag

-- What `decrypt_srpp` makes of a message that `encrypt_srpp` made, of fields that fit their
-- widths, under the same key: the message itself, with its dummy flag cut to the lowest bit,
-- whatever number the sender drew.
pub decrypt_srpp-encrypt_srpp :
    (noise key : ℕ) (msg : SrppMessage)
    → IsInRange msg.encrypted_part
    → decrypt_srpp key (encrypt_srpp noise key msg) ≡ record msg {
      encrypted_part = record msg.encrypted_part { dummy_flag = msg.encrypted_part.dummy_flag % 2 };
    }
unfolding encrypt_srpp decrypt_srpp masked
decrypt_srpp-encrypt_srpp noise key msg h =
    let undone = decrypt_part-encrypt_part key (masked noise msg) (masked-IsInRange noise msg h) in
    ap with_low_flag undone ∙ ap with_flag low_flag
  where
    flag : ℕ
    flag = msg.encrypted_part.dummy_flag

    with_low_flag : SrppEncrypted → SrppMessage
    with_low_flag e = record msg {
      encrypted_part = record e { dummy_flag = bit_and e.dummy_flag 1 };
    }

    with_flag : ℕ → SrppMessage
    with_flag f = record msg { encrypted_part = record msg.encrypted_part { dummy_flag = f } }

    low_flag : bit_and (bit_and flag (bit_or noise 1)) 1 ≡ flag % 2
    low_flag = omega (
      arith,
      bit_and-one (bit_and flag (bit_or noise 1)),
      bit_and_odd flag (bit_or noise 1) (bit_or_one_odd noise),
    )
