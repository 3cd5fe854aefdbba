-- ===== src/Tests/Wire.antt =====
-- Messages through the cipher and the packet.
use dionysius.Common.{[], ◌∷◌, some, pos, ◌≡◌, refl, arith}
use dionysius.Message.{encrypt, decrypt, encrypt_srpp, decrypt_srpp}
use dionysius.Message.Cipher.{decrypt-encrypt, decrypt_srpp-encrypt_srpp}
use dionysius.Wire.{flag_bytes}
use dionysius.Wire.Receive.{received}
use dionysius.Wire.RoundTrip.{transmit, transmit_media, transmit_signalling}
use dionysius.Tests.Data.{
  some_rand, media_message, media_part-IsInRange, media_message-IsMedia, signal_message,
  signal_message-IsSendable, blank_message, copies,
}

-- The key 1655 turns the first byte of the payload, 72, into 63.
encrypt_first : (encrypt 1655 media_message).encrypted_part.original_payload ≡ 63 ∷ 30 ∷ 86 ∷ []
unfolding encrypt
encrypt_first = refl

decrypt-encrypt_example : decrypt 1655 (encrypt 1655 media_message) ≡ media_message
decrypt-encrypt_example = decrypt-encrypt 1655 media_message media_part-IsInRange

decrypt_srpp-encrypt_srpp_example :
    decrypt_srpp 1655 (encrypt_srpp 6 1655 media_message) ≡ record media_message {
      encrypted_part = record media_message.encrypted_part { dummy_flag = 0 };
    }
decrypt_srpp-encrypt_srpp_example =
    decrypt_srpp-encrypt_srpp 6 1655 media_message media_part-IsInRange

transmit_media_example :
    transmit some_rand (pos 1655) media_message (copies 97 0) blank_message
    ≡ some (pos 0, received some_rand media_message blank_message (72 ∷ 105 ∷ 33 ∷ []) 1653)
transmit_media_example =
    transmit_media some_rand 1655 media_message blank_message (copies 97 0) media_message-IsMedia
      (omega arith) (omega arith) (omega arith) refl

transmit_signalling_example :
    transmit some_rand (pos 0) signal_message (copies 95 0) blank_message
    ≡ some (
      pos 0,
      received some_rand signal_message blank_message
          (72 ∷ 105 ∷ 33 ∷ flag_bytes signal_message.encrypted_part)
          0,
    )
transmit_signalling_example =
    transmit_signalling some_rand (pos 0) signal_message blank_message (copies 95 0)
      signal_message-IsSendable (omega arith) (omega arith) (omega arith) refl
