-- ===== src/Wire/RoundTrip.antt =====
-- A message through `srpp_to_network` and `network_to_srpp` of SRPPMessage.hpp.
use dionysius.Common.{
  ℕ, ◌+◌, ◌^◌, ◌<◌, ◌≤◌, List, [], ◌++◌, Option, some, length, ◌≡◌, ℤ, pos, ◌>>=◌, append-nil,
}
use dionysius.Message.{SrppMessage}
use dionysius.Wire.{srpp_to_network, network_to_srpp, flag_bytes}
use dionysius.Wire.Send.{
  IsMedia, IsSendable, srpp_to_network-media, srpp_to_network-signalling, packet,
}
use dionysius.Wire.Receive.{received, network_to_srpp-media, network_to_srpp-signalling}

-- The packet that one end stores, loaded by the other, of the size that was sent.
abbrev pub transmit : (ℕ → ℕ) → ℤ → SrppMessage → List ℕ → SrppMessage → Option (ℤ × SrppMessage)
transmit first_rand key msg buff blank =
    srpp_to_network first_rand key msg buff >>= λ r. network_to_srpp r.0 (length buff) key blank

-- A media message of fitting fields, with a 32-bit tag, without a zero byte in its payload and
-- its padding, with a padding of 1 to 1500 bytes that its decrypted count tells, that is stored
-- in an array of its size, arrives under a common key that is no negative `int`: the header
-- except `csrc`, which is filled with random words, the payload without the padding, the flags,
-- the tag and the encrypted count are the sender's.
pub transmit_media :
    (first_rand : ℕ → ℕ) (k : ℕ) (msg blank : SrppMessage) (buff : List ℕ)
    → IsMedia (pos k) msg
    → msg.authentication_tag < 2 ^ 32
    → 0 < length msg.encrypted_part.srpp_padding
    → length msg.encrypted_part.srpp_padding ≤ 1500
    → length buff
      ≡ 80
        + length msg.encrypted_part.original_payload
        + length msg.encrypted_part.srpp_padding
        + 12
    → transmit first_rand (pos k) msg buff blank
      ≡ some (
        pos 0,
        received first_rand msg blank msg.encrypted_part.original_payload
            msg.encrypted_part.pad_count,
      )
transmit_media first_rand k msg blank buff v tag_word padded short size =
    rw
      (
        srpp_to_network-media first_rand (pos k) msg buff v padded size,
        size,
        ← append-nil (packet first_rand msg msg.encrypted_part.srpp_padding),
      )
      (network_to_srpp-media first_rand k msg blank msg.encrypted_part.srpp_padding [] v.sendable
        tag_word v.media v.counted padded short)

-- A message with a signalling code, of fitting fields, with a 32-bit tag, a count up to 1500 and
-- no zero byte in its payload, that is stored in an array of its size without padding, arrives
-- under any key with the 8 bytes of its flags behind its payload and the count 0.
pub transmit_signalling :
    (first_rand : ℕ → ℕ) (key : ℤ) (msg blank : SrppMessage) (buff : List ℕ)
    → IsSendable msg
    → msg.authentication_tag < 2 ^ 32
    → 0 < msg.srpp_header.srpp_signalling
    → msg.encrypted_part.pad_count ≤ 1500
    → length buff ≡ 80 + length msg.encrypted_part.original_payload + 12
    → transmit first_rand key msg buff blank
      ≡ some (
        pos 0,
        received first_rand msg blank
            (msg.encrypted_part.original_payload ++ flag_bytes msg.encrypted_part)
            0,
      )
transmit_signalling first_rand key msg blank buff v tag_word signalling short size =
    rw
      (
        srpp_to_network-signalling first_rand key msg buff v signalling size,
        size,
        ← append-nil (packet first_rand msg []),
      )
      (network_to_srpp-signalling first_rand key msg blank [] v tag_word signalling short)
