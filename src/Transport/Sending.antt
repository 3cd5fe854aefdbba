-- ===== src/Transport/Sending.antt =====
-- What `send_message` sends.
use native.Mathlib.Nat.{zero-add}
use dionysius.Common.{
  ℕ, zero, suc, ◌+◌, ◌%◌, ◌^◌, ◌<◌, List, [], ◌∷◌, some, false, if◌then◌else◌, ◌==◌, ==-zero,
  length, ℤ, pos, ◌≡◌, refl, ap, sym, ◌∙◌, arith,
}
use dionysius.Machine.{to_int}
use dionysius.Message.{SrppMessage}
use dionysius.Wire.{srpp_to_network}
use dionysius.Wire.Send.{
  IsMedia, IsSendable, packet, srpp_to_network-media, srpp_to_network-signalling,
}
use dionysius.World.Frames.{bind-some}
use dionysius.World.{World, M, pure, ◌>>=◌, ◌>>◌, gets, modify, lift, ask}
use dionysius.Transport.{
  Library, is_signaling_message, is_one, stale_bytes, packet_size, build_packet, send_message,
}

-- The world after some answers were taken.
abbrev pub later : ℕ → World → World
later n w = record w { answers = λ k. w.answers (n + k) }

-- The bytes that were never set.
abbrev pub stale : ℕ → (ℕ → ℕ) → List ℕ
stale zero answers = []
stale (suc n) answers = (answers 0 % 2 ^ 8) ∷ stale n (λ k. answers (suc k))

pub length-stale : (n : ℕ) (answers : ℕ → ℕ) → length (stale n answers) ≡ n
length-stale zero answers = refl
length-stale (suc n) answers = ap suc (length-stale n (λ k. answers (suc k)))

pub stale_bytes_lem : (n : ℕ) (w : World) → stale_bytes n w ≡ some (stale n w.answers, later n w)
unfolding stale_bytes ask pure
stale_bytes_lem zero w = λ i. some ([], record w { answers = λ k. w.answers (sym (zero-add k) i) })
stale_bytes_lem (suc n) w =
    bind-some ask rest_of refl
    ∙ bind-some (stale_bytes n) (λ rest. pure ((w.answers 0 % 2 ^ 8) ∷ rest))
        (stale_bytes_lem n (record w { answers = λ k. w.answers (suc k) }))
    ∙ (λ i. some (stale (suc n) w.answers, record w { answers = λ k. w.answers (step k i) }))
  where
    rest_of : ℕ → M (List ℕ)
    rest_of byte = stale_bytes n >>= λ rest. pure ((byte % 2 ^ 8) ∷ rest)

    step : (k : ℕ) → suc (n + k) ≡ suc n + k
    step k = omega arith

-- A message without a payload is not sent: the call succeeds, and does nothing.
pub send_message-empty :
    (lib : Library) (msg : SrppMessage) (w : World)
    → msg.encrypted_part.original_payload ≡ []
    → send_message lib msg w ≡ some (pos 0, w)
unfolding send_message pure
send_message-empty lib msg w empty = rw (empty, send_message) refl

-- The world after a packet went out.
abbrev pub sent : List ℕ → SrppMessage → World → World
sent packet msg w = record (later (suc (packet_size msg)) w) {
  packet_to_send = 0;
  outbox = packet ∷ w.outbox;
}

-- The code of `sendto`.
abbrev pub send_status : SrppMessage → World → ℤ
send_status msg w = to_int (w.answers (packet_size msg) % 2 ^ 32)

module _ (lib : Library) (msg : SrppMessage) (w : World) where
  -- The key that `send_message` passes on.
  abbrev pub wire_key : ℤ
  wire_key = if is_one (is_signaling_message msg) then pos 0 else to_int w.session.encryption_key

  module _ (bytes : List ℕ)
      (stored : srpp_to_network lib.first_rand wire_key msg (stale (packet_size msg) w.answers)
        ≡ some (bytes, msg)) where
    build_packet_lem : build_packet lib msg w ≡ some (bytes, later (packet_size msg) w)
    unfolding build_packet gets pure lift
    build_packet_lem =
        bind-some (stale_bytes (packet_size msg)) _ (stale_bytes_lem (packet_size msg) w)
        ∙ bind-some (gets (λ v. v.session.encryption_key)) _ refl
        ∙ bind-some (lift (srpp_to_network _ _ _ _)) _
            (ap (λ o. lift o (later (packet_size msg) w)) stored)

    -- If the new array is stored as a packet, that packet goes out, whatever the code of `sendto`.
    send_stored :
        0 < length msg.encrypted_part.original_payload
        → send_message lib msg w ≡ some (send_status msg w, sent bytes msg w)
    unfolding send_message gets modify pure ask ◌>>◌
    send_stored some_payload = rw nonempty (
        bind-some (build_packet lib msg) _ build_packet_lem
        ∙ bind-some (modify _) _ refl
        ∙ bind-some ask _ refl
        ∙ bind-some (modify _) _ refl
        ∙ (λ i. some (
          to_int (w.answers (first i) % 2 ^ 32),
          record w {
            packet_to_send = 0;
            outbox = bytes ∷ w.outbox;
            answers = λ n. w.answers (next n i);
          },
        )))
      where
        first : packet_size msg + 0 ≡ packet_size msg
        first = omega arith

        next : (n : ℕ) → packet_size msg + suc n ≡ suc (packet_size msg) + n
        next n = omega arith

        nonempty : (length msg.encrypted_part.original_payload == 0) ≡ false
        nonempty = ==-zero (length msg.encrypted_part.original_payload) some_payload

  -- A media message of fitting fields, without a zero byte in its payload and its padding, both
  -- not empty, with a padding that its count tells once it is decrypted, goes out as one packet:
  -- the header, the payload, the padding, the flags and the tag. The call returns the code of
  -- `sendto`, whatever it is; no packet is marked as pending then, and but for the answers used
  -- nothing else changes. No function for sending is set.
  pub send_message-media :
      w.send_external ≡ 0
      → IsMedia wire_key msg
      → 0 < length msg.encrypted_part.original_payload
      → 0 < length msg.encrypted_part.srpp_padding
      → send_message lib msg w
        ≡ some (
          send_status msg w,
          sent (packet lib.first_rand msg msg.encrypted_part.srpp_padding) msg w,
        )
  send_message-media internal v some_payload padded =
      send_stored _
        (srpp_to_network-media lib.first_rand wire_key msg _ v padded
          (length-stale (packet_size msg) w.answers))
        some_payload

  -- A message of fitting fields with a signalling code, with a payload that is not empty and has
  -- no zero byte, and no padding, goes out as one packet: the header, the payload, the flags and
  -- the tag. The call returns the code of `sendto`; no packet is marked as pending then, and but
  -- for the answers used nothing else changes.
  pub send_message-signalling :
      IsSendable msg
      → 0 < length msg.encrypted_part.original_payload
      → msg.encrypted_part.srpp_padding ≡ []
      → 0 < msg.srpp_header.srpp_signalling
      → send_message lib msg w ≡ some (send_status msg w, sent (packet lib.first_rand msg []) msg w)
  send_message-signalling v some_payload bare signalling =
      send_stored _
        (srpp_to_network-signalling lib.first_rand wire_key msg _ v signalling
          (length-stale (packet_size msg) w.answers ∙ size))
        some_payload
    where
      size : packet_size msg ≡ 80 + length msg.encrypted_part.original_payload + 12
      size = omega (arith, ap length bare)
