-- ===== src/Transport.antt =====
-- SRPP_functions.cpp: `send_message`, `isSignalingMessage`, `encrypt_srpp` as they use the globals.
pub mod Sending
use dionysius.Common.{
  ℕ, zero, suc, ◌+◌, ◌%◌, ◌^◌, List, [], ◌∷◌, Option, none, some, Bool, true, false, if◌then◌else◌,
  ◌==◌, ◌&&◌, not, length, ℤ, pos, negsuc,
}
use dionysius.Machine.{to_int, read}
use dionysius.Message.{SrppMessage, SrppHeader, encrypt_srpp, decrypt_srpp}
use dionysius.Wire.{header_size, load_header, srpp_to_network}
use dionysius.World.{World, M, pure, ◌>>=◌, ◌>>◌, gets, modify, lift, ask, srpp_rand}

-- What the C library computes that the protocol only relays: the first `rand()` after `srand(seed)`,
-- and the `float` expression `(int) (pay_size*(m/l))` of the gradual ascent. `receive_processor` is
-- the function that `setReceiveFunctor` was given.
pub record Library : Type 0 where
  pub first_rand : ℕ → ℕ
  pub scaled : ℕ → ℕ → ℕ → ℕ
  pub receive_processor : M (Option SrppMessage)

-- `isSignalingMessage(SRPPMessage*)`: 1 for a signaling message, -1 for media, else 0.
unfoldable pub is_signaling_header : SrppHeader → ℤ
is_signaling_header h =
    if h.srpp_signalling == 0 && not (h.pt == 124)
    then negsuc 0
    else if not (h.srpp_signalling == 0) && h.pt == 124
    then pos 1
    else pos 0

unfoldable pub is_signaling_message : SrppMessage → ℤ
unfolding is_signaling_header
is_signaling_message msg = is_signaling_header msg.srpp_header

-- `isSignalingMessage(char*)`: on the header in memory, as the host loads it, before `ntohl`. Both
-- tests only compare `srpp_signalling` with 0, which the byte order does not change.
unfoldable pub is_signaling_buffer : List ℕ → M ℤ
unfolding is_signaling_header
is_signaling_buffer buff =
    lift (read buff 0 header_size) >>= λ header. pure (is_signaling_header (load_header header))

abbrev pub is_one : ℤ → Bool
is_one (pos n) = n == 1
is_one (negsuc n) = false

abbrev pub is_zero : ℤ → Bool
is_zero (pos n) = n == 0
is_zero (negsuc n) = false

-- What an array that `new char[n]` returns, or a stretch of memory that was never set, holds.
unfoldable pub stale_bytes : ℕ → M (List ℕ)
stale_bytes zero = pure []
stale_bytes (suc n) = do byte ← ask; rest ← stale_bytes n; pure ((byte % 2 ^ 8) ∷ rest)

-- `srpp::encrypt_srpp`. In `srpp_rand(0,2^15)` the `^` is exclusive or.
unfoldable pub encrypt_with_session : SrppMessage → M SrppMessage
encrypt_with_session msg = do
  noise ← srpp_rand 0 (pos 13)
  key ← gets (λ w. w.session.encryption_key)
  pure (encrypt_srpp noise key msg)

-- `srpp::decrypt_srpp`.
unfoldable pub decrypt_with_session : SrppMessage → M SrppMessage
decrypt_with_session msg = do
  key ← gets (λ w. w.session.encryption_key)
  pure (decrypt_srpp key msg)

-- `sizeof(srpp_header) + payload + padding + 3*sizeof(uint32_t)`.
abbrev pub packet_size : SrppMessage → ℕ
packet_size msg =
    header_size
    + length msg.encrypted_part.original_payload
    + length msg.encrypted_part.srpp_padding
    + 12

module _ (lib : Library) where
  -- The packet that `send_message` builds in a new array.
  unfoldable pub build_packet : SrppMessage → M (List ℕ)
  build_packet msg = do
    buff ← stale_bytes (packet_size msg)
    key ← gets (λ w. w.session.encryption_key)
    stored ← lift (
        srpp_to_network lib.first_rand
          (if is_one (is_signaling_message msg) then pos 0 else to_int key) msg buff)
    pure stored.0

  -- `send_message`: the packet goes to the external processor or to `sendto`, and what either
  -- returns is returned. Nothing is sent of a message without a payload.
  unfoldable pub send_message : SrppMessage → M ℤ
  send_message msg = if length msg.encrypted_part.original_payload == 0 then pure (pos 0) else do
    packet ← build_packet msg
    modify (λ w. record w {
      packet_to_send = if w.send_external == 1 then 1 else msg.srpp_header.seq;
      outbox = packet ∷ w.outbox;
    })
    status ← ask
    modify (λ w. record w { packet_to_send = 0 })
    pure (to_int (status % 2 ^ 32))
