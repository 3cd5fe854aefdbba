-- ===== src/Session/Delivery.antt =====
-- A media packet that reaches `receive_message` of an end which agreed on a key by SDP.
use dionysius.Common.{
  ℕ, suc, ◌+◌, ◌%◌, ◌^◌, ◌<◌, ◌≤◌, List, [], ◌++◌, length, length-append, some, true, false, ◌==◌,
  ◌&&◌, lt→ltb, pos, ◌≡◌, refl, ap, ◌∙◌, arith,
}
use dionysius.Machine.{to_int, be32}
use dionysius.Message.{SrppMessage}
use dionysius.Wire.{header_size, network_to_srpp, flag_bytes}
use dionysius.Wire.Layout.{filled_header, length-filled_header}
use dionysius.Wire.Send.{IsMedia, packet}
use dionysius.Wire.Receive.{received, network_to_srpp-media}
use dionysius.World.{
  World, datagram, pure, ◌>>◌, gets, modify, lift, next_arrival, create_srpp_message,
}
use dionysius.World.Frames.{bind-some}
use dionysius.World.Creation.{created, created_message, create_srpp_message_lem}
use dionysius.Transport.{Library, stale_bytes}
use dionysius.Transport.Sending.{later, stale, stale_bytes_lem}
use dionysius.Session.{
  load_packet, process_received_data, receive_arrival, receive_nested, receive_message,
}

length-packet :
    (first_rand : ℕ → ℕ) (msg : SrppMessage) (sent : List ℕ)
    → length (packet first_rand msg sent)
      ≡ 80 + length msg.encrypted_part.original_payload + length sent + 12
length-packet first_rand msg sent = omega (
  arith,
  length-append
      (((filled_header first_rand msg.srpp_header ++ msg.encrypted_part.original_payload) ++ sent)
        ++ flag_bytes msg.encrypted_part)
      (be32 msg.authentication_tag),
  length-append
      ((filled_header first_rand msg.srpp_header ++ msg.encrypted_part.original_payload) ++ sent)
      (flag_bytes msg.encrypted_part),
  length-append (filled_header first_rand msg.srpp_header ++ msg.encrypted_part.original_payload)
      sent,
  length-append (filled_header first_rand msg.srpp_header) msg.encrypted_part.original_payload,
  length-filled_header first_rand msg.srpp_header,
)

-- The state in which a datagram from a port is handled, and the state after a message was created
-- for it.
abbrev pub arrived : ℕ → World → World
arrived port w = later header_size (record w {
  session = record w.session { sender_port = port % 2 ^ 16 };
  arrivals = λ n. w.arrivals (suc n);
})

module _ (lib : Library) (first_rand : ℕ → ℕ) (k port : ℕ) (msg : SrppMessage) (w : World)
    (v : IsMedia (pos k) msg) (tag_word : msg.authentication_tag < 2 ^ 32)
    (padded : 0 < length msg.encrypted_part.srpp_padding)
    (short : length msg.encrypted_part.srpp_padding ≤ 1500) (key : w.session.encryption_key ≡ k)
    (key_int : k < 2 ^ 31) where
  abbrev bytes : List ℕ
  bytes = packet first_rand msg msg.encrypted_part.srpp_padding

  abbrev delivered : World → SrppMessage
  delivered at =
      received first_rand msg (created_message [] at) msg.encrypted_part.original_payload
        msg.encrypted_part.pad_count

  load_packet-media :
      (junk : List ℕ) (blank : SrppMessage) (at : World)
      → load_packet (bytes ++ junk) (length bytes) (to_int w.session.encryption_key) blank at
        ≡ some (
          received first_rand msg blank msg.encrypted_part.original_payload
              msg.encrypted_part.pad_count,
          at,
        )
  unfolding load_packet pure lift
  load_packet-media junk blank at = bind-some (lift _) _ (ap (λ o. lift o at) loaded)
    where
      as_int : to_int w.session.encryption_key ≡ pos k
      as_int = ap to_int key ∙ rw (lt→ltb k (2 ^ 31) key_int) refl

      loaded :
          network_to_srpp (bytes ++ junk) (length bytes) (to_int w.session.encryption_key) blank
          ≡ some (
            pos 0,
            received first_rand msg blank msg.encrypted_part.original_payload
                msg.encrypted_part.pad_count,
          )
      loaded =
          rw (as_int, length-packet first_rand msg msg.encrypted_part.srpp_padding)
            (network_to_srpp-media first_rand k msg blank msg.encrypted_part.srpp_padding junk
              v.sendable tag_word v.media v.counted padded short)

  -- The receiver holds a key below 2^31, has no function for receiving set, no in-band signalling
  -- and signalling complete. A datagram with the packet of a media message of fitting fields
  -- under that key, without a zero byte in its payload and its padding, with 1 to 1500 bytes of
  -- padding that its decrypted count tells and a 32-bit tag, makes `receive_message` return the
  -- message: the header with random contributing sources, the payload without the padding, the
  -- flags, the tag and the encrypted count are the sender's.
  pub receive_message-delivers :
      (w.receive_external == 1) ≡ false
      → w.signaling_by_srpp ≡ 0
      → w.signaling.signaling_complete ≡ 1
      → w.arrivals 0 ≡ datagram port bytes
      → receive_message lib w ≡ some (some (delivered (arrived port w)), created (arrived port w))
  unfolding receive_message receive_nested receive_arrival process_received_data next_arrival gets
      modify pure ◌>>◌
  receive_message-delivers internal by_sdp complete arrival =
      bind-some (gets (λ v. v.receive_external)) _ refl
      ∙ rw internal (
          bind-some next_arrival _
            (λ i. some (arrival i, record w { arrivals = λ n. w.arrivals (suc n) }))
          ∙ bind-some (modify _) _ refl
          ∙ bind-some (stale_bytes header_size) _ (stale_bytes_lem header_size _)
          ∙ bind-some (create_srpp_message []) _ (create_srpp_message_lem [] (arrived port w))
          ∙ bind-some (gets (λ v. v.signaling_by_srpp)) _ refl
          ∙ bind-some (gets (λ v. v.signaling.signaling_complete)) _ refl
          ∙ bind-some (gets (λ v. v.session.encryption_key)) _ refl
          ∙ rw sdp (
              bind-some (load_packet _ _ _ _) _ (
                load_packet-media (stale header_size w.answers)
                  (created_message [] (arrived port w)) (created (arrived port w)))))
    where
      sdp : (w.signaling_by_srpp == 0 && w.signaling.signaling_complete == 1) ≡ true
      sdp = ground arith
