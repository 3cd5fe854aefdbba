-- ===== src/Convert/Back.antt =====
-- An encrypted SRPP message, converted to RTP by `srpp_to_rtp` of SRPP_functions.cpp.
use dionysius.Common.{
  ℕ, zero, suc, ◌+◌, ◌-◌, ◌%◌, ◌^◌, ◌<◌, List, [], ◌∷◌, ◌++◌, length, length-append, lt→ltb, some,
  Bool-cases, inl, inr, if◌then◌else◌, ◌==◌, is_negative, ℤ, pos, negsuc, ◌≡◌, refl, ap, ◌∙◌, arith,
}
use dionysius.Machine.{ntohs}
use dionysius.Message.{SrppMessage, IsInRange, encrypt_srpp, decrypt_srpp}
use dionysius.Message.Cipher.{decrypt_srpp-encrypt_srpp}
use dionysius.World.{World, pure, ◌>>◌, gets, modify, lift, ask}
use dionysius.World.Frames.{bind-some}
use dionysius.Transport.{decrypt_with_session, stale_bytes}
use dionysius.Transport.Sending.{later, stale, length-stale, stale_bytes_lem}
use dionysius.Padding.Cache.{unpad}
use dionysius.Convert.{
  RtpMessage, max_payload_size, new_rtp_header, copy_sources, stale_words, create_rtp_message,
  restored_header, srpp_to_rtp,
}

stale_words-total :
    (n : ℕ) (w : World) → (ws : List ℕ) × (w' : World) × (stale_words n w ≡ some (ws, w'))
unfolding stale_words ask pure
stale_words-total zero w = ([], w, refl)
stale_words-total (suc n) w =
    let rest = stale_words-total n (record w { answers = λ k. w.answers (suc k) }) in
    (
      (w.answers 0 % 2 ^ 32) ∷ rest.0,
      rest.1,
      bind-some ask _ refl ∙ bind-some (stale_words n) _ rest.2,
    )

-- A created RTP message holds the bytes and a zero, in an array of 1464.
abbrev Created : List ℕ → World → Type 0
Created bytes w =
    (rtp : RtpMessage) × (rest : List ℕ) × (w' : World) × (create_rtp_message bytes w
      ≡ some (rtp, w'))
    × (rtp.payload ≡ bytes ++ 0 ∷ rest)
    × (length rtp.payload ≡ max_payload_size)

create_rtp_message-total :
    (bytes : List ℕ) (w : World) → length bytes < max_payload_size → Created bytes w
unfolding create_rtp_message gets modify pure ◌>>◌
create_rtp_message-total bytes w short = (
  record {
    rtp_header = new_rtp_header (w.rtp_sequence_no + 1) words.0;
    payload = bytes ++ 0 ∷ stale left at.answers;
  },
  stale left at.answers,
  later left at,
  bind-some (gets _) _ refl
      ∙ bind-some (modify _) _ refl
      ∙ bind-some (stale_words 15) _ (words.2)
      ∙ bind-some (stale_bytes left) _ (stale_bytes_lem left at)
      ∙ rw (lt→ltb (length bytes) max_payload_size short) refl,
  refl,
  omega (arith, length-append bytes (0 ∷ stale left at.answers), length-stale left at.answers),
)
  where
    words :
        (ws : List ℕ) × (w' : World) × (stale_words 15
            (record w { rtp_sequence_no = w.rtp_sequence_no + 1 })
          ≡ some (ws, w'))
    words = stale_words-total 15 (record w { rtp_sequence_no = w.rtp_sequence_no + 1 })

    at : World
    at = words.1

    left : ℕ
    left = max_payload_size - (length bytes + 1)

-- The conversion of a message that is decrypted to `msg` and unpadded to `out`.
module _ (w : World) (sent msg out : SrppMessage) (status : ℤ) (kept : List ℕ) where
  Converted : Type 0
  Converted =
      (rtp : RtpMessage) × (csrc rest : List ℕ) × (w' : World) × (srpp_to_rtp sent w
        ≡ some ((rtp, out), w'))
      × (rtp.rtp_header ≡ restored_header out csrc)
      × (rtp.payload ≡ kept ++ 0 ∷ rest)
      × (length rtp.payload ≡ max_payload_size)

  convert_unpadded :
      decrypt_with_session sent w ≡ some (msg, w)
      → unpad msg ≡ (status, out)
      → (if is_negative status then [] else out.encrypted_part.original_payload) ≡ kept
      → out.srpp_header.cc ≡ 0
      → length kept < max_payload_size
      → Converted
  unfolding Converted srpp_to_rtp modify ◌>>◌ pure lift copy_sources
  convert_unpadded decrypted unpadded keeps bare short =
      let made =
        create_rtp_message-total kept (record w { rtp_sequence_no = w.rtp_sequence_no + 1 })
          short in
      (
        record {
          rtp_header = restored_header out made.0.rtp_header.csrc;
          payload = made.0.payload;
        },
        made.0.rtp_header.csrc,
        made.1,
        made.2,
        bind-some (decrypt_with_session sent) _ decrypted
            ∙ bind-some (modify _) _ refl
            ∙ rw (unpadded, keeps)
                (bind-some (create_rtp_message kept) _ made.3
                  ∙ bind-some (lift _) _ (
                      ap
                        (λ n.
                          lift
                            (copy_sources (λ x. x) (ntohs n) 0 out.srpp_header.csrc
                              made.0.rtp_header.csrc)
                            made.2)
                        bare)),
        refl,
        made.4,
        made.5,
      )

-- The message that `encrypt_srpp` made under the session's key, of fields that fit their widths, with
-- no contributing source, a dummy flag of 0 or 1 and a payload below 1464 bytes, is converted to an
-- RTP packet with the header of the original one, and with its payload and a zero behind it in the
-- array of 1464 bytes; of a dummy the payload is empty.
pub srpp_to_rtp-encrypt_srpp :
    (noise : ℕ) (msg : SrppMessage) (w : World)
    → IsInRange msg.encrypted_part
    → msg.srpp_header.cc ≡ 0
    → msg.encrypted_part.dummy_flag < 2
    → length msg.encrypted_part.original_payload < max_payload_size
    → (rtp : RtpMessage) × (csrc rest : List ℕ) × (out : SrppMessage) × (w' : World) × (srpp_to_rtp
          (encrypt_srpp noise w.session.encryption_key msg)
          w
        ≡ some ((rtp, out), w'))
      × (rtp.rtp_header ≡ restored_header msg csrc)
      × (rtp.payload
          ≡ (if msg.encrypted_part.dummy_flag == 1 then [] else msg.encrypted_part.original_payload)
            ++ 0 ∷ rest)
      × (length rtp.payload ≡ max_payload_size)
unfolding decrypt_with_session unpad gets pure Converted
srpp_to_rtp-encrypt_srpp noise msg w fits bare flag short =
    elim (Bool-cases (msg.encrypted_part.dummy_flag == 1)) [
      | inl dummy ↦
          let c =
            convert_unpadded w _ msg msg (negsuc 0) [] decrypted (rw dummy refl) refl bare
              (omega arith) in
          (c.0, c.1, c.2, msg, c.3, c.4, c.5, rw dummy c.6, c.7)
      | inr media ↦
          let out = record msg {
            encrypted_part = record msg.encrypted_part { srpp_padding = []; pad_count = 0 };
          } in
          let c =
            convert_unpadded w _ msg out (pos 1) msg.encrypted_part.original_payload decrypted
              (rw media refl) refl bare short in
          (c.0, c.1, c.2, out, c.3, c.4, c.5, rw media c.6, c.7)
    ]
  where
    key : ℕ
    key = w.session.encryption_key

    low : msg.encrypted_part.dummy_flag % 2 ≡ msg.encrypted_part.dummy_flag
    low = omega arith

    plain : decrypt_srpp key (encrypt_srpp noise key msg) ≡ msg
    plain =
        decrypt_srpp-encrypt_srpp noise key msg fits
        ∙ (λ i. record msg { encrypted_part = record msg.encrypted_part { dummy_flag = low i } })

    decrypted : decrypt_with_session (encrypt_srpp noise key msg) w ≡ some (msg, w)
    decrypted = bind-some (gets (λ v. v.session.encryption_key)) _ refl ∙ (λ i. some (plain i, w))
