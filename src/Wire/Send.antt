-- ===== src/Wire/Send.antt =====
-- What `srpp_to_network` of SRPPMessage.hpp stores.
use native.Mathlib.Nat.{add-zero}
use dionysius.Common.{
  ℕ, suc, ◌+◌, ◌^◌, ◌<◌, List, [], ◌∷◌, ◌++◌, some, length, drop, length-append, length-drop,
  drop_all, append-nil, All, ◌≡◌, refl, sym, ◌∙◌, arith, lt→ltb, ==_iff, ◌>>=◌, bit_xor_undo, ℤ,
}
use dionysius.Machine.{be32, to_unsigned, NonZero, write_next, strcpy_next, strcpy}
use dionysius.Message.{SrppHeader, SrppMessage, IsInRange}
use dionysius.Wire.{flag_bytes, toggle_count, put_padding, srpp_to_network}
use dionysius.Wire.Layout.{IsHeader, filled_header, length-filled_header, header_bytes_lem}

-- Toggling the count twice with one key does nothing to a word.
pub toggle_count_undo :
    (key : ℤ) (h : SrppHeader) (count : ℕ)
    → count < 2 ^ 32
    → toggle_count key h (toggle_count key h count) ≡ count
unfolding toggle_count
toggle_count_undo key h count fits = ground (arith, bit_xor_undo 32 count (to_unsigned key) fits)

-- The packet: the header, the payload, the padding that is sent, the flags and the tag.
abbrev pub packet : (ℕ → ℕ) → SrppMessage → List ℕ → List ℕ
packet first_rand msg sent_padding =
    (((filled_header first_rand msg.srpp_header ++ msg.encrypted_part.original_payload)
        ++ sent_padding)
      ++ flag_bytes msg.encrypted_part)
    ++ be32 msg.authentication_tag

-- A message whose fields fit, and whose payload holds no zero byte.
pub record IsSendable (msg : SrppMessage) : Type 0 where
  pub header : IsHeader msg.srpp_header
  pub fields : IsInRange msg.encrypted_part
  pub payload_text : All NonZero msg.encrypted_part.original_payload

module _ (first_rand : ℕ → ℕ) (key : ℤ) (msg : SrppMessage) (ok : IsSendable msg) where
  abbrev header : List ℕ
  header = filled_header first_rand msg.srpp_header

  abbrev payload : List ℕ
  payload = msg.encrypted_part.original_payload

  -- How many bytes the padding's part stores, and that one zero and 11 free bytes lie behind them.
  abbrev Padded : List ℕ → Type 0
  Padded sent =
      (tail : List ℕ)
      → length tail ≡ length sent + 11
      → (rest : List ℕ) × (length rest ≡ 11)
        × (put_padding msg (toggle_count key msg.srpp_header msg.encrypted_part.pad_count)
              ((header ++ payload) ++ 0 ∷ tail) (80 + length payload)
            ≡ some (((header ++ payload) ++ sent) ++ 0 ∷ rest, 80 + length payload + length sent))

  -- The sending, with the padding's part left open.
  send_with :
      (buff sent : List ℕ)
      → length buff ≡ 80 + length payload + length sent + 12
      → Padded sent
      → srpp_to_network first_rand key msg buff ≡ some (packet first_rand msg sent, msg)
  unfolding srpp_to_network
  send_with buff sent size padded = rw (header_bytes_lem first_rand msg.srpp_header ok.header) (
      rw (write_next [] buff header 0 refl (omega (arith, length_header))) (
        rw
          (strcpy_next header after_header payload 80 ok.payload_text (omega (arith, length_header))
            (omega (arith, length_after)))
          (rw (stored.2) (
            rw
              (toggle_count_undo key msg.srpp_header msg.encrypted_part.pad_count
                ok.fields.pad_count_word)
              (rw
                (write_next before_flags (0 ∷ stored.0) flags at (sym length_before)
                  (omega (arith, stored.1)))
                (rw
                  (write_next (before_flags ++ flags) free tag (at + 8) tag_at
                    (omega (arith, length_free)))
                  (rw (drop_all 4 free (omega (arith, length_free)), append-nil))))))))
    where
      flags : List ℕ
      flags = flag_bytes msg.encrypted_part

      tag : List ℕ
      tag = be32 msg.authentication_tag

      at : ℕ
      at = 80 + length payload + length sent

      length_header : length header ≡ 80
      length_header = length-filled_header first_rand msg.srpp_header

      after_header : List ℕ
      after_header = drop (length header) buff

      length_after : length after_header ≡ length payload + length sent + 12
      length_after = omega (arith, length-drop (length header) buff, length_header)

      after_payload : List ℕ
      after_payload = drop (suc (length payload)) after_header

      length_rest : length after_payload ≡ length sent + 11
      length_rest = omega (arith, length-drop (suc (length payload)) after_header, length_after)

      stored :
          (rest : List ℕ) × (length rest ≡ 11)
          × (put_padding msg
                (toggle_count key msg.srpp_header msg.encrypted_part.pad_count)
                ((header ++ payload) ++ 0 ∷ after_payload)
                (80 + length payload)
              ≡ some (((header ++ payload) ++ sent) ++ 0 ∷ rest, at))
      stored = padded after_payload length_rest

      before_flags : List ℕ
      before_flags = (header ++ payload) ++ sent

      length_before : length before_flags ≡ at
      length_before = omega (
        arith,
        length-append (header ++ payload) sent,
        length-append header payload,
        length_header,
      )

      free : List ℕ
      free = drop 8 (0 ∷ stored.0)

      length_free : length free ≡ 4
      length_free = omega (arith, length-drop 7 stored.0, stored.1)

      tag_at : at + 8 ≡ length (before_flags ++ flags)
      tag_at = omega (arith, length-append before_flags flags, length_before)

put_padding-media :
    (msg : SrppMessage) (count : ℕ) (buff : List ℕ) (at : ℕ)
    → msg.srpp_header.srpp_signalling ≡ 0
    → 0 < count
    → put_padding msg count buff at
      ≡ (strcpy buff at msg.encrypted_part.srpp_padding >>= λ b. some (b, at + count))
unfolding put_padding
put_padding-media msg count buff at media some_padding =
    rw (lt→ltb 0 count some_padding, (==_iff msg.srpp_header.srpp_signalling 0).1 media)

put_padding-signalling :
    (msg : SrppMessage) (count : ℕ) (buff : List ℕ) (at : ℕ)
    → 0 < msg.srpp_header.srpp_signalling
    → put_padding msg count buff at ≡ some (buff, at)
unfolding put_padding
put_padding-signalling msg count buff at signalling = ground arith

-- A media message whose count, once it is decrypted, is the length of its padding.
pub record IsMedia (key : ℤ) (msg : SrppMessage) : Type 0 where
  pub sendable : IsSendable msg
  pub media : msg.srpp_header.srpp_signalling ≡ 0
  pub padding_text : All NonZero msg.encrypted_part.srpp_padding
  pub counted :
      toggle_count key msg.srpp_header msg.encrypted_part.pad_count
      ≡ length msg.encrypted_part.srpp_padding

-- In an array of the size that `send_message` allocates, `srpp_to_network` of a media message with
-- padding stores the packet, whole, and leaves the message as it was.
pub srpp_to_network-media :
    (first_rand : ℕ → ℕ) (key : ℤ) (msg : SrppMessage) (buff : List ℕ)
    → IsMedia key msg
    → 0 < length msg.encrypted_part.srpp_padding
    → length buff
      ≡ 80
        + length msg.encrypted_part.original_payload
        + length msg.encrypted_part.srpp_padding
        + 12
    → srpp_to_network first_rand key msg buff
      ≡ some (packet first_rand msg msg.encrypted_part.srpp_padding, msg)
srpp_to_network-media first_rand key msg buff v padded size =
    send_with first_rand key msg v.sendable buff padding size stored
  where
    padding : List ℕ
    padding = msg.encrypted_part.srpp_padding

    before : List ℕ
    before = filled_header first_rand msg.srpp_header ++ msg.encrypted_part.original_payload

    length_before : 80 + length msg.encrypted_part.original_payload ≡ length before
    length_before = omega (
      arith,
      length-append (filled_header first_rand msg.srpp_header) msg.encrypted_part.original_payload,
      length-filled_header first_rand msg.srpp_header,
    )

    stored : Padded first_rand key msg v.sendable padding
    stored tail left = (
      drop (length padding) tail,
      omega (arith, length-drop (length padding) tail),
      rw v.counted (
          put_padding-media msg (length padding) (before ++ 0 ∷ tail)
            (80 + length msg.encrypted_part.original_payload) v.media padded
          ∙ rw (
              strcpy_next before (0 ∷ tail) padding
                (80 + length msg.encrypted_part.original_payload) v.padding_text length_before
                (omega arith))),
    )

-- Of a message with a signalling code, the padding is not sent and the count is not encrypted.
pub srpp_to_network-signalling :
    (first_rand : ℕ → ℕ) (key : ℤ) (msg : SrppMessage) (buff : List ℕ)
    → IsSendable msg
    → 0 < msg.srpp_header.srpp_signalling
    → length buff ≡ 80 + length msg.encrypted_part.original_payload + 12
    → srpp_to_network first_rand key msg buff ≡ some (packet first_rand msg [], msg)
srpp_to_network-signalling first_rand key msg buff v signalling size =
    send_with first_rand key msg v buff [] (omega arith) stored
  where
    before : List ℕ
    before = filled_header first_rand msg.srpp_header ++ msg.encrypted_part.original_payload

    stored : Padded first_rand key msg v []
    stored tail left = (
      tail,
      omega arith,
      put_padding-signalling msg _ (before ++ 0 ∷ tail) _ signalling ∙ rw (append-nil, add-zero),
    )
