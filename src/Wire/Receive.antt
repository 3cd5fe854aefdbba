-- ===== src/Wire/Receive.antt =====
-- What `network_to_srpp` of SRPPMessage.hpp makes of a packet that `srpp_to_network` stored.
use native.Mathlib.Nat.{add-zero}
use dionysius.Common.{
  ℕ, ◌+◌, ◌-◌, ◌/◌, ◌%◌, ◌^◌, ◌<◌, ◌≤◌, bit_xor, List, [], ◌++◌, some, length, length-append,
  append_assoc, ◌≡◌, refl, sym, ◌∙◌, arith, ltb, lt→ltb, ==_iff, ◌==◌, bit_xor_undo, bit_xor-zero,
  ℤ, pos, negsuc, false, if◌then◌else◌, ◌&&◌,
}
use dionysius.Machine.{be32, to_unsigned, load_be32, load_le16, load_le32, read_part, distance_lem}
use dionysius.Message.{SrppHeader, SrppEncrypted, SrppMessage, IsInRange}
use dionysius.Wire.{
  flag_bytes, toggle_count, load_flags, take_payload, strip_padding, network_to_srpp,
}
use dionysius.Wire.Layout.{fill, filled_header, length-filled_header, load-filled_header}
use dionysius.Wire.Send.{packet, IsSendable}

load_flags-flag_bytes :
    (e r : SrppEncrypted)
    → IsInRange e
    → load_flags (flag_bytes e) r ≡ record r {
      pad_count = e.pad_count;
      dummy_flag = e.dummy_flag;
      original_padding_bit = e.original_padding_bit;
      original_seq_number = e.original_seq_number;
    }
unfolding load_flags
load_flags-flag_bytes e r v = λ i. record r {
  pad_count = (let q : load_le32 0 (flag_bytes e) ≡ e.pad_count = omega arith in q) i;
  dummy_flag = (let q : load_le16 4 (flag_bytes e) % 32768 ≡ e.dummy_flag = omega arith in q) i;
  original_padding_bit =
      (let q : load_le16 4 (flag_bytes e) / 32768 % 2 ≡ e.original_padding_bit = omega arith in q)
        i;
  original_seq_number =
      (let q : load_le16 6 (flag_bytes e) ≡ e.original_seq_number = omega arith in q) i;
}

toggle_count-csrc :
    (key : ℤ) (h : SrppHeader) (ws : List ℕ) (count : ℕ)
    → toggle_count key (record h { csrc = ws }) count ≡ toggle_count key h count
unfolding toggle_count
toggle_count-csrc key h ws count = refl

-- The receiver's message, with what a packet of `msg` brings.
abbrev pub received : (ℕ → ℕ) → SrppMessage → SrppMessage → List ℕ → ℕ → SrppMessage
received first_rand msg blank payload count = record {
  srpp_header = record msg.srpp_header { csrc = fill first_rand msg.srpp_header };
  encrypted_part = record blank.encrypted_part {
    original_payload = payload;
    pad_count = count;
    dummy_flag = msg.encrypted_part.dummy_flag;
    original_padding_bit = msg.encrypted_part.original_padding_bit;
    original_seq_number = msg.encrypted_part.original_seq_number;
  };
  authentication_tag = msg.authentication_tag;
}

module _ (first_rand : ℕ → ℕ) (msg blank : SrppMessage) (sent junk : List ℕ) (ok : IsSendable msg)
    (tag_word : msg.authentication_tag < 2 ^ 32) where
  abbrev header : List ℕ
  header = filled_header first_rand msg.srpp_header

  abbrev payload : List ℕ
  payload = msg.encrypted_part.original_payload

  abbrev flags : List ℕ
  flags = flag_bytes msg.encrypted_part

  abbrev tag : List ℕ
  tag = be32 msg.authentication_tag

  abbrev buff : List ℕ
  buff = packet first_rand msg sent ++ junk

  abbrev bytes : ℕ
  bytes = 80 + length payload + length sent + 12

  take_payload_lem :
      (m : SrppMessage) (kept rest : List ℕ) (until : ℕ)
      → buff ≡ header ++ (kept ++ rest)
      → until ≡ 80 + length kept
      → take_payload buff until m
        ≡ some (
          pos 0,
          record m { encrypted_part = record m.encrypted_part { original_payload = kept } },
        )
  unfolding take_payload
  take_payload_lem m kept rest until shape e = rw e (
      rw (distance_lem 80 (80 + length kept) (omega arith)) (
        rw (
          read_part header kept rest 80 (80 + length kept - 80) shape
            (sym (length-filled_header first_rand msg.srpp_header)) (omega arith))))

  right_nested : buff ≡ header ++ (payload ++ (sent ++ (flags ++ (tag ++ junk))))
  right_nested = simp append_assoc

  strip_media :
      (key : ℤ) (loaded : List ℕ) (count : ℕ)
      → msg.srpp_header.srpp_signalling ≡ 0
      → count ≡ length sent
      → 0 < count
      → strip_padding buff bytes key (received first_rand msg blank loaded count)
        ≡ some (
          pos 0,
          received first_rand msg blank payload (bit_xor count (to_unsigned key) % 2 ^ 32),
        )
  unfolding strip_padding
  strip_media key loaded count media counted padded =
      rw (lt→ltb 0 count padded, (==_iff msg.srpp_header.srpp_signalling 0).1 media)
        (rw (distance_lem (12 + count) bytes (omega arith)) (
          take_payload_lem
            (received first_rand msg blank loaded (bit_xor count (to_unsigned key) % 2 ^ 32))
            payload (sent ++ (flags ++ (tag ++ junk))) (bytes - (12 + count)) right_nested
            (omega arith)))

  strip_signalling :
      (key : ℤ) (loaded : List ℕ) (count : ℕ)
      → 0 < msg.srpp_header.srpp_signalling
      → strip_padding buff bytes key (received first_rand msg blank loaded count)
        ≡ some (pos 0, received first_rand msg blank (payload ++ (sent ++ flags)) 0)
  unfolding strip_padding
  strip_signalling key loaded count signalling = rw (not_media) (
      rw (distance_lem 4 bytes (omega arith)) (
        take_payload_lem (received first_rand msg blank loaded 0) (payload ++ (sent ++ flags))
          (tag ++ junk) (bytes - 4) (right_nested ∙ simp append_assoc)
          (omega (arith, length-append payload (sent ++ flags), length-append sent flags))))
    where
      not_media : (ltb 0 count && msg.srpp_header.srpp_signalling == 0) ≡ false
      not_media = ground arith

  -- Up to the test of the count, the packet's fields come back, the count toggled.
  receive_fields :
      (key : ℤ)
      → network_to_srpp buff bytes key blank ≡ (
          let count = toggle_count key msg.srpp_header msg.encrypted_part.pad_count in
          let loaded = received first_rand msg blank blank.encrypted_part.original_payload count in
          if ltb 1500 count then some (negsuc 0, loaded) else strip_padding buff bytes key loaded)
  unfolding network_to_srpp
  receive_fields key =
      rw
        (read_part [] header (payload ++ (sent ++ (flags ++ (tag ++ junk)))) 0 80 right_nested refl
          (sym length_header))
        (rw (load-filled_header first_rand msg.srpp_header ok.header) (
          rw (distance_lem 4 bytes (omega arith)) (
            rw
              (read_part (((header ++ payload) ++ sent) ++ flags) tag junk (bytes - 4) 4 before_tag
                at_tag refl)
              (rw (distance_lem 8 (bytes - 4) (omega arith)) (
                rw
                  (read_part ((header ++ payload) ++ sent) flags (tag ++ junk) (bytes - 4 - 8) 8
                    before_flags at_flags refl)
                  (rw (load_flags-flag_bytes msg.encrypted_part blank.encrypted_part ok.fields) (
                    rw (
                      toggle_count-csrc key msg.srpp_header (fill first_rand msg.srpp_header)
                          msg.encrypted_part.pad_count,
                      tag_lem,
                    ))))))))
    where
      length_header : length header ≡ 80
      length_header = length-filled_header first_rand msg.srpp_header

      before_tag : buff ≡ (((header ++ payload) ++ sent) ++ flags) ++ (tag ++ junk)
      before_tag = append_assoc (((header ++ payload) ++ sent) ++ flags) tag junk

      before_flags : buff ≡ ((header ++ payload) ++ sent) ++ (flags ++ (tag ++ junk))
      before_flags = simp append_assoc

      length_stored : length ((header ++ payload) ++ sent) ≡ 80 + length payload + length sent
      length_stored = omega (
        arith,
        length-append (header ++ payload) sent,
        length-append header payload,
        length_header,
      )

      at_tag : bytes - 4 ≡ length (((header ++ payload) ++ sent) ++ flags)
      at_tag = omega (arith, length-append ((header ++ payload) ++ sent) flags, length_stored)

      at_flags : bytes - 4 - 8 ≡ length ((header ++ payload) ++ sent)
      at_flags = omega (arith, length_stored)

      tag_lem : load_be32 0 tag ≡ msg.authentication_tag
      tag_lem = omega arith

not_ltb : (a b : ℕ) → b ≤ a → ltb a b ≡ false
not_ltb a b h = ground arith

untoggled :
    (key : ℤ) (h : SrppHeader) (count : ℕ)
    → 0 < h.srpp_signalling
    → toggle_count key h count ≡ count
unfolding toggle_count
untoggled key h count signalling = ground arith

-- The key that the receiver toggles the count with again, unconditionally.
toggled_back :
    (k : ℕ) (h : SrppHeader) (count : ℕ)
    → h.srpp_signalling ≡ 0
    → count < 2 ^ 32
    → bit_xor (toggle_count (pos k) h count) (to_unsigned (pos k)) % 2 ^ 32 ≡ count
unfolding toggle_count
toggled_back k h count media fits =
    ground (arith, bit_xor_undo 32 count (k % 2 ^ 32) fits, bit_xor-zero count)

-- Of a media packet with padding, sent under a key that is no negative `int`, the receiver takes
-- the whole header but the sources, the payload without the padding, the flags and the tag. The
-- count is left encrypted, for `decrypt`.
pub network_to_srpp-media :
    (first_rand : ℕ → ℕ) (k : ℕ) (msg blank : SrppMessage) (sent junk : List ℕ)
    → IsSendable msg
    → msg.authentication_tag < 2 ^ 32
    → msg.srpp_header.srpp_signalling ≡ 0
    → toggle_count (pos k) msg.srpp_header msg.encrypted_part.pad_count ≡ length sent
    → 0 < length sent
    → length sent ≤ 1500
    → network_to_srpp
        (packet first_rand msg sent ++ junk)
        (80 + length msg.encrypted_part.original_payload + length sent + 12)
        (pos k)
        blank
      ≡ some (
        pos 0,
        received first_rand msg blank msg.encrypted_part.original_payload
            msg.encrypted_part.pad_count,
      )
network_to_srpp-media first_rand k msg blank sent junk ok tag_word media counted padded short =
    receive_fields first_rand msg blank sent junk ok tag_word (pos k)
    ∙ rw (not_ltb 1500 count (omega arith)) (
        strip_media first_rand msg blank sent junk ok tag_word (pos k)
          blank.encrypted_part.original_payload count media counted (omega arith)
        ∙ rw (
            toggled_back k msg.srpp_header msg.encrypted_part.pad_count media
              ok.fields.pad_count_word))
  where
    count : ℕ
    count = toggle_count (pos k) msg.srpp_header msg.encrypted_part.pad_count

-- Of a packet with a signalling code, the receiver takes the 8 bytes of the flags for the end of
-- the payload.
pub network_to_srpp-signalling :
    (first_rand : ℕ → ℕ) (key : ℤ) (msg blank : SrppMessage) (junk : List ℕ)
    → IsSendable msg
    → msg.authentication_tag < 2 ^ 32
    → 0 < msg.srpp_header.srpp_signalling
    → msg.encrypted_part.pad_count ≤ 1500
    → network_to_srpp
        (packet first_rand msg [] ++ junk)
        (80 + length msg.encrypted_part.original_payload + 12)
        key
        blank
      ≡ some (
        pos 0,
        received first_rand msg blank
            (msg.encrypted_part.original_payload ++ flag_bytes msg.encrypted_part)
            0,
      )
network_to_srpp-signalling first_rand key msg blank junk ok tag_word signalling short =
    rw (← add-zero (80 + length msg.encrypted_part.original_payload)) (
      receive_fields first_rand msg blank [] junk ok tag_word key
      ∙ rw
          (not_ltb 1500 count
            (omega (arith, untoggled key msg.srpp_header msg.encrypted_part.pad_count signalling)))
          (strip_signalling first_rand msg blank [] junk ok tag_word key
            blank.encrypted_part.original_payload count signalling))
  where
    count : ℕ
    count = toggle_count key msg.srpp_header msg.encrypted_part.pad_count
