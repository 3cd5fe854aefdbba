-- ===== src/Discovery/Sending/Checked.antt =====
-- The IP packets that sqrkal_discovery.cpp sends, before and after `form_checksums`.
use dionysius.Common.{
  [], ℕ, ◌+◌, ◌-◌, ◌*◌, ◌%◌, ◌<◌, ◌≤◌, List, ◌∷◌, ◌++◌, length, take, drop, drop-drop, All, some,
  get_or, append-nil, ltb, false, ◌≡◌, ap, sym, ◌∙◌, arith,
}
use dionysius.Machine.{
  le16, be16, patched, length-patched, All-patched, get_or-patched, get_or-take,
}
use dionysius.Message.{IsByte}
use dionysius.Discovery.Checksum.{in_cksum, header_words, form_checksums}
use dionysius.Discovery.Checksum.Header.{done, form_checksums-done, in_cksum-done}
use dionysius.Discovery.Checksum.Payload.{
  length-done, drop-done, payload-done, All-done, header_words-done,
}

-- A packet whose header has no options, with room for the header of UDP.
pub record IsPacket (buff : List ℕ) : Type 0 where
  pub bytes : All IsByte buff
  pub no_options : header_words buff ≡ 5
  pub room : 28 ≤ length buff

-- A packet after a write into its headers.
pub rewritten-IsPacket :
    (buff : List ℕ) (off : ℕ) (bs : List ℕ)
    → IsPacket buff
    → All IsByte bs
    → 0 < off
    → off + length bs ≤ 28
    → 0 < length bs
    → IsPacket (patched buff off bs)
rewritten-IsPacket buff off bs p are_bytes h k some_bytes = record {
  bytes = All-patched buff off bs (omega (arith, p.room)) IsByte p.bytes are_bytes;
  no_options =
      ap (λ b. b % 16) (get_or-patched buff off bs 0 h (omega (arith, p.room))) ∙ p.no_options;
  room = omega (arith, p.room, length-patched buff off bs (omega (arith, p.room)));
}

pub patched-IsPacket :
    (buff : List ℕ) (off w : ℕ)
    → IsPacket buff
    → 0 < off
    → off ≤ 18
    → IsPacket (patched buff off (le16 w))
patched-IsPacket buff off w p h k =
    rewritten-IsPacket buff off (le16 w) p (omega arith, (omega arith, tt)) h (omega arith)
      (omega arith)

pub patched_be-IsPacket :
    (buff : List ℕ) (off w : ℕ)
    → IsPacket buff
    → 0 < off
    → off ≤ 18
    → IsPacket (patched buff off (be16 w))
patched_be-IsPacket buff off w p h k =
    rewritten-IsPacket buff off (be16 w) p (omega arith, (omega arith, tt)) h (omega arith)
      (omega arith)

-- A packet with its payload, but for the two bytes where UDP has its checksum.
abbrev pub cleared : List ℕ → List ℕ
cleared payload = take 6 payload ++ (0 ∷ 0 ∷ drop 8 payload)

-- A packet that was checked.
pub record Checked (buff : List ℕ) : Type 0 where
  pub packet : List ℕ
  pub formed : form_checksums buff ≡ some packet
  pub verifies : in_cksum (take 20 packet) ≡ 0
  pub payload : drop 20 packet ≡ cleared (drop 20 buff)
  pub behind : (m : ℕ) → 28 ≤ m → drop m packet ≡ drop m buff
  pub is_packet : IsPacket packet
  pub size : length packet ≡ length buff

pub check : (buff : List ℕ) → IsPacket buff → Checked buff
check buff p = record {
  packet = done buff p.bytes options room;
  formed = form_checksums-done buff p.bytes options room;
  verifies = in_cksum-done buff p.bytes options room;
  payload = payload-done buff p.bytes options room ∙ λ i.
      (take ((let e : 4 * header_words buff - 14 ≡ 6 = omega (arith, p.no_options) in e) i)
          (drop 20 buff)
        ++ 0 ∷ 0 ∷ rest i);
  behind = λ m h. drop-done buff p.bytes options room m (omega (arith, p.no_options));
  is_packet = record {
    bytes = All-done buff p.bytes options room;
    no_options = header_words-done buff p.bytes options room ∙ p.no_options;
    room = omega (arith, p.room, length-done buff p.bytes options room);
  };
  size = length-done buff p.bytes options room;
}
  where
    rest : drop (4 * header_words buff + 8) buff ≡ drop 8 (drop 20 buff)
    rest =
        ap (λ k. drop k buff)
          (let e : 4 * header_words buff + 8 ≡ 28 = omega (arith, p.no_options) in e)
        ∙ sym (drop-drop 8 20 buff)

    options : 5 ≤ header_words buff
    options = omega (arith, p.no_options)

    room : 4 * header_words buff + 8 ≤ length buff
    room = omega (arith, p.no_options, p.room)

-- Behind a header without options comes that of UDP.
pub header_offset : (buff : List ℕ) → IsPacket buff → 4 * header_words (take 20 buff) ≡ 20
header_offset buff p =
    ap (λ b. 4 * (b % 16))
      (ap (λ t. get_or t 0 0) (sym (append-nil (take 20 buff)))
        ∙ get_or-take buff [] 20 0 (omega arith) (omega (arith, p.room)))
    ∙ omega (arith, p.no_options)

pub long_enough : (n : ℕ) → 28 ≤ n → ltb n 28 ≡ false
long_enough n h = ground (arith, h)
