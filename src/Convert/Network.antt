-- ===== src/Convert/Network.antt =====
-- libSRPP/include/rtp.hpp: the RTP header in memory and `rtp_to_network`.
use dionysius.Common.{
  ℕ, zero, suc, ◌+◌, ◌*◌, ◌/◌, ◌%◌, List, [], ◌∷◌, ◌++◌, length, drop, Option, none, ◌>>=◌, ◌≡◌,
  arith, Option-cases, inl, inr,
}
use dionysius.Machine.{
  le16, le32, load_le16, load_le32, ntohs, read, write, write-none, length-write, length-read,
}
use dionysius.Wire.{store_words}
use dionysius.Convert.{RtpHeader, RtpMessage}

-- `sizeof(RTP_Header)`.
abbrev pub rtp_header_size : ℕ
rtp_header_size = 72

-- The header in memory, the words as the host holds them.
pub rtp_header_bytes : RtpHeader → List ℕ
rtp_header_bytes h =
    le16 (h.cc + h.x * 16 + h.p * 32 + h.version * 64 + h.pt * 256 + h.m * 32768)
    ++ (le16 h.seq ++ (le32 h.ts ++ (le32 h.ssrc ++ store_words h.csrc)))

pub load_words : ℕ → List ℕ → List ℕ
load_words zero bytes = []
load_words (suc n) bytes = load_le32 0 bytes ∷ load_words n (drop 4 bytes)

-- A header that lies in memory.
pub load_rtp_header : List ℕ → RtpHeader
load_rtp_header bytes =
    let flags = load_le16 0 bytes in
    record {
      version = flags / 64 % 4;
      p = flags / 32 % 2;
      x = flags / 16 % 2;
      cc = flags % 16;
      m = flags / 32768 % 2;
      pt = flags / 256 % 128;
      seq = load_le16 2 bytes;
      ts = load_le32 4 bytes;
      ssrc = load_le32 8 bytes;
      csrc = load_words 15 (drop 12 bytes);
    }

-- `sizeof(RTP_Header) - 4*(15 - ntohs(cc))`.
abbrev pub header_part : ℕ → ℕ
header_part cc = 12 + 4 * ntohs cc

-- `rtp_to_network(rtp_buff, length)`: the whole header is stored, and `length` bytes of the payload
-- from where the sources end.
pub rtp_to_network : RtpMessage → ℕ → List ℕ → Option (List ℕ)
rtp_to_network message size rtp_buff = do
  with_header ← write rtp_buff 0 (rtp_header_bytes message.rtp_header)
  bytes ← read message.payload 0 size
  write with_header (header_part message.rtp_header.cc) bytes

-- The array that `process_packet` has for an RTP packet with no sources is 2 bytes too short: the
-- payload is copied with the size of the whole packet, so that the copy is out of bounds.
pub rtp_to_network-overruns :
    (message : RtpMessage) (size : ℕ) (rtp_buff : List ℕ)
    → message.rtp_header.cc ≡ 0
    → length rtp_buff ≡ size + 10
    → rtp_to_network message size rtp_buff ≡ none
unfolding rtp_to_network
rtp_to_network-overruns message size rtp_buff no_sources room =
    elim (Option-cases (write rtp_buff 0 (rtp_header_bytes message.rtp_header))) [
      | inl past ↦ rw past
      | inr (b, stored) ↦ rw stored (elim (Option-cases (read message.payload 0 size)) [
        | inl past ↦ rw past
        | inr (bytes, loaded) ↦ rw loaded (
            write-none b (header_part message.rtp_header.cc) bytes (
              omega (
                arith,
                no_sources,
                room,
                length-read message.payload 0 size loaded,
                length-write rtp_buff 0 (rtp_header_bytes message.rtp_header) stored,
              )))
      ])
    ]
