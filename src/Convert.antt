-- ===== src/Convert.antt =====
-- SRPP_functions.cpp and rtp.hpp: RTP packets to SRPP messages and back.
pub mod Back
pub mod RoundTrip
pub mod Sources
pub mod Network
use dionysius.Common.{
  ℕ, zero, suc, ◌+◌, ◌-◌, ◌%◌, ◌^◌, List, [], ◌∷◌, ◌++◌, length, get_elem?, set, take, ltb, Option,
  none, some, Bool, true, false, if◌then◌else◌, ◌==◌, leb, is_negative, ℤ, pos, negsuc,
}
use dionysius.Machine.{ntohs, ntohl, read, c_str}
use dionysius.Message.{SrppHeader, SrppEncrypted, SrppMessage}
use dionysius.World.{
  World, M, pure, ◌>>=◌, ◌>>◌, gets, modify, lift, fault, ask, create_srpp_message,
}
use dionysius.Transport.{Library, encrypt_with_session, decrypt_with_session, stale_bytes}
use dionysius.Padding.Cache.{unpad}
use dionysius.Padding.Algorithms.{pad}

pub record RtpHeader : Type 0 where
  pub version : ℕ
  pub p : ℕ
  pub x : ℕ
  pub cc : ℕ
  pub m : ℕ
  pub pt : ℕ
  pub seq : ℕ
  pub ts : ℕ
  pub ssrc : ℕ
  pub csrc : List ℕ

-- The payload is an array of MAXPAYLOADSIZE bytes.
pub record RtpMessage : Type 0 where
  pub rtp_header : RtpHeader
  pub payload : List ℕ

abbrev pub max_payload_size : ℕ
max_payload_size = 1464

-- `for (i = 0; i < ntohs(cc); i++) to[i] = from[i]` on arrays of 15, each source through a function;
-- an index past either array is out of bounds.
pub copy_sources : (ℕ → ℕ) → ℕ → ℕ → List ℕ → List ℕ → Option (List ℕ)
copy_sources f zero i from to = some to
copy_sources f (suc rounds) i from to =
    let rest = λ (w : ℕ). copy_sources f rounds (i + 1) from (set to i (f w)) in
    elim (get_elem? from i) [ none ↦ none | some w ↦ if ltb i (length to) then rest w else none ]

-- Words that nothing has set.
pub stale_words : ℕ → M (List ℕ)
stale_words zero = pure []
stale_words (suc n) = do word ← ask; rest ← stale_words n; pure ((word % 2 ^ 32) ∷ rest)

-- The header that the constructor `RTPMessage()` leaves.
abbrev pub new_rtp_header : ℕ → List ℕ → RtpHeader
new_rtp_header number csrc = record {
  version = 2;
  p = 1;
  x = 0;
  cc = 15;
  m = 0;
  pt = 0;
  seq = number % 2 ^ 16;
  ts = 0;
  ssrc = 0;
  csrc = csrc;
}

-- `create_rtp_message(data)`, with the constructor `RTPMessage()`.
pub create_rtp_message : List ℕ → M RtpMessage
create_rtp_message bytes = do
  number ← gets (λ w. w.rtp_sequence_no + 1)
  modify (λ w. record w { rtp_sequence_no = number })
  csrc ← stale_words 15
  rest ← stale_bytes (max_payload_size - (length bytes + 1))
  if ltb (length bytes) max_payload_size
      then pure (record { rtp_header = new_rtp_header number csrc; payload = bytes ++ 0 ∷ rest })
      else fault

-- The header that `srpp_to_rtp` fills in, but for the sources.
abbrev pub restored_header : SrppMessage → List ℕ → RtpHeader
restored_header msg csrc =
    let h = msg.srpp_header in
    record {
      version = h.version;
      p = msg.encrypted_part.original_padding_bit;
      x = h.x;
      cc = h.cc;
      m = h.m;
      pt = h.pt;
      seq = msg.encrypted_part.original_seq_number;
      ts = h.ts;
      ssrc = h.ssrc;
      csrc = csrc;
    }

-- `unpad` returns -1 for a dummy and else 1. `srpp_to_rtp`, which decrypts and unpads the message in
-- place; the constructor runs once for the variable and once in `create_rtp_message`.
pub srpp_to_rtp : SrppMessage → M (RtpMessage × SrppMessage)
srpp_to_rtp msg = do
  plain ← decrypt_with_session msg
  modify (λ w. record w { rtp_sequence_no = w.rtp_sequence_no + 1 })
  let (status, bare) = unpad plain
  let bytes = if is_negative status then [] else bare.encrypted_part.original_payload
  rtp ← create_rtp_message bytes
  csrc ← lift (
      copy_sources (λ w. w) (ntohs bare.srpp_header.cc) 0 bare.srpp_header.csrc rtp.rtp_header.csrc)
  pure (record { rtp_header = restored_header bare csrc; payload = rtp.payload }, bare)

-- `srpp_to_srtp(msg, buff, length)`, which decrypts and unpads the message in place: -1 for a dummy;
-- else `length` bytes of the payload, out of bounds past it, are copied.
unfoldable pub srpp_to_srtp : SrppMessage → ℕ → M (ℤ × (List ℕ × SrppMessage))
srpp_to_srtp msg size = do
  plain ← decrypt_with_session msg
  let (status, bare) = unpad plain
  if is_negative status then pure (negsuc 0, ([], bare)) else (do
    bytes ← lift (read bare.encrypted_part.original_payload 0 size)
    pure (pos 0, (bytes, bare)))

-- `create_and_encrypt_srpp`.
unfoldable pub create_and_encrypt_srpp : List ℕ → M SrppMessage
create_and_encrypt_srpp bytes = do msg ← create_srpp_message bytes; encrypt_with_session msg

-- `rtp_to_srpp(header, buff, length)`: the fields of the RTP header, in the network's order, and the
-- payload; the message is padded, its count is set to the size of the padding, and it is encrypted.
pub rtp_to_srpp : Library → RtpHeader → List ℕ → M SrppMessage
rtp_to_srpp lib rtp bytes = do
  msg ← create_srpp_message bytes
  csrc ←
      lift (copy_sources (λ w. ntohs (w % 2 ^ 16)) (ntohs rtp.cc) 0 rtp.csrc msg.srpp_header.csrc)
  number ← gets (λ w. w.last_sequence_no)
  padded ← pad lib (record msg {
    srpp_header = record msg.srpp_header {
      version = rtp.version;
      cc = rtp.cc;
      x = rtp.x;
      m = rtp.m;
      pt = rtp.pt;
      ts = ntohl rtp.ts;
      ssrc = ntohl rtp.ssrc;
      csrc = csrc;
      srpp_signalling = 0;
      seq = number % 2 ^ 16;
    };
    encrypted_part = record msg.encrypted_part {
      original_padding_bit = rtp.p;
      original_seq_number = ntohs rtp.seq;
      dummy_flag = 0;
    };
  })
  encrypt_with_session (record padded {
    encrypted_part = record padded.encrypted_part {
      pad_count = length padded.encrypted_part.srpp_padding;
    };
  })

-- `rtp_to_srpp(RTPMessage*)`: the payload ends at the first zero, and the fields are taken as they
-- are.
unfoldable pub rtp_message_to_srpp : Library → RtpMessage → M SrppMessage
rtp_message_to_srpp lib message = do
  msg ← create_srpp_message (c_str message.payload)
  let rtp = message.rtp_header
  csrc ← lift (copy_sources (λ w. w) (ntohs rtp.cc) 0 rtp.csrc msg.srpp_header.csrc)
  padded ← pad lib (record msg {
    srpp_header = record msg.srpp_header {
      version = rtp.version;
      cc = rtp.cc;
      x = rtp.x;
      m = rtp.m;
      pt = rtp.pt;
      ts = rtp.ts;
      ssrc = rtp.ssrc;
      csrc = csrc;
      srpp_signalling = 0;
    };
    encrypted_part = record msg.encrypted_part {
      original_padding_bit = rtp.p;
      original_seq_number = rtp.seq;
      dummy_flag = 0;
    };
  })
  encrypt_with_session (record padded {
    encrypted_part = record padded.encrypted_part {
      pad_count = length padded.encrypted_part.srpp_padding;
    };
  })
