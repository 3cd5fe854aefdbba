-- ===== src/Convert/RoundTrip.antt =====
-- An RTP packet that `rtp_to_srpp` of SRPP_functions.cpp converts, and `srpp_to_rtp` converts back.
use dionysius.Common.{
  ◌≤◌, ℕ, ◌+◌, ◌%◌, ◌^◌, ◌<◌, List, ◌∷◌, ◌++◌, length, All, some, pos, ◌≡◌, refl, ap, ◌∙◌, sym,
  arith,
}
use dionysius.Machine.{ntohs, ntohl}
use dionysius.Message.{SrppMessage, IsByte, IsInRange, encrypt_srpp}
use dionysius.World.{World, pure, lift, srpp_rand, create_srpp_message}
use dionysius.World.Creation.{created, created_message, create_srpp_message_lem}
use dionysius.World.Returns.{Returns, Returns-bind, Returns-known, Returns-gets, srpp_rand-returns}
use dionysius.Transport.{Library, encrypt_with_session}
use dionysius.Padding.Filling.{IsFilled}
use dionysius.Padding.Sizes.{IsSmall}
use dionysius.Padding.Algorithms.{pad}
use dionysius.Padding.Padded.{IsPadded, IsReady, pad-IsPadded}
use dionysius.Convert.{
  RtpHeader, RtpMessage, max_payload_size, copy_sources, srpp_to_rtp, rtp_to_srpp,
}
use dionysius.Convert.Back.{srpp_to_rtp-encrypt_srpp}

-- The SRPP message before it is padded.
unpadded : RtpHeader → List ℕ → World → SrppMessage
unpadded rtp bytes w =
    let msg = created_message bytes w in
    record msg {
      srpp_header = record msg.srpp_header {
        version = rtp.version;
        cc = rtp.cc;
        x = rtp.x;
        m = rtp.m;
        pt = rtp.pt;
        ts = ntohl rtp.ts;
        ssrc = ntohl rtp.ssrc;
        srpp_signalling = 0;
        seq = (w.last_sequence_no + 1) % 2 ^ 16;
      };
      encrypted_part = record msg.encrypted_part {
        original_padding_bit = rtp.p;
        original_seq_number = ntohs rtp.seq;
        dummy_flag = 0;
      };
    }

-- The padded message with the count of its padding.
abbrev counted : List ℕ → SrppMessage → SrppMessage
counted padding msg = record msg {
  encrypted_part = record msg.encrypted_part {
    srpp_padding = padding;
    pad_count = length padding;
    dummy_flag = 0;
  };
}

module _ (lib : Library) (rtp : RtpHeader) (bytes : List ℕ) (w : World) (bare : rtp.cc ≡ 0)
    (size : length w.padding.dummy_cache ≡ 100) (filled : IsFilled w.padding.dummy_cache)
    (small : IsSmall w) (short : length bytes < max_payload_size) where
  Converted : SrppMessage → World → Type 0
  Converted sent u =
      (padding : List ℕ) × (noise : ℕ) × (sent
        ≡ encrypt_srpp noise w.session.encryption_key (counted padding (unpadded rtp bytes w)))
      × All IsByte padding
      × (length padding ≤ 10)
      × IsReady w u

  rtp_to_srpp-returns : Returns (rtp_to_srpp lib rtp bytes w) Converted
  unfolding rtp_to_srpp encrypt_with_session pure lift copy_sources unpadded Converted
  rtp_to_srpp-returns =
      Returns-known (create_srpp_message bytes) _ (create_srpp_message_lem bytes w) (
        Returns-known (lift _) _ copied (
          Returns-gets _ _ (
            Returns-bind _ (pad lib (unpadded rtp bytes w)) _ padded_message (λ padded u k.
              Returns-bind (λ noise x. IsReady w x) (srpp_rand 0 (pos 13)) _ (drawn u k.0)
                (λ noise x q. Returns-gets _ _ (
                  _,
                  x,
                  refl,
                  (
                    k.1.0,
                    noise,
                    (λ i. encrypt_srpp noise (q.0 i) (recount (k.1.2 i))),
                    k.1.3,
                    k.1.4,
                    q,
                  ),
                ))))))
    where
      padded_message :
          Returns
            (pad lib (unpadded rtp bytes w) (created w))
            (λ out u. IsReady w u × IsPadded (unpadded rtp bytes w) out)
      padded_message =
          let r = pad-IsPadded lib (unpadded rtp bytes w) (created w) small size filled in
          (r.0, r.1, r.2, (r.3, r.4))

      recount : SrppMessage → SrppMessage
      recount padded = record padded {
        encrypted_part = record padded.encrypted_part {
          pad_count = length padded.encrypted_part.srpp_padding;
        };
      }

      copied :
          lift
            (copy_sources
              (λ x. ntohs (x % 2 ^ 16))
              (ntohs rtp.cc)
              0
              rtp.csrc
              (created_message bytes w).srpp_header.csrc)
            (created w)
          ≡ some ((created_message bytes w).srpp_header.csrc, created w)
      copied =
          ap
            (λ n.
              lift
                (copy_sources (λ x. ntohs (x % 2 ^ 16)) (ntohs n) 0 rtp.csrc
                  (created_message bytes w).srpp_header.csrc)
                (created w))
            bare

      drawn : (u : World) → IsReady w u → Returns (srpp_rand 0 (pos 13) u) (λ noise x. IsReady w x)
      drawn u h =
          let r = srpp_rand-returns (IsReady w) (λ x f k. k) 0 (pos 13) u h in
          (r.0, r.1, r.2, r.3.0)

-- The header of the packet that comes back: its words in the host's order.
abbrev pub in_host_order : RtpHeader → List ℕ → RtpHeader
in_host_order rtp csrc = record rtp {
  seq = ntohs rtp.seq;
  ts = ntohl rtp.ts;
  ssrc = ntohl rtp.ssrc;
  csrc = csrc;
}

-- Under the small perturbation or the burst padding, whatever the other options, `rtp_to_srpp` converts
-- every RTP packet without a contributing source, with a padding bit below 2 and with fewer than 1464
-- bytes, and from its message an end with the same key gets the packet back by `srpp_to_rtp`: the bytes
-- with a zero behind them in the array of 1464, and the fields of the header, with the sequence number,
-- the timestamp and the source in the host's order. The condition is that of the array of 100 dummies all
-- but the last have a payload; the state after the conversion meets it again, and the key and the option
-- are the same.
pub srpp_to_rtp-rtp_to_srpp :
    (lib : Library) (rtp : RtpHeader) (bytes : List ℕ) (w v : World)
    → IsSmall w
    → length w.padding.dummy_cache ≡ 100
    → IsFilled w.padding.dummy_cache
    → rtp.cc ≡ 0
    → rtp.p < 2
    → All IsByte bytes
    → length bytes < max_payload_size
    → v.session.encryption_key ≡ w.session.encryption_key
    → (sent : SrppMessage) × (w' : World) × (rtp_to_srpp lib rtp bytes w ≡ some (sent, w'))
      × IsReady w w'
      × ((back : RtpMessage) × (csrc rest : List ℕ) × (out : SrppMessage) × (v' : World)
          × (srpp_to_rtp sent v ≡ some ((back, out), v'))
          × (back.rtp_header ≡ in_host_order rtp csrc)
          × (back.payload ≡ bytes ++ 0 ∷ rest)
          × (length back.payload ≡ max_payload_size))
unfolding Converted unpadded
srpp_to_rtp-rtp_to_srpp lib rtp bytes w v small size filled bare bit are_bytes short same =
    let made = rtp_to_srpp-returns lib rtp bytes w bare size filled small short in
    let fits : IsInRange (counted made.3.0 (unpadded rtp bytes w)).encrypted_part = record {
      payload_bytes = are_bytes;
      padding_bytes = made.3.3;
      pad_count_word = omega (arith, made.3.4);
      padding_bit = bit;
      flag_word = omega arith;
      seq_word = omega arith;
    } in
    let msg = counted made.3.0 (unpadded rtp bytes w) in
    let back = srpp_to_rtp-encrypt_srpp made.3.1 msg v fits bare (omega arith) short in
    (
      made.0,
      made.1,
      made.2,
      made.3.5,
      (
        back.0,
        back.1,
        back.2,
        back.3,
        back.4,
        ap (λ m. srpp_to_rtp m v) (made.3.2 ∙ ap (λ key. encrypt_srpp made.3.1 key msg) (sym same))
            ∙ back.5,
        back.6,
        back.7,
        back.8,
      ),
    )
