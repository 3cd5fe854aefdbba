-- ===== src/Tests/Convert.antt =====
-- Conversions between RTP and SRPP on concrete messages.
use dionysius.Common.{ℕ, List, [], ◌∷◌, ◌++◌, length, none, some, ◌≡◌, refl, arith}
use dionysius.Message.{SrppMessage, no_csrc, encrypt_srpp}
use dionysius.World.{World}
use dionysius.Convert.{
  RtpHeader, RtpMessage, max_payload_size, restored_header, srpp_to_rtp, rtp_to_srpp,
}
use dionysius.Padding.Padded.{IsReady}
use dionysius.Convert.RoundTrip.{in_host_order, srpp_to_rtp-rtp_to_srpp}
use dionysius.Convert.Back.{srpp_to_rtp-encrypt_srpp}
use dionysius.Convert.Sources.{rtp_to_srpp-overruns}
use dionysius.Tests.Data.{
  some_library, some_world, some_world-IsFilled, media_message, media_part-IsInRange,
}

srpp_to_rtp-encrypt_srpp_example :
    (rtp : RtpMessage) × (csrc rest : List ℕ) × (out : SrppMessage) × (w' : World) × (srpp_to_rtp
        (encrypt_srpp 6 1655 media_message)
        some_world
      ≡ some ((rtp, out), w'))
    × (rtp.rtp_header ≡ restored_header media_message csrc)
    × (rtp.payload ≡ (72 ∷ 105 ∷ 33 ∷ []) ++ 0 ∷ rest)
    × (length rtp.payload ≡ max_payload_size)
srpp_to_rtp-encrypt_srpp_example =
    srpp_to_rtp-encrypt_srpp 6 media_message some_world media_part-IsInRange refl (omega arith)
      (omega arith)

-- One contributing source.
abbrev one_source : RtpHeader
one_source = record {
  version = 2;
  p = 0;
  x = 0;
  cc = 1;
  m = 0;
  pt = 0;
  seq = 256;
  ts = 0;
  ssrc = 7;
  csrc = no_csrc;
}

rtp_to_srpp-overruns_example : rtp_to_srpp some_library one_source (1 ∷ []) some_world ≡ none
rtp_to_srpp-overruns_example =
    rtp_to_srpp-overruns some_library one_source (1 ∷ []) some_world (omega arith) (omega arith)
      refl

abbrev no_source : RtpHeader
no_source = record one_source { cc = 0; p = 1 }

-- The sender pads by a small perturbation.
abbrev perturbed : World
perturbed = record some_world { padding = record some_world.padding { is_small_perturbation = 1 } }

-- The other end has sent fewer messages.
abbrev other_world : World
other_world = record some_world { last_sequence_no = 3 }

srpp_to_rtp-rtp_to_srpp_example :
    (sent : SrppMessage) × (w' : World) × (rtp_to_srpp some_library no_source
        (72 ∷ 105 ∷ 33 ∷ [])
        perturbed
      ≡ some (sent, w'))
    × IsReady perturbed w'
    × ((back : RtpMessage) × (csrc rest : List ℕ) × (out : SrppMessage) × (v' : World)
        × (srpp_to_rtp sent other_world ≡ some ((back, out), v'))
        × (back.rtp_header ≡ in_host_order no_source csrc)
        × (back.payload ≡ (72 ∷ 105 ∷ 33 ∷ []) ++ 0 ∷ rest)
        × (length back.payload ≡ max_payload_size))
srpp_to_rtp-rtp_to_srpp_example =
    srpp_to_rtp-rtp_to_srpp some_library no_source (72 ∷ 105 ∷ 33 ∷ []) perturbed other_world refl
      refl some_world-IsFilled refl (omega arith) (omega arith, (omega arith, (omega arith, tt)))
      (omega arith) refl
