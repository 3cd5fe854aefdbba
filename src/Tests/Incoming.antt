-- ===== src/Tests/Incoming.antt =====
-- An incoming RTP packet that is delivered to the program.
use dionysius.Common.{
  ℕ, List, [], ◌∷◌, ◌++◌, length, take, drop, All, All-append, some, pos, ℤ, ◌≡◌, refl, arith,
  is_in,
}
use dionysius.Message.{IsByte}
use dionysius.World.{World}
use dionysius.World.Host.{zeros}
use dionysius.Wire.{load_header}
use dionysius.Transport.{is_signaling_header}
use dionysius.Discovery.Checksum.{in_cksum}
use dionysius.Discovery.Packet.Ports.{is_listed}
use dionysius.Discovery.Packet.{process_packet}
use dionysius.Discovery.Packet.Rtp.{htons}
use dionysius.Discovery.Packet.Incoming.{process_packet-delivers}
use dionysius.Tests.Data.{some_library}
use dionysius.Tests.Discovery.{some_net, calling_world}
use dionysius.Tests.Fragments.{zeros-All}

-- From 10.0.0.9, port 6000, to 10.0.0.5, port 5004, with 5 bytes of payload.
abbrev arrived : List ℕ
arrived =
    69 ∷ 0 ∷ 0 ∷ 33 ∷ 0 ∷ 1 ∷ 0 ∷ 0 ∷ 64 ∷ 17 ∷ 0 ∷ 0 ∷ 10 ∷ 0 ∷ 0 ∷ 9 ∷ 10 ∷ 0 ∷ 0 ∷ 5 ∷ 23 ∷ 112
    ∷ 19 ∷ 140 ∷ 0 ∷ 13 ∷ 1 ∷ 2 ∷ 128 ∷ 0 ∷ 2 ∷ 1 ∷ 9 ∷ []

arrived-All : All IsByte arrived
arrived-All = omega arith

-- The packet in the memory that `ipq_read` fills.
abbrev arrived_memory : List ℕ
arrived_memory = arrived ++ zeros 80

abbrev answering_world : World
answering_world = record calling_world {
  host = record calling_world.host { rtp_src = 83886090; recv_count = 2 };
}

process_packet-delivers_example :
    (status : ℤ) × (w' : World) × (bytes : List ℕ) × (process_packet some_library some_net
        arrived_memory 33 answering_world
      ≡ some (status, w'))
    × (w'.host.sent
        ≡ record { to = record { sin_addr = 83886090; sin_port = htons (pos 5004) }; bytes = bytes }
          ∷ [])
    × (length bytes ≡ 33)
    × (in_cksum (take 20 bytes) ≡ 0)
    × (drop 28 bytes ≡ 128 ∷ 0 ∷ 2 ∷ 1 ∷ 9 ∷ [])
    × (w'.host.recv_count ≡ 3)
    × (w'.host.rtp_dest ≡ 150994954)
unfolding is_listed is_in is_signaling_header load_header
process_packet-delivers_example =
    process_packet-delivers some_library some_net arrived_memory 33 answering_world
      (record {
        is_packet = record {
          bytes = All-append IsByte arrived (zeros 80) arrived-All (zeros-All 80);
          no_options = refl;
          room = omega arith;
        };
        room = omega arith;
        udp = refl;
        remote = refl;
        not_sip = refl;
        rtp = refl;
        media = refl;
        same_port = refl;
      })
      (record {
        port = omega arith;
        src = omega arith;
        plain = refl;
        later = omega arith;
        kept = refl;
      })
      (omega arith) (omega arith) (omega arith)
