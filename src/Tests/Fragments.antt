-- ===== src/Tests/Fragments.antt =====
-- A packet that is sent in two fragments.
use dionysius.Common.{
  ℕ, zero, suc, ◌+◌, List, [], ◌∷◌, length, take, drop, All, some, ◌≡◌, refl, arith,
}
use dionysius.Message.{IsByte}
use dionysius.World.{World}
use dionysius.World.Host.{zeros}
use dionysius.Discovery.Checksum.{in_cksum}
use dionysius.Discovery.Sending.{send_fragmented_message}
use dionysius.Discovery.Sending.Checked.{IsPacket, cleared}
use dionysius.Discovery.Sending.Reassembly.{send_fragmented_message-clears}
use dionysius.Tests.Data.{some_world}

pub zeros-All : (n : ℕ) → All IsByte (zeros n)
zeros-All zero = tt
zeros-All (suc n) = (omega arith, zeros-All n)

length-zeros : (n : ℕ) → length (zeros n) ≡ n
length-zeros zero = refl
length-zeros (suc n) = omega (arith, length-zeros n)

-- 28 bytes of headers and some of payload.
long_packet : ℕ → List ℕ
long_packet n = 69 ∷ zeros (27 + n)

long_packet-IsPacket : (n : ℕ) → IsPacket (long_packet n)
unfolding long_packet
long_packet-IsPacket n = record {
  bytes = (omega arith, zeros-All (27 + n));
  no_options = refl;
  room = omega (arith, length-zeros (27 + n));
}

length-long_packet : (n : ℕ) → length (long_packet n) ≡ 28 + n
unfolding long_packet
length-long_packet n = omega (arith, length-zeros (27 + n))

abbrev routed_world : World
routed_world = record some_world {
  host = record some_world.host { out_addr = record { sin_addr = 150994954; sin_port = 28695 } };
}

send_fragmented_message-clears_example :
    (left : List ℕ) × (one : List ℕ) × (two : List ℕ) × (w' : World) × (send_fragmented_message
        (long_packet 1500)
        1528
        routed_world
      ≡ some (left, w'))
    × (w'.host.sent
        ≡ record { to = record { sin_addr = 150994954; sin_port = 28695 }; bytes = two }
          ∷ record { to = record { sin_addr = 150994954; sin_port = 28695 }; bytes = one }
          ∷ [])
    × (length one ≡ 1500)
    × (in_cksum (take 20 one) ≡ 0)
    × (in_cksum (take 20 two) ≡ 0)
    × (drop 20 one ≡ take 1480 (cleared (drop 20 (long_packet 1500))))
    × (drop 20 two ≡ cleared (take 28 (drop 1500 (long_packet 1500))))
send_fragmented_message-clears_example =
    send_fragmented_message-clears (long_packet 1500) 1528 (long_packet-IsPacket 1500) (omega arith)
      (omega (arith, length-long_packet 1500)) routed_world (omega arith)
