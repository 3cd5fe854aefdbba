-- ===== src/Tests/Discovery.antt =====
-- Packets of the discovery.
use dionysius.Common.{
  ℕ, is_in, List, [], ◌∷◌, ◌++◌, length, take, drop, All, true, ◌||◌, ℤ, pos, some, none, ◌≡◌, refl,
  arith,
}
use dionysius.Message.{IsByte}
use dionysius.World.{World}
use dionysius.World.Host.{zeros}
use dionysius.Convert.{RtpMessage}
use dionysius.Convert.Network.{rtp_to_network, rtp_to_network-overruns}
use dionysius.Message.{no_csrc}
use dionysius.Discovery.State.{Net}
use dionysius.Discovery.Checksum.{in_cksum, form_checksums}
use dionysius.Discovery.Checksum.Reference.{reference, in_cksum-reference}
use dionysius.Discovery.Checksum.Header.{form_checksums-verifies}
use dionysius.Discovery.Packet.{process_packet}
use dionysius.Discovery.Packet.Ports.{is_port, is_listed}
use dionysius.Discovery.Packet.Calls.{is_other_end, is_listed-call_ports}
use dionysius.Discovery.Packet.Rtp.{htons}
use dionysius.Discovery.Packet.Outgoing.{process_packet-forwards}
use dionysius.Tests.Data.{some_library, some_world}

in_cksum-reference_example :
    in_cksum (69 ∷ 255 ∷ 255 ∷ 255 ∷ 7 ∷ []) ≡ reference (69 ∷ 255 ∷ 255 ∷ 255 ∷ 7 ∷ [])
in_cksum-reference_example =
    in_cksum-reference (69 ∷ 255 ∷ 255 ∷ 255 ∷ 7 ∷ [])
      (omega arith, (omega arith, (omega arith, (omega arith, (omega arith, tt))))) (omega arith)

abbrev pub some_net : Net
some_net = record {
  inet_addr = λ text. 16777343;
  is_address = λ text. true;
  resolve = λ text. none;
  interfaces = 83886090 ∷ [];
  room = 1900;
}

-- From 10.0.0.5, port 5004, to 10.0.0.9, port 6000.
abbrev headers : List ℕ
headers =
    69 ∷ 0 ∷ 0 ∷ 40 ∷ 0 ∷ 1 ∷ 0 ∷ 0 ∷ 64 ∷ 17 ∷ 0 ∷ 0 ∷ 10 ∷ 0 ∷ 0 ∷ 5 ∷ 10 ∷ 0 ∷ 0 ∷ 9 ∷ 19 ∷ 140
    ∷ 23 ∷ 112 ∷ 0 ∷ 20 ∷ 1 ∷ 2 ∷ []

headers-All : All IsByte headers
headers-All = omega arith

abbrev small_packet : List ℕ
small_packet = headers ++ (128 ∷ 0 ∷ 2 ∷ 1 ∷ 9 ∷ [])

small_packet-All : All IsByte small_packet
small_packet-All = omega arith

form_checksums-verifies_example :
    (done : List ℕ) × (form_checksums small_packet ≡ some done)
    × (in_cksum (take 20 done) ≡ 0)
    × (take 10 done ≡ take 10 small_packet)
    × (drop 12 (take 26 done) ≡ drop 12 (take 26 small_packet))
    × (drop 26 done ≡ 0 ∷ 0 ∷ drop 28 small_packet)
form_checksums-verifies_example =
    form_checksums-verifies small_packet small_packet-All (omega arith) (omega arith) refl

abbrev pub calling_world : World
calling_world = record some_world {
  host = record some_world.host {
    rtp_ports = pos 5000 ∷ pos 5004 ∷ pos 6000 ∷ [];
    inport = pos 5004;
    outport = pos 6000;
    rtp_dest = 150994954;
    sent_count = 3;
    rtp_hdset = 2;
    out_addr = record { sin_addr = 150994954; sin_port = 28695 };
  };
}

process_packet-forwards_example :
    (status : ℤ) × (w' : World) × (bytes : List ℕ) × (process_packet some_library some_net
        small_packet 33 calling_world
      ≡ some (status, w'))
    × (w'.host.sent
        ≡ record {
          to = record { sin_addr = 150994954; sin_port = htons (pos 6000) };
          bytes = bytes;
        }
          ∷ [])
    × (length bytes ≡ 33)
    × (in_cksum (take 20 bytes) ≡ 0)
    × (drop 28 bytes ≡ 128 ∷ 0 ∷ 2 ∷ 1 ∷ 9 ∷ [])
    × (w'.host.sent_count ≡ 4)
    × (w'.host.output_packet_sizes ≡ 33 ∷ [])
unfolding is_listed is_in
process_packet-forwards_example =
    process_packet-forwards some_library some_net small_packet 33 calling_world
      (record {
        is_packet = record { bytes = small_packet-All; no_options = refl; room = omega arith };
        udp = refl;
        local = refl;
        not_sip = refl;
        rtp = refl;
      })
      (record {
        port = omega arith;
        dest = omega arith;
        plain = refl;
        later = omega arith;
        kept = refl;
      })
      (omega arith) (omega arith) (omega arith)

is_listed-call_ports_example : is_listed 5004 9 (pos 5000 ∷ pos 5004 ∷ pos 6000 ∷ []) ≡ (
    (is_port 5004 (pos 5000) || is_port 9 (pos 5000))
    || is_other_end 5004 9 ((pos 5004, pos 6000) ∷ []))
is_listed-call_ports_example = is_listed-call_ports 5004 9 (pos 5000) ((pos 5004, pos 6000) ∷ [])

-- A message of 160 bytes behind a header with no sources.
abbrev rtp_message : RtpMessage
rtp_message = record {
  rtp_header = record {
    version = 2;
    p = 0;
    x = 0;
    cc = 0;
    m = 0;
    pt = 0;
    seq = 256;
    ts = 0;
    ssrc = 7;
    csrc = no_csrc;
  };
  payload = zeros 1464;
}

rtp_to_network-overruns_example : rtp_to_network rtp_message 172 (zeros 182) ≡ none
rtp_to_network-overruns_example = rtp_to_network-overruns rtp_message 172 (zeros 182) refl refl
