-- ===== src/Discovery/Packet/Outgoing.antt =====
-- An outgoing RTP packet in `process_packet` of sqrkal_discovery.cpp while SRPP is not applied.
use dionysius.Common.{
  ℕ, suc, ◌+◌, ◌-◌, ◌%◌, ◌^◌, ◌<◌, ◌≤◌, List, [], ◌∷◌, ◌++◌, length, length-take, take, drop,
  drop-take, true, false, ◌==◌, ==_iff, is_in, ℤ, some, ◌≡◌, refl, ap, ◌∙◌, arith, sym, append-nil,
  take_within,
}
use dionysius.Machine.{to_int, load_le32, load_be16, read_lem}
use dionysius.World.{World, pure, ◌>>=◌, ◌>>◌, gets, modify, lift}
use dionysius.World.Host.{Host}
use dionysius.Transport.{Library}
use dionysius.Discovery.State.{Net, host_gets, update_host}
use dionysius.Discovery.Checksum.{in_cksum}
use dionysius.Discovery.Sending.{get_direction}
use dionysius.Discovery.Sending.Checked.{IsPacket, Checked, header_offset, long_enough}
use dionysius.Discovery.Sending.Forward.{Rewritten}
use dionysius.Discovery.Packet.Ports.{is_listed}
use dionysius.Discovery.Packet.{read_ports, classify, process_media, process_packet}
use dionysius.Discovery.Packet.Rtp.{htons}
use dionysius.Discovery.Packet.Rtp.Plain.{packet, rewritten, result, gone, send_rtp_lem}

-- A packet of UDP from this machine, to or from a port of RTP and none of SIP.
pub record IsOutgoing (net : Net) (buff : List ℕ) (h : Host) : Type 0 where
  pub is_packet : IsPacket buff
  pub udp : load_be16 8 (take 20 buff) % 256 ≡ 17
  pub local : is_in (load_le32 12 (take 20 buff)) net.interfaces ≡ true
  pub not_sip :
      is_listed
        (load_be16 0 (take 4 (drop 20 buff)))
        (load_be16 2 (take 4 (drop 20 buff)))
        h.sip_ports
      ≡ false
  pub rtp :
      is_listed
        (load_be16 0 (take 4 (drop 20 buff)))
        (load_be16 2 (take 4 (drop 20 buff)))
        h.rtp_ports
      ≡ true

-- A call whose media are passed on as they are: the other end is known, SRPP is not applied, and a
-- packet was sent and its headers kept.
pub record IsPlain (h : Host) : Type 0 where
  pub port : 0 < htons h.outport
  pub dest : 0 < h.rtp_dest
  pub plain : h.apply_srpp ≡ 0
  pub later : 0 < h.sent_count
  pub kept : h.rtp_hdset ≡ 2

module _ (lib : Library) (net : Net) (buff : List ℕ) (n : ℕ) (w : World)
    (o : IsOutgoing net buff w.host) (q : IsPlain w.host) (some_bytes : 28 ≤ n) (short : n ≤ 1500)
    (held : n ≤ length buff) where
  abbrev classified : World
  classified = record w { host = record w.host { is_udp = 1; is_sip = 0; is_rtp = 1 } }

  abbrev sent_on : World
  sent_on =
      gone lib net buff o.is_packet n classified some_bytes short held q.port q.dest q.plain q.later
        q.kept

  process_packet_lem :
      process_packet lib net buff n w
      ≡ some (
        to_int (sent_on.answers 0 % 2 ^ 32),
        record sent_on { answers = λ k. sent_on.answers (suc k) },
      )
  unfolding process_packet read_ports classify process_media get_direction host_gets update_host
      gets modify lift pure ◌>>=◌ ◌>>◌
  process_packet_lem = rw (long_enough n some_bytes) (
      rw (read_lem buff 0 20 (omega (arith, o.is_packet.room))) (
        rw (header_offset buff o.is_packet) (
          rw (read_lem buff 20 4 (omega (arith, o.is_packet.room))) (
            rw is_udp (
              rw o.local (
                rw o.not_sip (
                  rw o.rtp (
                    send_rtp_lem lib net buff o.is_packet n classified some_bytes short held q.port
                      q.dest q.plain q.later q.kept))))))))
    where
      is_udp : (load_be16 8 (take 20 buff) % 256 == 17) ≡ true
      is_udp = (==_iff _ 17).1 o.udp

  abbrev checked : Checked (
      packet lib net buff o.is_packet n classified some_bytes short held q.port q.dest q.plain
        q.later q.kept)
  checked =
      result lib net buff o.is_packet n classified some_bytes short held q.port q.dest q.plain
        q.later q.kept

  abbrev addressed : Rewritten buff (
      packet lib net buff o.is_packet n classified some_bytes short held q.port q.dest q.plain
        q.later q.kept)
  addressed =
      rewritten lib net buff o.is_packet n classified some_bytes short held q.port q.dest q.plain
        q.later q.kept

  -- While SRPP is not applied, `process_packet` passes on an outgoing RTP packet of UDP: if its header
  -- has no options, it has 28 to 1500 bytes, the address and the port of the other end are known, an
  -- RTP packet was sent before and its headers are kept, then exactly one datagram goes to that
  -- address and port; it has the size of the packet, an IP header that verifies, and behind the
  -- headers the bytes of the packet. The packet is counted and its size noted.
  pub process_packet-forwards :
      (status : ℤ) × (w' : World) × (bytes : List ℕ) × (process_packet lib net buff n w
        ≡ some (status, w'))
      × (w'.host.sent
          ≡ record {
            to = record { sin_addr = w.host.rtp_dest; sin_port = htons w.host.outport };
            bytes = bytes;
          }
            ∷ w.host.sent)
      × (length bytes ≡ n)
      × (in_cksum (take 20 bytes) ≡ 0)
      × (drop 28 bytes ≡ take (n - 28) (drop 28 buff))
      × (w'.host.sent_count ≡ w.host.sent_count + 1)
      × (w'.host.output_packet_sizes ≡ w.host.output_packet_sizes ++ n ∷ [])
  process_packet-forwards = (
    to_int (sent_on.answers 0 % 2 ^ 32),
    record sent_on { answers = λ k. sent_on.answers (suc k) },
    take n checked.packet,
    process_packet_lem,
    refl,
    omega (arith, length-take n checked.packet, checked.size, addressed.size, held),
    ap in_cksum start ∙ checked.verifies,
    drop-take 28 n checked.packet some_bytes
        ∙ ap (take (n - 28)) (checked.behind 28 (omega arith) ∙ addressed.behind 28 (omega arith)),
    refl,
    refl,
  )
    where
      start : take 20 (take n checked.packet) ≡ take 20 checked.packet
      start =
          ap (take 20) (sym (append-nil (take n checked.packet)))
          ∙ take_within 20 n checked.packet [] (omega arith)
              (omega (arith, held, checked.size, addressed.size))
