-- ===== src/Discovery/Packet/Incoming.antt =====
-- An incoming RTP packet in `process_packet` of sqrkal_discovery.cpp while SRPP is not applied.
use dionysius.Common.{
  ℕ, suc, ◌+◌, ◌-◌, ◌%◌, ◌^◌, ◌<◌, ◌≤◌, List, [], ◌∷◌, length, length-take, take, drop, drop-take,
  true, false, ◌==◌, ==_iff, is_in, ℤ, some, ◌≡◌, refl, ap, ◌∙◌, arith, sym, append-nil,
  take_within,
}
use dionysius.Machine.{to_int, load_le32, load_be16, read_lem}
use dionysius.World.{World, pure, ◌>>=◌, ◌>>◌, gets, modify, lift}
use dionysius.World.Host.{Host}
use dionysius.Wire.{load_header}
use dionysius.Transport.{Library, is_one, is_signaling_header}
use dionysius.Discovery.State.{Net, host_gets, update_host}
use dionysius.Discovery.Checksum.{in_cksum}
use dionysius.Discovery.Sending.{get_direction}
use dionysius.Discovery.Sending.Checked.{IsPacket, Checked, header_offset, long_enough}
use dionysius.Discovery.Sending.Forward.{Rewritten}
use dionysius.Discovery.Packet.Ports.{is_listed, is_port}
use dionysius.Discovery.Packet.{read_ports, classify, process_media, process_packet}
use dionysius.Discovery.Packet.Rtp.{htons}
use dionysius.Discovery.Packet.Rtp.Incoming.{packet, rewritten, result, gone, receive_rtp_lem}

-- A packet of UDP from another machine, to or from a port of RTP and none of SIP, and no signaling
-- message of SRPP.
pub record IsIncoming (net : Net) (buff : List ℕ) (h : Host) : Type 0 where
  pub is_packet : IsPacket buff
  pub room : 108 ≤ length buff
  pub udp : load_be16 8 (take 20 buff) % 256 ≡ 17
  pub remote : is_in (load_le32 12 (take 20 buff)) net.interfaces ≡ false
  pub not_sip :
      is_listed
        (load_be16 2 (take 4 (drop 20 buff)))
        (load_be16 0 (take 4 (drop 20 buff)))
        h.sip_ports
      ≡ false
  pub rtp :
      is_listed
        (load_be16 2 (take 4 (drop 20 buff)))
        (load_be16 0 (take 4 (drop 20 buff)))
        h.rtp_ports
      ≡ true
  pub media : is_one (is_signaling_header (load_header (take 80 (drop 28 buff)))) ≡ false
  pub same_port : is_port (load_be16 0 (take 4 (drop 20 buff))) h.outport ≡ true

-- A call whose media are passed on as they are: the address and the port of the program are known,
-- SRPP is not applied, and a packet was received and its headers kept.
pub record IsOpen (h : Host) : Type 0 where
  pub port : 0 < htons h.inport
  pub src : 0 < h.rtp_src
  pub plain : h.apply_srpp ≡ 0
  pub later : 0 < h.recv_count
  pub kept : h.rtp_hdset ≡ 2

module _ (lib : Library) (net : Net) (buff : List ℕ) (n : ℕ) (w : World)
    (o : IsIncoming net buff w.host) (q : IsOpen w.host) (some_bytes : 28 ≤ n) (short : n ≤ 1500)
    (held : n ≤ length buff) where
  abbrev classified : World
  classified = record w { host = record w.host { is_udp = 1; is_sip = 0; is_rtp = 1 } }

  abbrev source : ℕ
  source = load_be16 0 (take 4 (drop 20 buff))

  abbrev sent_on : World
  sent_on =
      gone lib net buff o.is_packet n source classified some_bytes short held o.room o.media q.port
        q.src q.plain o.same_port q.later q.kept

  process_packet_lem :
      process_packet lib net buff n w
      ≡ some (
        to_int (sent_on.answers 0 % 2 ^ 32),
        record sent_on { answers = λ k. sent_on.answers (suc k) },
      )
  unfolding process_packet read_ports classify process_media get_direction host_gets update_host
      gets modify lift pure ◌>>=◌ ◌>>◌
  process_packet_lem = rw (long_enough n some_bytes) (
      rw (read_lem buff 0 20 (omega (arith, o.is_packet.room))) (
        rw (header_offset buff o.is_packet) (
          rw (read_lem buff 20 4 (omega (arith, o.is_packet.room))) (
            rw is_udp (
              rw o.remote (
                rw o.not_sip (
                  rw o.rtp (
                    receive_rtp_lem lib net buff o.is_packet n source classified some_bytes short
                      held o.room o.media q.port q.src q.plain o.same_port q.later q.kept))))))))
    where
      is_udp : (load_be16 8 (take 20 buff) % 256 == 17) ≡ true
      is_udp = (==_iff _ 17).1 o.udp

  abbrev checked : Checked (
      packet lib net buff o.is_packet n source classified some_bytes short held o.room o.media
        q.port q.src q.plain o.same_port q.later q.kept)
  checked =
      result lib net buff o.is_packet n source classified some_bytes short held o.room o.media
        q.port q.src q.plain o.same_port q.later q.kept

  abbrev addressed : Rewritten buff (
      packet lib net buff o.is_packet n source classified some_bytes short held o.room o.media
        q.port q.src q.plain o.same_port q.later q.kept)
  addressed =
      rewritten lib net buff o.is_packet n source classified some_bytes short held o.room o.media
        q.port q.src q.plain o.same_port q.later q.kept

  -- While SRPP is not applied, `process_packet` delivers an incoming RTP packet of UDP to the program:
  -- if its header has no options, it has 28 to 1500 bytes, in a memory of at least 108, it is no signaling
  -- message of SRPP and comes from the port of the other end, the address and the port of the program are
  -- known, and a packet was received before and its headers
  -- kept, then exactly one datagram goes to that address and port; it has the size of the packet, an IP
  -- header that verifies, and behind the headers the bytes of the packet. The packet is counted and its
  -- source kept as the address of the other end.
  pub process_packet-delivers :
      (status : ℤ) × (w' : World) × (bytes : List ℕ) × (process_packet lib net buff n w
        ≡ some (status, w'))
      × (w'.host.sent
          ≡ record {
            to = record { sin_addr = w.host.rtp_src; sin_port = htons w.host.inport };
            bytes = bytes;
          }
            ∷ w.host.sent)
      × (length bytes ≡ n)
      × (in_cksum (take 20 bytes) ≡ 0)
      × (drop 28 bytes ≡ take (n - 28) (drop 28 buff))
      × (w'.host.recv_count ≡ w.host.recv_count + 1)
      × (w'.host.rtp_dest ≡ load_le32 12 buff)
  process_packet-delivers = (
    to_int (sent_on.answers 0 % 2 ^ 32),
    record sent_on { answers = λ k. sent_on.answers (suc k) },
    take n checked.packet,
    process_packet_lem,
    refl,
    omega (arith, length-take n checked.packet, checked.size, addressed.size, held),
    ap in_cksum start ∙ checked.verifies,
    drop-take 28 n checked.packet some_bytes
        ∙ ap (take (n - 28)) (checked.behind 28 (omega arith) ∙ addressed.behind 28 (omega arith)),
    refl,
    refl,
  )
    where
      start : take 20 (take n checked.packet) ≡ take 20 checked.packet
      start =
          ap (take 20) (sym (append-nil (take n checked.packet)))
          ∙ take_within 20 n checked.packet [] (omega arith)
              (omega (arith, held, checked.size, addressed.size))
