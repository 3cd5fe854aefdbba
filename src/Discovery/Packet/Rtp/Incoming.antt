-- ===== src/Discovery/Packet/Rtp/Incoming.antt =====
-- An incoming RTP packet in sqrkal_discovery.cpp while SRPP is not applied.
use dionysius.Common.{
  ℕ, suc, ◌+◌, ◌%◌, ◌^◌, ◌<◌, ◌≤◌, List, length, length-drop, take, drop, ltb, true, false, not,
  ◌&&◌, ◌||◌, ◌==◌, ==-zero, some, ◌≡◌, refl, ◌∙◌, arith,
}
use dionysius.Machine.{to_int, load_le32, read_lem}
use dionysius.Wire.{load_header}
use dionysius.World.{World, pure, ◌>>=◌, ◌>>◌, gets, modify, lift, ask}
use dionysius.World.Frames.{bind-some}
use dionysius.Transport.{Library, is_one, is_signaling_header, is_signaling_buffer}
use dionysius.Discovery.State.{Net, host_gets, update_host, ask_int}
use dionysius.Discovery.Sending.{forward}
use dionysius.Discovery.Sending.Raw.{sent_raw}
use dionysius.Discovery.Sending.Checked.{IsPacket, Checked, check}
use dionysius.Discovery.Sending.Forward.{Rewritten, forward_lem}
use dionysius.Discovery.Packet.Ports.{is_port}
use dionysius.Discovery.Packet.Rtp.{try_srpp, keep_header, readdress, send_on, htons, receive_rtp}
use dionysius.Discovery.Packet.Rtp.Plain.{readdressed, readdressed-Rewritten, readdress_lem}

not_first : (n : ℕ) → 0 < n → (n + 1 == 1) ≡ false
not_first n h = ground (arith, h)

module _ (lib : Library) (net : Net) (buff : List ℕ) (p : IsPacket buff) (n : ℕ) (source : ℕ)
    (w : World) (some_bytes : 28 ≤ n) (short : n ≤ 1500) (held : n ≤ length buff)
    (room : 108 ≤ length buff)
    (media : is_one (is_signaling_header (load_header (take 80 (drop 28 buff)))) ≡ false)
    (port : 0 < htons w.host.inport) (src : 0 < w.host.rtp_src) (plain : w.host.apply_srpp ≡ 0)
    (same_port : is_port source w.host.outport ≡ true) (later : 0 < w.host.recv_count)
    (kept : w.host.rtp_hdset ≡ 2) where
  abbrev pub counted : World
  counted = record w {
    host = record w.host { rtp_dest = load_le32 12 buff; recv_count = w.host.recv_count + 1 };
  }

  abbrev pub packet : List ℕ
  packet = readdressed buff p n w.host.inport w.host.rtp_src counted

  abbrev pub rewritten : Rewritten buff packet
  rewritten = readdressed-Rewritten buff p n w.host.inport w.host.rtp_src counted

  abbrev pub result : Checked packet
  result = check packet rewritten.is_packet

  abbrev addressed : World
  addressed = record counted {
    host = record counted.host {
      out_addr = record { sin_addr = w.host.rtp_src; sin_port = htons w.host.inport };
    };
  }

  abbrev pub gone : World
  gone = sent_raw (take n result.packet) addressed

  is_signaling_buffer_lem :
      is_signaling_buffer (drop 28 buff) counted
      ≡ some (is_signaling_header (load_header (take 80 (drop 28 buff))), counted)
  unfolding is_signaling_buffer lift pure ◌>>=◌
  is_signaling_buffer_lem =
      rw (read_lem (drop 28 buff) 0 80 (omega (arith, length-drop 28 buff, room))) refl

  keep_header_lem : keep_header buff counted ≡ some (tt, counted)
  unfolding keep_header host_gets gets pure ◌>>=◌
  keep_header_lem = rw unkept
    where
      unkept : (w.host.rtp_hdset == 0 || w.host.rtp_hdset == 1) ≡ false
      unkept = ground (arith, kept)

  send_on_lem : send_on packet n w.host.inport w.host.rtp_src counted ≡ some (tt, gone)
  unfolding send_on update_host modify pure ◌>>=◌ ◌>>◌
  send_on_lem = bind-some (forward packet n) _ (
      forward_lem packet rewritten.is_packet n addressed (omega arith) short
        (omega (arith, held, rewritten.size)) port)

  pub receive_rtp_lem :
      receive_rtp lib net buff n 20 source w
      ≡ some (to_int (gone.answers 0 % 2 ^ 32), record gone { answers = λ k. gone.answers (suc k) })
  unfolding receive_rtp try_srpp host_gets update_host ask_int gets modify ask pure ◌>>=◌ ◌>>◌
  receive_rtp_lem =
      bind-some (is_signaling_buffer (drop 28 buff)) _ is_signaling_buffer_lem
      ∙ rw media (
          bind-some (keep_header buff) _ keep_header_lem
          ∙ rw begins (
              rw applied (
                rw some_src (
                  bind-some (readdress buff n 20 w.host.inport w.host.rtp_src) _
                    (readdress_lem buff p n w.host.inport w.host.rtp_src counted)
                  ∙ bind-some (send_on packet n w.host.inport w.host.rtp_src) _ send_on_lem))))
    where
      begins :
          ((not (is_port source w.host.outport) && w.host.apply_srpp == 0)
            || (w.host.recv_count + 1 == 1 && ltb w.host.sent_count 5))
          ≡ false
      begins = rw (same_port, not_first w.host.recv_count later) refl

      applied : (w.host.apply_srpp == 1) ≡ false
      applied = ground (arith, plain)

      some_src : (w.host.rtp_src == 0) ≡ false
      some_src = ==-zero w.host.rtp_src src
