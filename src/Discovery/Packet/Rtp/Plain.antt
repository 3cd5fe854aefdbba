-- ===== src/Discovery/Packet/Rtp/Plain.antt =====
-- An outgoing RTP packet in sqrkal_discovery.cpp while SRPP is not applied.
use dionysius.Common.{
  ℕ, suc, ◌+◌, ◌-◌, ◌%◌, ◌^◌, ◌<◌, ◌≤◌, List, [], ◌∷◌, ◌++◌, length, take, ltb, true, false, not,
  ◌&&◌, ◌||◌, ◌==◌, ==-zero, ℤ, pos, negsuc, some, ◌≡◌, refl, ap, ◌∙◌, arith,
}
use dionysius.Machine.{to_int, to_unsigned, le32, be16, load_le32, patched}
use dionysius.World.{World, pure, ◌>>=◌, ◌>>◌, gets, modify, lift, ask}
use dionysius.World.Frames.{bind-some}
use dionysius.Transport.{Library}
use dionysius.Discovery.State.{Net, host_gets, update_host, ask_int}
use dionysius.Discovery.Sending.{forward}
use dionysius.Discovery.Sending.Raw.{sent_raw}
use dionysius.Discovery.Sending.Checked.{IsPacket, Checked, check}
use dionysius.Discovery.Sending.Forward.{
  Rewritten, unwritten, write-Rewritten, patched-Rewritten, forward_lem,
}
use dionysius.Discovery.Packet.Ports.{is_port}
use dionysius.Discovery.Packet.Rtp.{try_srpp, keep_header, readdress, send_on, htons, send_rtp}

-- The five writes of `readdress`.
module _ (buff : List ℕ) (p : IsPacket buff) (n : ℕ) (port : ℤ) (daddr : ℕ) (w : World) where
  abbrev a : List ℕ
  a = patched buff 22 (be16 (to_unsigned port))

  abbrev b : List ℕ
  b = patched a 16 (le32 daddr)

  abbrev c : List ℕ
  c = patched b 24 (be16 (n - 20))

  abbrev d : List ℕ
  d = patched c 2 (be16 n)

  abbrev pub readdressed : List ℕ
  readdressed = patched d 8 (w.host.srpp_ttl % 256 ∷ [])

  at_a : Rewritten buff a
  at_a =
      patched-Rewritten buff (unwritten buff p) 22 (be16 (to_unsigned port))
        (omega arith, (omega arith, tt)) (omega arith) (omega arith) (omega arith)

  at_b : Rewritten buff b
  at_b =
      patched-Rewritten a at_a 16 (le32 daddr)
        (omega arith, (omega arith, (omega arith, (omega arith, tt)))) (omega arith) (omega arith)
        (omega arith)

  at_c : Rewritten buff c
  at_c =
      patched-Rewritten b at_b 24 (be16 (n - 20)) (omega arith, (omega arith, tt)) (omega arith)
        (omega arith) (omega arith)

  at_d : Rewritten buff d
  at_d =
      patched-Rewritten c at_c 2 (be16 n) (omega arith, (omega arith, tt)) (omega arith)
        (omega arith) (omega arith)

  pub readdressed-Rewritten : Rewritten buff readdressed
  readdressed-Rewritten =
      patched-Rewritten d at_d 8 (w.host.srpp_ttl % 256 ∷ []) (omega arith, tt) (omega arith)
        (omega arith) (omega arith)

  pub readdress_lem : readdress buff n 20 port daddr w ≡ some (readdressed, w)
  unfolding readdress host_gets gets lift pure
  readdress_lem =
      bind-some (host_gets _) _ refl
      ∙ bind-some (lift _) _ (
          ap (λ o. lift o w)
            (write-Rewritten buff (unwritten buff p) 22 (be16 (to_unsigned port))
              (omega arith, (omega arith, tt)) (omega arith) (omega arith) (omega arith)))
      ∙ bind-some (lift _) _ (
          ap (λ o. lift o w)
            (write-Rewritten a at_a 16 (le32 daddr)
              (omega arith, (omega arith, (omega arith, (omega arith, tt)))) (omega arith)
              (omega arith) (omega arith)))
      ∙ bind-some (lift _) _ (
          ap (λ o. lift o w)
            (write-Rewritten b at_b 24 (be16 (n - 20)) (omega arith, (omega arith, tt))
              (omega arith) (omega arith) (omega arith)))
      ∙ bind-some (lift _) _ (
          ap (λ o. lift o w)
            (write-Rewritten c at_c 2 (be16 n) (omega arith, (omega arith, tt)) (omega arith)
              (omega arith) (omega arith)))
      ∙ ap (λ o. lift o w)
          (write-Rewritten d at_d 8 (w.host.srpp_ttl % 256 ∷ []) (omega arith, tt) (omega arith)
            (omega arith) (omega arith))

htons-some : (port : ℤ) → 0 < htons port → is_port 0 port ≡ false
htons-some (pos n) h = ground arith
htons-some (negsuc n) h = refl

module _ (lib : Library) (net : Net) (buff : List ℕ) (p : IsPacket buff) (n : ℕ) (w : World)
    (some_bytes : 28 ≤ n) (short : n ≤ 1500) (held : n ≤ length buff)
    (port : 0 < htons w.host.outport) (dest : 0 < w.host.rtp_dest) (plain : w.host.apply_srpp ≡ 0)
    (later : 0 < w.host.sent_count) (kept : w.host.rtp_hdset ≡ 2) where
  abbrev pub counted : World
  counted = record w {
    host = record w.host {
      rtp_src = load_le32 12 buff;
      sent_count = w.host.sent_count + 1;
      output_packet_sizes = w.host.output_packet_sizes ++ n ∷ [];
    };
  }

  abbrev pub packet : List ℕ
  packet = readdressed buff p n w.host.outport w.host.rtp_dest counted

  abbrev pub rewritten : Rewritten buff packet
  rewritten = readdressed-Rewritten buff p n w.host.outport w.host.rtp_dest counted

  abbrev pub result : Checked packet
  result = check packet rewritten.is_packet

  abbrev addressed : World
  addressed = record counted {
    host = record counted.host {
      out_addr = record { sin_addr = w.host.rtp_dest; sin_port = htons w.host.outport };
    };
  }

  abbrev pub gone : World
  gone = sent_raw (take n result.packet) addressed

  keep_header_lem : keep_header packet counted ≡ some (tt, counted)
  unfolding keep_header host_gets gets pure ◌>>=◌
  keep_header_lem = rw unkept
    where
      unkept : (w.host.rtp_hdset == 0 || w.host.rtp_hdset == 1) ≡ false
      unkept = ground (arith, kept)

  send_on_lem : send_on packet n w.host.outport w.host.rtp_dest counted ≡ some (tt, gone)
  unfolding send_on update_host modify pure ◌>>=◌ ◌>>◌
  send_on_lem = bind-some (forward packet n) _ (
      forward_lem packet rewritten.is_packet n addressed (omega arith) short
        (omega (arith, held, rewritten.size)) port)

  pub send_rtp_lem :
      send_rtp lib net buff n 20 w
      ≡ some (to_int (gone.answers 0 % 2 ^ 32), record gone { answers = λ k. gone.answers (suc k) })
  unfolding send_rtp try_srpp host_gets update_host ask_int gets modify ask pure ◌>>=◌ ◌>>◌
  send_rtp_lem = rw known (
      rw begins (
        rw applied (
          bind-some (readdress buff n 20 w.host.outport w.host.rtp_dest) _
            (readdress_lem buff p n w.host.outport w.host.rtp_dest counted)
          ∙ bind-some (keep_header packet) _ keep_header_lem
          ∙ bind-some (send_on packet n w.host.outport w.host.rtp_dest) _ send_on_lem)))
    where
      known : (not (is_port 0 w.host.outport) && not (w.host.rtp_dest == 0)) ≡ true
      known = rw (htons-some w.host.outport port, ==-zero w.host.rtp_dest dest)

      begins :
          (w.host.apply_srpp == 0 && w.host.sent_count + 1 == 1 && ltb 0 w.host.rtp_hdset) ≡ false
      begins = ground (arith, plain, later)

      applied : (w.host.apply_srpp == 1) ≡ false
      applied = ground (arith, plain)
