-- ===== src/Discovery/Sending/Reassembly.antt =====
-- The datagrams that `send_fragmented_message` of sqrkal_discovery.cpp sends.
use dionysius.Common.{
  ℕ, ◌+◌, ◌-◌, ◌%◌, ◌^◌, ◌<◌, ◌≤◌, List, [], ◌∷◌, length, length-take, take, drop, drop-take,
  take_all, take_within, append-nil, some, ◌≡◌, refl, ap, sym, ◌∙◌, arith,
}
use dionysius.World.{World, pure, ◌>>◌, lift, gets, modify}
use dionysius.World.Frames.{bind-some}
use dionysius.Discovery.State.{host_gets, update_host}
use dionysius.Discovery.Checksum.{in_cksum}
use dionysius.Discovery.Sending.Build.{first_fragment, second_fragment}
use dionysius.Discovery.Sending.{send_raw_message, send_fragmented_message}
use dionysius.Discovery.Sending.Raw.{sent_raw, send_raw_message_lem}
use dionysius.Discovery.Sending.Checked.{IsPacket, Checked, cleared}
use dionysius.Discovery.Sending.Fragments.{
  first, second, first_fragment_lem, second_fragment_lem, length-first, length-second,
  drop-measured, drop-resized, measured, resized,
}

module _ (buff : List ℕ) (bytes_read : ℕ) (p : IsPacket buff) (long : 1508 ≤ bytes_read)
    (held : bytes_read ≤ length buff) (w : World) (port : 0 < w.host.out_addr.sin_port) where
  abbrev id : ℕ
  id = (15032 + w.host.frag_id) % 2 ^ 16

  abbrev one : Checked (measured buff bytes_read p long held id)
  one = first buff bytes_read p long held id

  abbrev two : Checked (resized buff bytes_read p long held id)
  two = second buff bytes_read p long held id

  abbrev counted : World
  counted = record w { host = record w.host { frag_id = w.host.frag_id + 1 } }

  abbrev after_one : World
  after_one = sent_raw (take 1500 one.packet) counted

  abbrev after_two : World
  after_two = sent_raw (take (bytes_read - 1500 + 20) two.packet) after_one

  send_fragmented_message_lem :
      send_fragmented_message buff bytes_read w ≡ some (one.packet, after_two)
  unfolding send_fragmented_message host_gets update_host gets modify lift pure ◌>>◌
  send_fragmented_message_lem =
      bind-some (host_gets _) _ refl
      ∙ bind-some (update_host _) _ refl
      ∙ bind-some (lift (first_fragment id buff)) _
          (ap (λ o. lift o counted) (first_fragment_lem buff bytes_read p long held id))
      ∙ bind-some (send_raw_message one.packet 1500) _ (
          send_raw_message_lem one.packet 1500 counted port (omega arith)
            (omega (arith, length-first buff bytes_read p long held id)))
      ∙ bind-some (lift (second_fragment one.packet bytes_read)) _
          (ap (λ o. lift o after_one) (second_fragment_lem buff bytes_read p long held id))
      ∙ bind-some (send_raw_message two.packet (bytes_read - 1500 + 20)) _ (
          send_raw_message_lem two.packet (bytes_read - 1500 + 20) after_one port (omega arith)
            (omega (arith, length-second buff bytes_read p long held id)))
      ∙ refl

  -- A packet of at least 1508 bytes whose header has no options goes out in two datagrams with IP
  -- headers that verify. The first has 1500 bytes, and with the second it carries the payload, but for
  -- two places of two bytes that are zero: the UDP checksum, and the same place behind the header of
  -- the second datagram, where no UDP header stands.
  pub send_fragmented_message-clears :
      (left : List ℕ) × (one : List ℕ) × (two : List ℕ) × (w' : World) × (send_fragmented_message
          buff bytes_read w
        ≡ some (left, w'))
      × (w'.host.sent
          ≡ record { to = w.host.out_addr; bytes = two }
            ∷ record { to = w.host.out_addr; bytes = one }
            ∷ w.host.sent)
      × (length one ≡ 1500)
      × (in_cksum (take 20 one) ≡ 0)
      × (in_cksum (take 20 two) ≡ 0)
      × (drop 20 one ≡ take 1480 (cleared (drop 20 buff)))
      × (drop 20 two ≡ cleared (take (bytes_read - 1500) (drop 1500 buff)))
  send_fragmented_message-clears = (
    one.packet,
    take 1500 one.packet,
    take (bytes_read - 1500 + 20) two.packet,
    after_two,
    send_fragmented_message_lem,
    refl,
    omega (arith, length-take 1500 one.packet, length-first buff bytes_read p long held id, held),
    ap in_cksum start ∙ one.verifies,
    ap (λ b. in_cksum (take 20 b)) whole ∙ two.verifies,
    drop-take 20 1500 one.packet (omega arith)
        ∙ ap (take 1480) (
            one.payload
            ∙ ap cleared (drop-measured buff bytes_read p long held id 20 (omega arith))),
    ap (drop 20) whole ∙ two.payload ∙ ap cleared (drop-resized buff bytes_read p long held id),
  )
    where
      whole : take (bytes_read - 1500 + 20) two.packet ≡ two.packet
      whole =
          take_all (bytes_read - 1500 + 20) two.packet
            (omega (arith, length-second buff bytes_read p long held id))

      start : take 20 (take 1500 one.packet) ≡ take 20 one.packet
      start =
          ap (take 20) (sym (append-nil (take 1500 one.packet)))
          ∙ take_within 20 1500 one.packet [] (omega arith)
              (omega (arith, length-first buff bytes_read p long held id))
