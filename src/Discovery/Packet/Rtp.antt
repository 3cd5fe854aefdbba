-- ===== src/Discovery/Packet/Rtp.antt =====
-- sqrkal_discovery/sqrkal_discovery.cpp: the RTP part of `process_packet`, and `start_SRPP`.
pub mod Convert
pub mod Plain
pub mod Incoming
use dionysius.Common.{
  ℕ, zero, suc, ◌+◌, ◌-◌, ◌*◌, ◌/◌, ◌%◌, ◌^◌, List, [], ◌∷◌, ◌++◌, length, take, drop, ltb, ◌==◌,
  if◌then◌else◌, Bool, true, false, not, ◌&&◌, ◌||◌, ℤ, pos, negsuc, is_negative, codes,
}
use dionysius.Machine.{
  le16, le32, be16, load_be16, load_le32, ntohs, to_unsigned, read, write, distance,
}
use dionysius.World.{World, M, pure, ◌>>=◌, ◌>>◌, gets, modify, lift}
use dionysius.World.Host.{Host, SocketAddress}
use dionysius.Transport.{Library, is_one, is_signaling_buffer}
use dionysius.Session.{
  start_session, stop_session, receive_message, disable_srpp, enable_srpp, process_received_data,
}
use dionysius.Discovery.State.{Net, host_gets, update_host, ask_int}
use dionysius.Discovery.Sending.{forward}
use dionysius.Discovery.Packet.Ports.{is_port}
use dionysius.Discovery.Packet.Rtp.Convert.{restore_rtp, restore_srtp, apply_rtp}

-- `htons` of an `int`, as `sin_port` holds it.
abbrev pub htons : ℤ → ℕ
htons port = ntohs (to_unsigned port % 2 ^ 16)

module _ (lib : Library) where
  -- `start_SRPP()`.
  pub start_srpp : M ℤ
  unfolding host_gets
  start_srpp = do
    _ ← start_session lib
    complete ← gets (λ w. w.signaling.signaling_complete)
    if complete == 0
        then (do disable_srpp; _ ← stop_session lib (receive_message lib); pure (negsuc 0))
        else (do
          enable_srpp
          modify (λ w. record w { last_sequence_no = load_be16 30 w.host.rtp_header })
          pure (pos 0))

  -- SRPP is applied from now on, if the session starts.
  pub try_srpp : Bool → M (Unit {0})
  unfolding update_host
  try_srpp begins =
      if begins
      then (do
        status ← start_srpp
        if is_negative status then pure tt else update_host (λ h. record h { apply_srpp = 1 }))
      else pure tt

-- The first 40 bytes of a packet are kept until those of an RTP packet are: `rtp_header[29] & 0x80 !=
-- 0x80` reads as `rtp_header[29] & (0x80 != 0x80)`, which is 0.
pub keep_header : List ℕ → M (Unit {0})
unfolding host_gets update_host
keep_header buff = do
  set ← host_gets (λ h. h.rtp_hdset)
  if set == 0 || set == 1
      then (do
        header ← lift (read buff 0 40)
        update_host (λ h. record h { rtp_header = header; rtp_hdset = 2 }))
      else pure tt

-- The fields that a forwarded packet gets, and the address that it goes to.
pub readdress : List ℕ → ℕ → ℕ → ℤ → ℕ → M (List ℕ)
unfolding host_gets
readdress buff bytes_read offset port daddr = do
  ttl ← host_gets (λ h. h.srpp_ttl)
  to_port ← lift (write buff (offset + 2) (be16 (to_unsigned port)))
  to_host ← lift (write to_port 16 (le32 daddr))
  sized ← lift (write to_host (offset + 4) (be16 (bytes_read - 20)))
  measured ← lift (write sized 2 (be16 bytes_read))
  lift (write measured 8 (ttl % 256 ∷ []))

pub send_on : List ℕ → ℕ → ℤ → ℕ → M (Unit {0})
unfolding update_host
send_on buff bytes_read port daddr = do
  update_host (λ h. record h { out_addr = record { sin_addr = daddr; sin_port = htons port } })
  _ ← forward buff bytes_read
  pure tt

module _ (lib : Library) (net : Net) where
  -- A packet that comes in.
  pub receive_rtp : List ℕ → ℕ → ℕ → ℕ → M ℤ
  unfolding host_gets update_host ask_int
  receive_rtp buff bytes_read offset source = do
    update_host (λ h. record h { rtp_dest = load_le32 12 buff; recv_count = h.recv_count + 1 })
    signal ← is_signaling_buffer (drop 28 buff)
    if is_one signal
        then (do
          _ ← process_received_data lib (receive_message lib) (drop 28 buff) (bytes_read - 28)
          pure tt)
        else pure tt
    keep_header buff
    begins ← host_gets (λ h.
        (not (is_port source h.outport) && h.apply_srpp == 0)
        || (h.recv_count == 1 && ltb h.sent_count 5))
    try_srpp lib begins
    applied ← host_gets (λ h. h.apply_srpp)
    srtp ← host_gets (λ h. h.is_srtp)
    restored ←
        (if applied == 1
          then (if srtp == 0 then restore_rtp buff bytes_read else restore_srtp buff bytes_read)
          else pure (buff, bytes_read))
    port ← host_gets (λ h. h.inport)
    daddr ← host_gets (λ h. if h.rtp_src == 0 then net.inet_addr (codes "127.0.0.1") else h.rtp_src)
    packet ← readdress restored.0 restored.1 offset port daddr
    send_on packet restored.1 port daddr
    ask_int

  -- A packet that goes out.
  pub send_rtp : List ℕ → ℕ → ℕ → M ℤ
  unfolding host_gets update_host ask_int
  send_rtp buff bytes_read offset = do
    update_host (λ h. record h { rtp_src = load_le32 12 buff })
    known ← host_gets (λ h. not (is_port 0 h.outport) && not (h.rtp_dest == 0))
    if not known then pure (pos 0) else do
      update_host (λ h. record h { sent_count = h.sent_count + 1 })
      begins ← host_gets (λ h. h.apply_srpp == 0 && h.sent_count == 1 && ltb 0 h.rtp_hdset)
      try_srpp lib begins
      applied ← host_gets (λ h. h.apply_srpp)
      padded ←
          (if applied == 1
            then (do
              update_host
                  (λ h. record h { input_packet_sizes = h.input_packet_sizes ++ bytes_read ∷ [] })
              srtp ← host_gets (λ h. h.is_srtp)
              apply_rtp lib (if srtp == 0 then 40 else 28) buff bytes_read)
            else pure (buff, bytes_read))
      update_host (λ h. record h { output_packet_sizes = h.output_packet_sizes ++ padded.1 ∷ [] })
      port ← host_gets (λ h. h.outport)
      daddr ← host_gets (λ h. h.rtp_dest)
      packet ← readdress padded.0 padded.1 offset port daddr
      keep_header packet
      send_on packet padded.1 port daddr
      ask_int
