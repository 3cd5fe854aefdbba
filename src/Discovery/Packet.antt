-- ===== src/Discovery/Packet.antt =====
-- sqrkal_discovery/sqrkal_discovery.cpp: `process_packet`, with `start_SRPP`.
pub mod Ports
pub mod Rtp
pub mod Calls
pub mod Outgoing
pub mod Incoming
use dionysius.Common.{
  ℕ, zero, suc, ◌+◌, ◌-◌, ◌*◌, ◌/◌, ◌%◌, ◌^◌, List, [], ◌∷◌, ◌++◌, length, take, drop, ltb, ◌==◌,
  if◌then◌else◌, Bool, true, false, not, ◌&&◌, ◌||◌, ℤ, pos, negsuc, is_negative, codes,
}
use dionysius.Machine.{
  le16, le32, be16, load_be16, load_le32, ntohs, to_unsigned, read, write, distance,
}
use dionysius.World.{World, M, pure, ◌>>=◌, ◌>>◌, gets, modify, lift}
use dionysius.World.Host.{Host, SocketAddress}
use dionysius.Transport.{Library}
use dionysius.Discovery.State.{Net, host_gets, update_host, ask_int}
use dionysius.Discovery.Sending.{get_direction, forward}
use dionysius.Discovery.Checksum.{header_words}
use dionysius.Discovery.Sip.{set_address, parse_sip}
use dionysius.Discovery.Packet.Ports.{is_listed}
use dionysius.Discovery.Packet.Rtp.{receive_rtp, send_rtp}

-- The two ports of a TCP or UDP header.
pub read_ports : List ℕ → ℕ → M (ℕ × ℕ)
read_ports buff offset = do
  ports ← lift (read buff offset 4)
  pure (load_be16 0 ports, load_be16 2 ports)

-- Whether the packet is one of SIP, or else one of RTP.
pub classify : ℕ → ℕ → M (Unit {0})
unfolding update_host is_listed
classify local remote = update_host λ h.
    if is_listed local remote h.sip_ports
    then record h { is_sip = 1; is_rtp = 0 }
    else if is_listed local remote h.rtp_ports
    then record h { is_sip = 0; is_rtp = 1 }
    else record h { is_sip = 0; is_rtp = 0 }

module _ (lib : Library) (net : Net) where
  abbrev pub localhost : ℕ
  localhost = net.inet_addr (codes "127.0.0.1")

  -- A SIP packet is sent on from port 5060 with the mark in its time to live.
  pub pass_sip : List ℕ → ℕ → ℕ → ℕ → M (List ℕ)
  unfolding host_gets update_host
  pass_sip buff bytes_read offset direction = do
    if direction == 0 then update_host (set_address localhost) else pure tt
    to ← host_gets (λ h. h.out_addr)
    ttl ← host_gets (λ h. h.srpp_ttl)
    from_sip ← lift (write buff offset (be16 5060))
    to_server ← lift (write from_sip (offset + 2) (le16 to.sin_port))
    addressed ← lift (write to_server 16 (le32 to.sin_addr))
    marked ← lift (write addressed 8 (ttl % 256 ∷ []))
    done ← forward marked bytes_read
    if direction == 0 then update_host (set_address (load_le32 12 done)) else pure tt
    pure done

  -- A SIP packet is parsed and sent on. The offset is moved behind the UDP header for the text, and
  -- back only if the packet is sent.
  pub handle_sip : List ℕ → ℕ → ℕ → ℕ → M (List ℕ × ℕ)
  unfolding host_gets update_host
  handle_sip buff bytes_read offset direction = do
    n ← lift (distance (offset + 8) bytes_read)
    text ← lift (read buff (offset + 8) n)
    result ← parse_sip lib net text direction
    to ← host_gets (λ h. h.out_addr)
    passed ←
        (if not (to.sin_port == 0) && not (is_negative result)
          then (do done ← pass_sip buff bytes_read offset direction; pure (done, offset))
          else pure (buff, offset + 8))
    unset ← host_gets (λ h. h.rtp_hdset == 0)
    if unset
        then (do
          header ← lift (read passed.0 0 28)
          update_host
              (λ h. record h { rtp_header = header ++ drop 28 h.rtp_header; rtp_hdset = 1 }))
        else pure tt
    pure passed

  -- What follows the headers. The end of the function returns nothing.
  pub process_media : List ℕ → ℕ → ℕ → ℕ → ℕ → M ℤ
  unfolding host_gets ask_int
  process_media buff bytes_read offset direction source = do
    sip ← host_gets (λ h. h.is_sip)
    rtp ← host_gets (λ h. h.is_rtp)
    if sip == 0 && rtp == 0 then pure (pos 0) else do
      passed ←
          (if sip == 1 then handle_sip buff bytes_read offset direction else pure (buff, offset))
      media ← host_gets (λ h. h.is_rtp)
      if media == 1
          then (if direction == 0
              then receive_rtp lib net passed.0 bytes_read passed.1 source
              else send_rtp lib net passed.0 bytes_read passed.1)
          else ask_int

  -- `process_packet(buff, bytes_read)`.
  pub process_packet : List ℕ → ℕ → M ℤ
  unfolding update_host get_direction
  process_packet buff bytes_read = if ltb bytes_read 28 then pure (negsuc 0) else do
    header ← lift (read buff 0 20)
    let offset = 4 * header_words header
    let protocol = load_be16 8 header % 256
    if not (protocol == 17) && not (protocol == 6) then pure (pos 0) else do
      ports ← read_ports buff offset
      update_host (λ h. record h { is_udp = if protocol == 17 then 1 else 0 })
      let direction = get_direction net (load_le32 12 header)
      classify (if direction == 0 then ports.1 else ports.0)
          (if direction == 0 then ports.0 else ports.1)
      process_media buff bytes_read offset direction ports.0
