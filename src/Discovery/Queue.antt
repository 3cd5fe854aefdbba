-- ===== src/Discovery/Queue.antt =====
-- sqrkal_discovery/sqrkal_discovery.cpp: the functors that libSRPP is given, and the main loop.
use dionysius.Common.{
  none, ℕ, zero, suc, ◌+◌, ◌-◌, ◌/◌, ◌%◌, ◌^◌, List, [], ◌∷◌, ◌++◌, length, get_or, take, drop,
  ◌==◌, if◌then◌else◌, not, ◌&&◌, ℤ, negsuc, is_negative, Option, some,
}
use dionysius.Machine.{be16, be32, le32, load_be32, load_le16, to_unsigned, read, write}
use dionysius.Message.{SrppMessage}
use dionysius.World.{
  ask, M, failed, datagram, pure, ◌>>=◌, ◌>>◌, gets, lift, fault, next_arrival, construct,
}
use dionysius.World.Host.{Host, SocketAddress}
use dionysius.Transport.{Library, is_one, is_signaling_buffer, stale_bytes}
use dionysius.Session.{receive_message, process_received_data}
use dionysius.Discovery.State.{Net, host_gets, update_host, ask_int}
use dionysius.Discovery.Checksum.{form_checksums}
use dionysius.Discovery.Packet.{process_packet}
use dionysius.Discovery.Packet.Rtp.{htons}

abbrev pub buffer_size : ℕ
buffer_size = 2048

-- The fields of the IP and UDP headers of a packet that SRPP sends.
pub fill_headers : Host → ℕ → List ℕ → M (List ℕ)
fill_headers h size point = do
  a ← lift (write point 0 (take 28 h.rtp_header))
  b ← lift (write a 20 (be16 (to_unsigned h.inport)))
  c ← lift (write b 22 (be16 (to_unsigned h.outport)))
  d ← lift (write c 16 (le32 h.rtp_dest))
  e ← lift (write d 12 (le32 h.rtp_src))
  f ← lift (write e 24 (be16 (size + 8)))
  g ← lift (write f 2 (be16 (size + 28)))
  lift (write g 8 (h.srpp_ttl % 256 ∷ []))

-- The RTP header that was kept replaces that of the packet, but for the payload type of a signaling
-- message.
pub cover_header : Host → List ℕ → List ℕ → M (List ℕ)
cover_header h buff point =
    if h.rtp_hdset == 2 && not (load_le16 28 h.rtp_header / 64 % 4 == 0)
    then (do
      covered ← lift (write point 28 (take 12 (drop 28 h.rtp_header)))
      if get_or buff 1 0 == 124 then lift (write covered 29 (124 ∷ [])) else pure covered)
    else pure point

-- The kept header gets the number, the time and the source for the next packet.
pub advance_header : ℕ → Host → M (List ℕ)
advance_header number h = do
  a ← lift (write h.rtp_header 30 (be16 number))
  b ← lift (write a 32 (be32 ((load_be32 32 h.rtp_header + 20) % 2 ^ 32)))
  if h.ssrc_value == 0 then pure b else lift (write b 36 (be32 h.ssrc_value))

-- `send_rtp_message(buff, length)`, which ends the program if no header was kept.
pub send_rtp_message : List ℕ → ℕ → M ℤ
unfolding host_gets update_host ask_int
send_rtp_message buff size = if size == 0 then pure (negsuc 0) else do
  h ← host_gets (λ h. h)
  if h.rtp_hdset == 0 then fault else do
    point ← stale_bytes buffer_size
    headed ← fill_headers h size point
    bytes ← lift (read buff 0 size)
    filled ← lift (write headed 28 bytes)
    covered ← cover_header h buff filled
    number ← gets (λ w. w.last_sequence_no)
    next ← advance_header number h
    update_host (λ h. record h { rtp_header = next })
    summed ← lift (form_checksums covered)
    packet ← lift (read summed 0 (size + 28))
    update_host (λ h.
        let to : SocketAddress = record { sin_addr = h.rtp_dest; sin_port = htons h.outport } in
        record h { out_addr = to; sent = record { to = to; bytes = packet } ∷ h.sent })
    ask_int

-- The memory from the payload of a queued packet on.
pub packet_memory : Net → List ℕ → M (List ℕ)
packet_memory net bytes = do rest ← stale_bytes (net.room - length bytes); pure (bytes ++ rest)

-- A queued packet that was taken off the queue: a signaling message is processed by libSRPP, any other
-- as a packet. `none` is the result of a function that ends without a `return`.
pub take_packet : Library → Net → List ℕ → SrppMessage → M (Option SrppMessage)
take_packet lib net bytes dummy = do
  memory ← packet_memory net bytes
  signal ← is_signaling_buffer (drop 28 memory)
  if is_one signal
      then process_received_data lib (receive_message lib) (drop 28 memory) (length bytes - 28)
      else (do _ ← process_packet lib net memory (length bytes); pure (some dummy))

-- `receive_rtp_message()`. The calls nest: this function, libSRPP, and this function again; the fuel
-- counts how deep.
pub receive_rtp_message : Library → Net → ℕ → M (Option SrppMessage)
unfolding ask_int
receive_rtp_message lib net zero = fault
receive_rtp_message lib net (suc depth) =
    let inner = record lib { receive_processor = receive_rtp_message lib net depth } in
    construct >>= λ dummy. next_arrival >>= λ arrival. elim arrival [
      | failed ↦ pure (some dummy)
      | datagram port bytes ↦
          if length bytes == 0
          then pure (some dummy)
          else (ask_int >>= λ verdict.
              if is_negative verdict then pure (some dummy) else take_packet inner net bytes dummy)
    ]

-- A packet in the buffer: it is dropped from the queue and processed.
pub handle_packet : Library → Net → List ℕ → M (Unit {0})
unfolding ask_int
handle_packet lib net bytes = if length bytes == 0 then pure tt else do
  verdict ← ask_int
  if is_negative verdict then pure tt else do
    memory ← packet_memory net bytes
    _ ← process_packet lib net memory (length bytes)
    pure tt

-- What the buffer holds after `ipq_read` failed, the last packet or a part of one, is arbitrary: its
-- kind, then its size and bytes.
pub stale_packet : Net → M (Option (List ℕ))
stale_packet net = do
  is_packet ← ask
  if is_packet == 0
      then pure none
      else do size ← ask; bytes ← stale_bytes (size % (net.room + 1)); pure (some bytes)

-- One round of the loop of `discover_sessions`; it goes on with the buffer though `ipq_read` failed.
pub discovery_round : Library → Net → M (Unit {0})
discovery_round lib net = do
  arrival ← next_arrival
  packet ← elim arrival [ failed ↦ stale_packet net | datagram port bytes ↦ pure (some bytes) ]
  elim packet [ none ↦ pure tt | some bytes ↦ handle_packet lib net bytes ]
