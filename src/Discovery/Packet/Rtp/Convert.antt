-- ===== src/Discovery/Packet/Rtp/Convert.antt =====
-- sqrkal_discovery/sqrkal_discovery.cpp: the conversions in `process_packet` between the RTP or SRTP
-- packet behind the 28 bytes of headers and an SRPP packet in its place.
use dionysius.Common.{ℕ, ◌+◌, ◌-◌, List, length, drop, ◌==◌, if◌then◌else◌, ℤ, is_negative}
use dionysius.Machine.{to_int, load_le32, read, write, distance}
use dionysius.Wire.{network_to_srpp, srpp_to_network}
use dionysius.World.{M, pure, ◌>>=◌, ◌>>◌, gets, lift}
use dionysius.Transport.{Library, stale_bytes, packet_size}
use dionysius.Convert.{srpp_to_rtp, srpp_to_srtp, rtp_to_srpp}
use dionysius.Convert.Network.{rtp_header_size, load_rtp_header, header_part, rtp_to_network}
use dionysius.Discovery.State.{host_gets, update_host}

-- `srpp_msg.network_to_srpp(buff + 28, bytes_read - 28, getKey())`.
pub load_srpp : List ℕ → ℕ → M ℤ
unfolding host_gets update_host
load_srpp buff bytes_read = do
  key ← gets (λ w. w.session.encryption_key)
  old ← host_gets (λ h. h.srpp_msg)
  loaded ← lift (network_to_srpp (drop 28 buff) (bytes_read - 28) (to_int key) old)
  update_host (λ h. record h { srpp_msg = loaded.1 })
  pure loaded.0

-- A packet with a new payload, and its size.
pub replace_payload : List ℕ → List ℕ → ℕ → M (List ℕ × ℕ)
replace_payload buff bytes size = do
  part ← lift (read bytes 0 size)
  packet ← lift (write buff 28 part)
  pure (packet, size + 28)

pub restore_rtp : List ℕ → ℕ → M (List ℕ × ℕ)
unfolding host_gets update_host
restore_rtp buff bytes_read = do
  status ← load_srpp buff bytes_read
  if is_negative status then pure (buff, bytes_read) else do
    msg ← host_gets (λ h. h.srpp_msg)
    (rtp, bare) ← srpp_to_rtp msg
    update_host (λ h. record h { srpp_msg = bare })
    let size = header_part rtp.rtp_header.cc + length bare.encrypted_part.original_payload
    rtp_buff ← stale_bytes (size + 10)
    stored ← lift (rtp_to_network rtp size rtp_buff)
    replace_payload buff stored size

-- The packet stays as it is where `srpp_to_srtp` meets a dummy.
pub restore_srtp : List ℕ → ℕ → M (List ℕ × ℕ)
unfolding host_gets update_host
restore_srtp buff bytes_read = do
  status ← load_srpp buff bytes_read
  if is_negative status then pure (buff, bytes_read) else do
    msg ← host_gets (λ h. h.srpp_msg)
    let size = length msg.encrypted_part.original_payload
    (code, (bytes, bare)) ← srpp_to_srtp msg size
    update_host (λ h. record h { srpp_msg = bare })
    if is_negative code then pure (buff, bytes_read) else replace_payload buff bytes size

-- The packet is padded: of RTP the payload starts at 40, of SRTP the whole packet, at 28, is taken.
pub apply_rtp : Library → ℕ → List ℕ → ℕ → M (List ℕ × ℕ)
unfolding update_host
apply_rtp lib from buff bytes_read = do
  header ← lift (read buff 28 rtp_header_size)
  update_host (λ h. if h.ssrc_value == 0 then record h { ssrc_value = load_le32 8 header } else h)
  n ← lift (distance from bytes_read)
  bytes ← lift (read buff from n)
  msg ← rtp_to_srpp lib (load_rtp_header header) bytes
  key ← gets (λ w. w.session.encryption_key)
  srpp_buff ← stale_bytes (packet_size msg + 10)
  stored ← lift (srpp_to_network lib.first_rand (to_int key) msg srpp_buff)
  update_host (λ h. record h { srpp_msg = stored.1 })
  replace_payload buff stored.0 (packet_size msg)
