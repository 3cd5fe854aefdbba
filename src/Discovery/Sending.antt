-- ===== src/Discovery/Sending.antt =====
-- sqrkal_discovery/sqrkal_discovery.cpp: `get_direction`, `send_raw_message`, `send_fragmented_message`
-- and the choice between the two.
pub mod Build
pub mod Raw
pub mod Checked
pub mod Fragments
pub mod Reassembly
pub mod Forward
use dionysius.Common.{
  ℕ, zero, suc, ◌+◌, ◌-◌, ◌*◌, ◌/◌, ◌%◌, ◌^◌, List, [], ◌∷◌, ◌++◌, length, take, drop, ltb, leb,
  ◌==◌, if◌then◌else◌, Bool, true, false, is_in, ℤ, pos, negsuc, Option, none, some,
}
use dionysius.Machine.{le16, le32, be16, read, write, load_le32}
use dionysius.World.{World, M, pure, ◌>>=◌, ◌>>◌, gets, modify, lift, fault}
use dionysius.World.Host.{Host, Datagram}
use dionysius.Discovery.State.{Net, host_gets, update_host, ask_int}
use dionysius.Discovery.Checksum.{form_checksums}
use dionysius.Discovery.Sending.Build.{ip_mtu, first_fragment, second_fragment}

-- `get_direction(ipHeader)`: whether the source is an address of this machine.
unfoldable pub get_direction : Net → ℕ → ℕ
get_direction net saddr = if is_in saddr net.interfaces then 1 else 0

-- `send_raw_message(buff, length)`; the length is not negative.
pub send_raw_message : List ℕ → ℕ → M ℤ
unfolding host_gets update_host ask_int
send_raw_message buff size = do
  to ← host_gets (λ h. h.out_addr)
  if to.sin_port == 0 then pure (negsuc 0) else if size == 0 then pure (negsuc 0) else do
    bytes ← lift (read buff 0 size)
    update_host (λ h. record h { sent = record { to = to; bytes = bytes } ∷ h.sent })
    ask_int

-- `send_fragmented_message(buff, bytes_read)`, for a packet longer than the MTU; the result is what the
-- packet in memory has become.
pub send_fragmented_message : List ℕ → ℕ → M (List ℕ)
unfolding host_gets update_host
send_fragmented_message buff bytes_read = do
  id ← host_gets (λ h. h.frag_id)
  update_host (λ h. record h { frag_id = h.frag_id + 1 })
  first ← lift (first_fragment ((15032 + id) % 2 ^ 16) buff)
  _ ← send_raw_message first ip_mtu
  second ← lift (second_fragment first bytes_read)
  _ ← send_raw_message second (bytes_read - ip_mtu + 20)
  pure first

-- How every packet is sent forward: in fragments, if it is longer than the MTU.
pub forward : List ℕ → ℕ → M (List ℕ)
forward buff bytes_read =
    if ltb ip_mtu bytes_read then send_fragmented_message buff bytes_read else (do
      summed ← lift (form_checksums buff)
      _ ← send_raw_message summed bytes_read
      pure summed)
