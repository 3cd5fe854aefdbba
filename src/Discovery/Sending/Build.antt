-- ===== src/Discovery/Sending/Build.antt =====
-- The fragments that `send_fragmented_message` of sqrkal_discovery.cpp builds in memory.
use dionysius.Common.{ℕ, ◌+◌, ◌-◌, List, ◌++◌, Option, ◌>>=◌}
use dionysius.Machine.{le16, be16, read, write}
use dionysius.Discovery.Checksum.{form_checksums}

abbrev pub ip_mtu : ℕ
ip_mtu = 1500

-- `frag_off` in the network's order, and `tot_len` in the host's.
unfoldable pub set_fragment : ℕ → ℕ → List ℕ → Option (List ℕ)
set_fragment frag_off tot_len buff = do b ← write buff 6 (be16 frag_off); write b 2 (le16 tot_len)

-- The first fragment, as the packet is left in memory.
unfoldable pub first_fragment : ℕ → List ℕ → Option (List ℕ)
first_fragment id buff = do
  b ← write buff 4 (be16 id)
  c ← set_fragment 8192 ip_mtu b
  form_checksums c

-- The second fragment: a copy of the first 20 bytes and of what the first one did not carry.
unfoldable pub second_fragment : List ℕ → ℕ → Option (List ℕ)
second_fragment buff bytes_read = do
  header ← read buff 0 20
  rest ← read buff ip_mtu (bytes_read - ip_mtu)
  b ← set_fragment 185 (bytes_read - ip_mtu + 20) (header ++ rest)
  form_checksums b
