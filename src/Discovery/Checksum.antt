-- ===== src/Discovery/Checksum.antt =====
-- sqrkal_discovery/sqrkal_discovery.cpp: `in_cksum`, `in_cksum_udp` and `form_checksums`.
pub mod Reference
pub mod Header
pub mod Payload
use dionysius.Common.{
  ℕ, ◌+◌, ◌-◌, ◌*◌, ◌/◌, ◌%◌, List, [], ◌∷◌, ◌++◌, Option, none, some, length, get_or, ◌>>=◌, leb,
  if◌then◌else◌,
}
use dionysius.Machine.{le16, le32, be16, read, write}

-- The loop `while (nleft > 1) { sum += *w++; nleft -= 2; }` with the odd byte behind it. The `int`
-- holds the sum of up to 65535 bytes.
pub sum_words : ℕ → List ℕ → ℕ
sum_words sum [] = sum
sum_words sum (a ∷ []) = sum + a
sum_words sum (a ∷ b ∷ rest) = sum_words (sum + (a + b * 256)) rest

-- The two additions that fold the sum to 16 bits, and `~`.
unfoldable pub fold_sum : ℕ → ℕ
fold_sum sum = let once = sum / 65536 + sum % 65536 in 65535 - (once + once / 65536) % 65536

-- `in_cksum(addr, len)` of the `len` bytes at the address.
unfoldable pub in_cksum : List ℕ → ℕ
unfolding fold_sum
in_cksum bytes = fold_sum (sum_words 0 bytes)

-- `sizeof(IP_Header)`.
abbrev pub ip_header_size : ℕ
ip_header_size = 20

-- `struct psd_udp` up to its array of 2048 bytes, which the datagram is copied into.
pub in_cksum_udp : ℕ → ℕ → List ℕ → Option ℕ
in_cksum_udp src dst bytes =
    if leb (length bytes) 2048
    then some (in_cksum (le32 src ++ (le32 dst ++ (0 ∷ 17 ∷ (be16 (length bytes) ++ bytes)))))
    else none

-- `ihl`, the lower half of the first byte.
abbrev pub header_words : List ℕ → ℕ
header_words buff = get_or buff 0 0 % 16

-- `form_checksums`: the checksum of the IP header is renewed, that of UDP is cleared.
pub form_checksums : List ℕ → Option (List ℕ)
form_checksums buff = do
  cleared ← write buff 10 (le16 0)
  header ← read cleared 0 ip_header_size
  summed ← write cleared 10 (le16 (in_cksum header))
  write summed (4 * header_words buff + 6) (le16 0)
