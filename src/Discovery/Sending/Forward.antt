-- ===== src/Discovery/Sending/Forward.antt =====
-- Packets that sqrkal_discovery.cpp rewrites in place and sends whole.
use dionysius.Common.{
  ℕ, ◌+◌, ◌<◌, ◌≤◌, List, length, take, drop, ltb, All, false, some, ◌≡◌, refl, ap, ◌∙◌, arith,
}
use dionysius.Machine.{write, patched, write-patched, length-patched, drop-patched}
use dionysius.Message.{IsByte}
use dionysius.World.{World, pure, lift}
use dionysius.World.Frames.{bind-some}
use dionysius.Discovery.Checksum.{form_checksums}
use dionysius.Discovery.Sending.{send_raw_message, forward}
use dionysius.Discovery.Sending.Raw.{sent_raw, send_raw_message_lem}
use dionysius.Discovery.Sending.Checked.{IsPacket, check, rewritten-IsPacket}

-- A packet whose headers were rewritten: the rest is as it was.
pub record Rewritten (buff packet : List ℕ) : Type 0 where
  pub is_packet : IsPacket packet
  pub size : length packet ≡ length buff
  pub behind : (m : ℕ) → 28 ≤ m → drop m packet ≡ drop m buff

pub unwritten : (buff : List ℕ) → IsPacket buff → Rewritten buff buff
unwritten buff p = record { is_packet = p; size = refl; behind = λ m h. refl }

module _ {buff : List ℕ} (packet : List ℕ) (r : Rewritten buff packet) (off : ℕ) (bs : List ℕ)
    (are_bytes : All IsByte bs) (inside : 0 < off) (headers : off + length bs ≤ 28)
    (some_bytes : 0 < length bs) where
  pub write-Rewritten : write packet off bs ≡ some (patched packet off bs)
  write-Rewritten = write-patched packet off bs (omega (arith, r.is_packet.room, headers))

  pub patched-Rewritten : Rewritten buff (patched packet off bs)
  patched-Rewritten = record {
    is_packet = rewritten-IsPacket packet off bs r.is_packet are_bytes inside headers some_bytes;
    size = length-patched packet off bs (omega (arith, r.is_packet.room, headers)) ∙ r.size;
    behind = λ m h.
        drop-patched packet off bs (omega (arith, r.is_packet.room, headers)) m
          (omega (arith, headers, h))
        ∙ r.behind m h;
  }

-- A packet of at most 1500 bytes is sent whole, with its checksums renewed.
pub forward_lem :
    (packet : List ℕ) (p : IsPacket packet) (n : ℕ) (w : World)
    → 0 < n
    → n ≤ 1500
    → n ≤ length packet
    → 0 < w.host.out_addr.sin_port
    → forward packet n w
      ≡ some ((check packet p).packet, sent_raw (take n (check packet p).packet) w)
unfolding forward lift pure
forward_lem packet p n w some_bytes short held port = rw whole (
    bind-some (lift (form_checksums packet)) _ (ap (λ o. lift o w) (check packet p).formed)
    ∙ bind-some (send_raw_message (check packet p).packet n) _ (
        send_raw_message_lem (check packet p).packet n w port some_bytes
          (omega (arith, held, (check packet p).size))))
  where
    whole : ltb 1500 n ≡ false
    whole = ground (arith, short)
