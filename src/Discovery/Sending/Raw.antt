-- ===== src/Discovery/Sending/Raw.antt =====
-- What `send_raw_message` of sqrkal_discovery.cpp sends.
use dionysius.Common.{
  ℕ, suc, ◌%◌, ◌^◌, ◌<◌, ◌≤◌, List, ◌∷◌, length, take, some, ◌≡◌, arith, ==-zero,
}
use dionysius.Machine.{to_int, read_lem}
use dionysius.World.{World, pure, ◌>>=◌, ◌>>◌, gets, modify, lift, ask}
use dionysius.Discovery.State.{host_gets, update_host, ask_int}
use dionysius.Discovery.Sending.{send_raw_message}

-- The state after a datagram was sent; one answer of the environment is used.
abbrev pub sent_raw : List ℕ → World → World
sent_raw bytes w = record w {
  host = record w.host { sent = record { to = w.host.out_addr; bytes = bytes } ∷ w.host.sent };
  answers = λ n. w.answers (suc n);
}

pub send_raw_message_lem :
    (buff : List ℕ) (size : ℕ) (w : World)
    → 0 < w.host.out_addr.sin_port
    → 0 < size
    → size ≤ length buff
    → send_raw_message buff size w
      ≡ some (to_int (w.answers 0 % 2 ^ 32), sent_raw (take size buff) w)
unfolding send_raw_message host_gets update_host ask_int gets modify lift ask pure ◌>>=◌ ◌>>◌
send_raw_message_lem buff size w port some_size fits =
    rw (==-zero w.host.out_addr.sin_port port, ==-zero size some_size)
      (rw (read_lem buff 0 size (omega (arith, fits))))
