-- ===== src/Timer.antt =====
-- libSRPP/src/srpp_timer.cpp: the two timers, driven by one 1 ms signal. The counters are C `int`s
-- that count milliseconds and are taken for natural numbers.
use dionysius.Common.{ℕ, ◌+◌, Bool, true, false, ◌==◌, ◌&&◌}

pub record Timer : Type 0 where
  pub packet_interval : ℕ
  pub silence_interval : ℕ
  pub packet_counter : ℕ
  pub silence_counter : ℕ
  pub packet_on : Bool
  pub silence_on : Bool

pub set_packet_timer : ℕ → Timer → Timer
set_packet_timer interval t = record t { packet_interval = interval }

pub set_silence_timer : ℕ → Timer → Timer
set_silence_timer interval t = record t { silence_interval = interval }

-- The constructor `SRPPTimer(packet, silence)`: it leaves the counters and the switches, which are
-- static, as they were, and arms the 1 ms signal.
unfoldable pub new_timer : ℕ → ℕ → Timer → Timer
unfolding set_packet_timer set_silence_timer
new_timer packet silence t = set_silence_timer silence (set_packet_timer packet t)

unfoldable pub start_packet : Timer → Timer
start_packet t = record t { packet_on = true }

unfoldable pub start_silence : Timer → Timer
start_silence t = record t { silence_on = true }

unfoldable pub pause_packet : Timer → Timer
pause_packet t = record t { packet_on = false }

unfoldable pub pause_silence : Timer → Timer
pause_silence t = record t { silence_on = false }

unfoldable pub reset_packet : Timer → Timer
reset_packet t = record t { packet_counter = 0 }

unfoldable pub reset_silence : Timer → Timer
reset_silence t = record t { silence_counter = 0 }

unfoldable pub pause_timer : Timer → Timer
pause_timer t = record t { packet_on = false; silence_on = false }

pub start_timer : Timer → Timer
start_timer t = record t { packet_on = true; silence_on = true }

-- `timer_fired` counts before it tests.
unfoldable pub count_tick : Timer → Timer
count_tick t = record t {
  packet_counter = t.packet_counter + 1;
  silence_counter = t.silence_counter + 1;
}

unfoldable pub packet_due : Timer → Bool
packet_due t = t.packet_counter == t.packet_interval && t.packet_on

unfoldable pub silence_due : Timer → Bool
silence_due t = t.silence_counter == t.silence_interval && t.silence_on
