-- ===== src/Tests/Padding.antt =====
-- The padding, the timers and the random numbers on concrete states.
use dionysius.Common.{
  ◌⊎◌, ◌<◌, ◌≤◌, ℕ, ◌+◌, ◌%◌, min, List, [], length, none, some, pos, ◌≡◌, refl, arith,
}
use dionysius.Message.{SrppMessage}
use dionysius.Timer.{start_packet}
use dionysius.World.{World}
use dionysius.Padding.Cache.{generate_dummy_pkt, generate_dummy_data}
use dionysius.Padding.Algorithms.{default_psp_pad_algo}
use dionysius.Padding.Dummies.{generate_dummy_pkt-bounds}
use dionysius.Padding.Filling.{IsFilled, Draws, generate_dummy_data-length}
use dionysius.Padding.Signals.{signals, signals-periodic, start_packet-missed}
use dionysius.Padding.FullBandwidth.{default_psp_pad_algo-full}
use dionysius.Tests.Data.{
  some_library, some_world, some_world-IsFilled, some_timer, signal_message, media_message,
}

-- Counters below their intervals.
abbrev running_world : World
running_world = record some_world { timer = record some_timer { packet_counter = 50 } }

signals-periodic_example :
    signals some_library 300 running_world
    ≡ some (
      tt,
      record running_world {
        timer = record running_world.timer {
          packet_counter = (50 + 300) % 300;
          silence_counter = (12 + 300) % 400;
        };
      },
    )
signals-periodic_example = signals-periodic some_library 300 running_world refl (record {
  packet = refl;
  silence = refl;
  packet_below = omega arith;
  silence_below = omega arith;
})

start_packet-missed_example :
    (w' : World) × (signals some_library 300 (record some_world { timer = start_packet some_timer })
      ≡ some (tt, w'))
    × (w'.timer.packet_counter ≡ 350 + 300)
    × (w'.outbox ≡ [])
start_packet-missed_example =
    start_packet-missed some_library 300 some_world refl (omega arith) (omega arith)

generate_dummy_pkt-bounds_example :
    (out : SrppMessage) × (w' : World) × (generate_dummy_pkt 2 some_world ≡ some (out, w'))
    × (0 < length out.encrypted_part.original_payload)
    × (length out.encrypted_part.original_payload + length out.encrypted_part.srpp_padding ≤ 2)
    × (length w'.padding.dummy_cache ≡ 100)
    × IsFilled w'.padding.dummy_cache
generate_dummy_pkt-bounds_example =
    generate_dummy_pkt-bounds 2 some_world (omega arith) refl some_world-IsFilled

some_world-Draws : Draws some_world media_message
some_world-Draws = (refl, omega arith)

generate_dummy_data-length_example :
    ((min 5 3 ≤ 24)
      × ((bytes : List ℕ) × (w' : World) × (generate_dummy_data (pos 5) some_world
            ≡ some (bytes, w'))
          × (length bytes ≡ 5)))
    ⊎ ((24 < min 5 3) × (generate_dummy_data (pos 5) some_world ≡ none))
generate_dummy_data-length_example =
    generate_dummy_data-length (pos 5) some_world media_message some_world-Draws

default_psp_pad_algo-full_example :
    ((min 1363 3 ≤ 24)
      × ((out : SrppMessage) × (w' : World) × (default_psp_pad_algo some_library signal_message
              some_world
            ≡ some (out, w'))
          × (out.encrypted_part.original_payload ≡ signal_message.encrypted_part.original_payload)
          × (length out.encrypted_part.srpp_padding ≡ 1363)
          × (out.encrypted_part.pad_count ≡ 1363)))
    ⊎ ((24 < min 1363 3) × (default_psp_pad_algo some_library signal_message some_world ≡ none))
default_psp_pad_algo-full_example =
    default_psp_pad_algo-full some_library signal_message some_world media_message
      (record { full = omega arith; not_gradual = refl; not_small = refl; not_burst = refl })
      some_world-Draws (omega arith)
