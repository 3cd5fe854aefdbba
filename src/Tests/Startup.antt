-- ===== src/Tests/Startup.antt =====
-- The start of the program, and the padding of a message, on concrete states.
use dionysius.Common.{some, ◌≡◌, refl, arith, ℤ}
use dionysius.Message.{SrppMessage}
use dionysius.World.{World}
use dionysius.Padding.Algorithms.{pad}
use dionysius.Padding.Padded.{IsReady, IsPadded, pad-IsPadded}
use dionysius.Discovery.Startup.{start_discovery, IsSetUp, start_discovery-IsSetUp}
use dionysius.Tests.Data.{some_library, some_world, some_world-IsFilled, media_message}

-- The gradual ascent together with small perturbations.
abbrev ascending : World
ascending = record some_world {
  padding = record some_world.padding {
    gradual_ascent_bandwidth = 1;
    is_small_perturbation = 1;
    lastmaxbandwidth = 100;
  };
}

pad-IsPadded_example :
    (out : SrppMessage) × (w' : World) × (pad some_library media_message ascending ≡ some (out, w'))
    × IsReady ascending w'
    × IsPadded media_message out
pad-IsPadded_example =
    pad-IsPadded some_library media_message ascending refl refl some_world-IsFilled

start_discovery-IsSetUp_example :
    (status : ℤ) × (w' : World) × (start_discovery some_world ≡ some (status, w'))
    × IsSetUp w'
    × (w'.host.is_discovering ≡ 1)
start_discovery-IsSetUp_example = start_discovery-IsSetUp some_world refl (omega arith)
