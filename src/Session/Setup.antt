-- ===== src/Session/Setup.antt =====
-- libSRPP/src/SRPP_functions.cpp: what sets the library up.
use dionysius.World.{M, modify}
use dionysius.Padding.Cache.{new_padding_functions}
use dionysius.Padding.Algorithms.{set_options}

-- `init_SRPP`: the constructor fills the cache of dummies, which is static.
unfoldable pub init_srpp : M (Unit {0})
init_srpp = new_padding_functions

-- `setSendFunctor` and `setReceiveFunctor`; the functions are those of the environment.
unfoldable pub set_send_functor : M (Unit {0})
set_send_functor = modify λ w. record w { send_external = 1 }

unfoldable pub set_receive_functor : M (Unit {0})
set_receive_functor = modify λ w. record w { receive_external = 1 }

-- The setters of the options of padding. The one for the minimum probability bin sets the small
-- perturbation.
unfoldable pub set_full_bandwidth : M (Unit {0})
set_full_bandwidth = set_options 1

unfoldable pub set_burst_padding : M (Unit {0})
set_burst_padding = set_options 2

unfoldable pub set_gradual_ascent : M (Unit {0})
set_gradual_ascent = set_options 3

unfoldable pub set_min_prob_bin : M (Unit {0})
set_min_prob_bin = set_options 5

unfoldable pub set_small_perturbation : M (Unit {0})
set_small_perturbation = set_options 5
