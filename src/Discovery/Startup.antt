-- ===== src/Discovery/Startup.antt =====
-- SQRKal.cpp, and sqrkal_discovery/sqrkal_discovery.cpp up to its main loop.
use dionysius.Common.{
  ℕ, ◌+◌, ◌%◌, ◌<◌, List, [], ◌∷◌, length, Bool, true, if◌then◌else◌, ◌==◌, ◌&&◌, ◌||◌, pos, ℤ,
  magnitude, codes, starts_with, some, ◌≡◌, refl,
}
use dionysius.World.{World, M, pure, ◌>>=◌, ◌>>◌, modify, ask}
use dionysius.World.Returns.{Returns, Returns-bind, Returns-known, Returns-then, Returns-modify}
use dionysius.Padding.Cache.{new_padding_functions}
use dionysius.Padding.Filling.{IsFilled}
use dionysius.Padding.Filled.{new_padding_functions-IsFilled}
use dionysius.Session.{create_session}
use dionysius.Session.Setup.{
  init_srpp, set_send_functor, set_receive_functor, set_full_bandwidth, set_burst_padding,
  set_gradual_ascent, set_min_prob_bin, set_small_perturbation,
}
use dionysius.Discovery.State.{update_host}
use dionysius.Discovery.Firewall.{add_all_rules}
use dionysius.Discovery.Firewall.Kept.{add_all_rules-returns}

-- `initialize_srpp`.
pub initialize_srpp : M (Unit {0})
initialize_srpp = do init_srpp; create_session; set_send_functor; set_receive_functor

-- The start of `discover_sessions`: the mark of the packets that SQRKal sends is drawn, the rules of
-- the firewall are added and libSRPP is set up.
pub start_discovery : M ℤ
unfolding update_host
start_discovery = do
  a ← ask
  b ← ask
  update_host (λ h. record h { srpp_ttl = 65 + a % 25 + b % 5 })
  status ← add_all_rules true true
  initialize_srpp
  update_host (λ h. record h { is_discovering = 1 })
  pure status

abbrev pub same_text : List ℕ → List ℕ → Bool
same_text xs ys = length xs == length ys && starts_with xs ys

-- The tests of `main` on its one argument, each in turn.
pub choose_padding : List ℕ → M (Unit {0})
choose_padding arg = do
  if same_text arg (codes "--full-bandwidth") || same_text arg (codes "-fb")
      then set_full_bandwidth
      else pure tt
  if same_text arg (codes "--burst-padding") || same_text arg (codes "-bp")
      then set_burst_padding
      else pure tt
  if same_text arg (codes "--gradual-ascent") || same_text arg (codes "-ga")
      then set_gradual_ascent
      else pure tt
  if same_text arg (codes "--min-prob-bin") || same_text arg (codes "-mpb")
      then set_min_prob_bin
      else pure tt
  if same_text arg (codes "--small-perturbation") || same_text arg (codes "-sp")
      then set_small_perturbation
      else pure tt

-- `main` on the arguments behind the name of the program, up to the main loop: 1 where it only prints
-- the usage.
pub main : List (List ℕ) → M ℤ
main (arg ∷ []) = do
  choose_padding arg
  if same_text arg (codes "--usage") then pure (pos 1) else (start_discovery >>= λ _. pure (pos 0))
main args = start_discovery >>= λ _. pure (pos 0)

-- Before the set-up: the array of 100 dummies, and a packet size other than 0.
abbrev CanFill : World → Type 0
CanFill w = (length w.padding.dummy_cache ≡ 100) × (0 < magnitude w.maxpacketsize)

-- What the set-up of libSRPP leaves: the array of 100 dummies that is filled, and both functors.
abbrev pub IsSetUp : World → Type 0
IsSetUp w =
    (length w.padding.dummy_cache ≡ 100)
    × IsFilled w.padding.dummy_cache
    × (w.session.encryption_key ≡ 1655)
    × (w.send_external ≡ 1)
    × (w.receive_external ≡ 1)

initialize_srpp-returns : (w : World) → CanFill w → Returns (initialize_srpp w) (λ _ u. IsSetUp u)
unfolding initialize_srpp init_srpp create_session set_send_functor set_receive_functor modify ask
    ◌>>=◌ ◌>>◌
initialize_srpp-returns w h =
    Returns-then _ new_padding_functions _ (new_padding_functions-IsFilled w h.0 h.1)
      (λ u k. (tt, _, refl, (k.0, k.1, refl, refl, refl)))

-- From an array of 100 dummies and for a packet size other than 0, whether the rules of the firewall
-- are added or not, the program gets to its main loop: it is discovering, the array of 100 dummies all
-- have a payload but for the last, the session has the key 1655 and both functors are set.
pub start_discovery-IsSetUp :
    (w : World)
    → length w.padding.dummy_cache ≡ 100
    → 0 < magnitude w.maxpacketsize
    → (status : ℤ) × (w' : World) × (start_discovery w ≡ some (status, w'))
      × IsSetUp w'
      × (w'.host.is_discovering ≡ 1)
unfolding start_discovery update_host ask modify pure
start_discovery-IsSetUp w size some_size =
    let r : Returns (start_discovery w) (λ _ u. IsSetUp u × (u.host.is_discovering ≡ 1)) =
      Returns-known ask _ refl (
        Returns-known ask _ refl (
          Returns-modify _ _ (
            Returns-bind (λ _ u. CanFill u) (add_all_rules true true) _
              (add_all_rules-returns CanFill (λ x g f k. k) true true _ (size, some_size))
              (λ status u k.
                Returns-then IsSetUp initialize_srpp _ (initialize_srpp-returns u k)
                  (λ x q. Returns-modify _ _ (status, _, refl, (q, refl))))))) in
    (r.0, r.1, r.2, r.3.0, r.3.1)
