-- ===== src/Session/Depth.antt =====
-- How deep the calls of `receive_message` in SRPP_functions.cpp nest.
use dionysius.Common.{ℕ, suc, ◌==◌, ◌≡◌, refl}
use dionysius.World.{World, next_arrival}
use dionysius.World.Frames.{Keeps, keeps_rules}
use dionysius.World.Agreement.{Same, Same-refl, Same-if, Same-bind, same_rules}
use dionysius.Transport.{Library}
use dionysius.Signaling.{send_hello_ack_message}
use dionysius.Session.{receive_nested, receive_message}
use dionysius.Session.Nesting.{
  Agree, IsOne, part_of, send_hello_ack_message-sent, send_hello_ack_message-agree,
  receive_arrival-Same,
}

next_arrival-Keeps : {X : Type 0} (g : ℕ → X) → Keeps (part_of g) next_arrival
unfolding next_arrival
next_arrival-Keeps g = record { at = λ w. refl }

module _ {X : Type 0} (g : ℕ → X) (P : X → Type 0) (lib : Library) (d e : ℕ) where
  -- One more call, where the sender of the HELLO ACK does the same at both depths.
  receive_nested-Same :
      Same
        (part_of g)
        P
        (send_hello_ack_message lib (receive_nested lib d))
        (send_hello_ack_message lib (receive_nested lib e))
      → Same (part_of g) P (receive_nested lib (suc d)) (receive_nested lib (suc e))
  unfolding receive_nested
  receive_nested-Same ack =
      Same-bind (part_of g) P _ _ _ _ (search keeps_rules) (search same_rules) (λ external.
        Same-if (part_of g) P (external == 1) _ _ _ _ (Same-refl (part_of g) P _) (
          Same-bind (part_of g) P _ _ _ _ (next_arrival-Keeps g) (search same_rules)
            (receive_arrival-Same g P lib (receive_nested lib d) (receive_nested lib e) ack)))

-- The fuel of `receive_message`, which counts how deep its calls nest, is enough: with any
-- greater fuel it does the same in every state.
pub receive_message-fuel :
    (lib : Library) (more : ℕ) (w : World)
    → receive_nested lib (suc (suc more)) w ≡ receive_message lib w
unfolding receive_message
receive_message-fuel lib more w =
    (receive_nested-Same (λ n. tt {0}) (λ _. Unit {0}) lib (suc more) 1
        (send_hello_ack_message-agree lib _ _ agree)).at
      w tt
  where
    agree : Agree (receive_nested lib (suc more)) (receive_nested lib 1)
    agree = (receive_nested-Same (λ n. n) IsOne lib more 0 (send_hello_ack_message-sent lib _ _)).at
