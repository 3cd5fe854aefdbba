-- ===== src/Discovery/Packet/Calls.antt =====
-- Which ports `process_packet` of sqrkal_discovery.cpp takes for those of RTP.
use dionysius.Common.{ℕ, List, [], ◌∷◌, Bool, true, false, ◌||◌, ℤ, ◌≡◌, refl, ap}
use dionysius.Discovery.Packet.Ports.{is_port, is_listed}

-- The ports that calls add to `rtp_ports`: this end's and the other end's.
abbrev pub call_ports : List (ℤ × ℤ) → List ℤ
call_ports [] = []
call_ports ((inport, outport) ∷ calls) = inport ∷ outport ∷ call_ports calls

-- One of the two ports is that of the other end of some call.
pub is_other_end : ℕ → ℕ → List (ℤ × ℤ) → Bool
is_other_end local remote [] = false
is_other_end local remote ((inport, outport) ∷ calls) =
    (is_port local outport || is_port remote outport) || is_other_end local remote calls

or_false : (b : Bool) → b ≡ (b || false)
or_false true = refl
or_false false = refl

module _ (local remote : ℕ) where
  -- Of the ports of the calls, behind the one that `rtp_ports` begins with, only those of the other
  -- ends are compared: a port of this end is never found.
  pub is_listed-call_ports :
      (first : ℤ) (calls : List (ℤ × ℤ))
      → is_listed local remote (first ∷ call_ports calls)
        ≡ ((is_port local first || is_port remote first) || is_other_end local remote calls)
  unfolding is_listed is_other_end
  is_listed-call_ports first [] = or_false (is_port local first || is_port remote first)
  is_listed-call_ports first ((inport, outport) ∷ calls) =
      ap (λ b. (is_port local first || is_port remote first) || b)
        (is_listed-call_ports outport calls)
