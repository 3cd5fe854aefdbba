-- ===== src/Discovery/Packet/Ports.antt =====
-- sqrkal_discovery/sqrkal_discovery.cpp: the search for a port in `process_packet`.
use dionysius.Common.{ℕ, List, [], ◌∷◌, Bool, false, ◌||◌, ◌==◌, ℤ, pos, negsuc}

abbrev pub is_port : ℕ → ℤ → Bool
is_port port (pos n) = port == n
is_port port (negsuc n) = false

-- The loops `for (i = 0; i < ports.size(); i++)`, whose body ends with a second `i++`.
unfoldable pub is_listed : ℕ → ℕ → List ℤ → Bool
is_listed local remote [] = false
is_listed local remote (p ∷ []) = is_port local p || is_port remote p
is_listed local remote (p ∷ q ∷ rest) =
    (is_port local p || is_port remote p) || is_listed local remote rest
