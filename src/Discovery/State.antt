-- ===== src/Discovery/State.antt =====
-- The steps on the globals of sqrkal_discovery/sqrkal_discovery.cpp, and the functions of the C library
-- that the discovery calls.
use dionysius.Common.{ℕ, ◌%◌, ◌^◌, List, Bool, Option, ℤ}
use dionysius.Machine.{to_int}
use dionysius.World.{M, pure, ◌>>=◌, gets, modify, ask}
use dionysius.World.Host.{Host}

unfoldable pub host_gets : {A : Type 0} → (Host → A) → M A
unfolding gets
host_gets f = gets (λ w. f w.host)

unfoldable pub update_host : (Host → Host) → M (Unit {0})
unfolding modify
update_host f = modify λ w. record w { host = f w.host }

-- An `int` that the environment returns.
unfoldable pub ask_int : M ℤ
unfolding ask
ask_int = do status ← ask; pure (to_int (status % 2 ^ 32))

-- `inet_addr`, `inet_pton` and `gethostbyname` of a C string, and the addresses of the interfaces that
-- `SIOCGIFCONF` gives; addresses are words as the host loads them. `room` is the number of bytes from
-- the payload of a queued packet to the end of the array that `ipq_read` fills.
pub record Net : Type 0 where
  pub inet_addr : List ℕ → ℕ
  pub is_address : List ℕ → Bool
  pub resolve : List ℕ → Option ℕ
  pub interfaces : List ℕ
  pub room : ℕ
