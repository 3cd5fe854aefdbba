-- ===== src/World/Defs.antt =====
-- The state and its monad. What the environment decides, a `rand()`, a clock, a status of a system
-- call, a byte of memory that nothing has set, is the next of an arbitrary sequence of answers.
use dionysius.Common.{
  ℕ, suc, ◌+◌, ◌%◌, ◌^◌, List, Option, none, some, if◌then◌else◌, ◌==◌, ℤ, magnitude,
}
use dionysius.Machine.{to_unsigned}
use dionysius.Message.{SrppMessage, new_message}
use dionysius.Timer.{Timer, reset_packet, reset_silence}
use dionysius.World.Host.{Host}

-- The flags of the class `SignalingFunctions`, each 0 or 1.
pub record Signaling : Type 0 where
  pub hello_sent : ℕ
  pub hello_recvd : ℕ
  pub hello_ack_sent : ℕ
  pub hello_ack_recvd : ℕ
  pub bye_sent : ℕ
  pub bye_recvd : ℕ
  pub bye_ack_sent : ℕ
  pub bye_ack_recvd : ℕ
  pub signaling_complete : ℕ
  pub session_complete : ℕ

-- What the protocol reads of the class `SRPPSession`; the port is that of the sender's address.
pub record Session : Type 0 where
  pub encryption_key : ℕ
  pub maxpacketsize : ℤ
  pub sender_port : ℕ

-- The globals of Padding_Algorithms.cpp and the cache of the class `PaddingFunctions`.
pub record Padding : Type 0 where
  pub dummy_cache : List SrppMessage
  pub is_full_bandwidth : ℕ
  pub gradual_ascent_bandwidth : ℕ
  pub is_burst_padding : ℕ
  pub is_min_bin_padding : ℕ
  pub is_small_perturbation : ℕ
  pub lastmaxbandwidth : ℕ

-- What a call of `recvfrom` returns: an error, or a datagram with the port of its source. Every call
-- is taken to return.
pub data Arrival : Type 0 where
  failed : Arrival
  datagram : ℕ → List ℕ → Arrival

pub record World : Type 0 where
  pub signaling : Signaling
  pub session : Session
  pub timer : Timer
  pub padding : Padding
  pub last_sequence_no : ℕ
  pub rtp_sequence_no : ℕ
  pub maxpacketsize : ℤ
  pub srppssrc : ℕ
  pub nonsrpp_message_count : ℕ
  pub packet_to_send : ℕ
  pub srpp_enabled : ℕ
  pub signaling_by_srpp : ℕ
  pub send_external : ℕ
  pub receive_external : ℕ
  pub host : Host
  pub outbox : List (List ℕ)
  pub arrivals : ℕ → Arrival
  pub answers : ℕ → ℕ

-- `none` is undefined behaviour or an uncaught exception.
abbrev pub M : Type 0 → Type 0
M A = World → Option (A × World)

unfoldable pub pure : {A : Type 0} → A → M A
pure a w = some (a, w)

infixl 5 ◌>>=◌ ◌>>◌
unfoldable pub ◌>>=◌ : {A B : Type 0} → M A → (A → M B) → M B
◌>>=◌ m f w = elim (m w) [ none ↦ none | some (a, w') ↦ f a w' ]

unfoldable pub ◌>>◌ : {B : Type 0} → M (Unit {0}) → M B → M B
m >> k = m >>= λ _. k

unfoldable pub gets : {A : Type 0} → (World → A) → M A
gets f w = some (f w, w)

unfoldable pub modify : (World → World) → M (Unit {0})
modify f w = some (tt, f w)

unfoldable pub fault : {A : Type 0} → M A
fault w = none

-- What C leaves undefined where an access is out of bounds.
unfoldable pub lift : {A : Type 0} → Option A → M A
unfolding pure fault
lift none = fault
lift (some a) = pure a

-- The next answer of the environment.
unfoldable pub ask : M ℕ
ask w = some (w.answers 0, record w { answers = λ n. w.answers (suc n) })

-- The next result of `recvfrom`.
unfoldable pub next_arrival : M Arrival
next_arrival w = some (w.arrivals 0, record w { arrivals = λ n. w.arrivals (suc n) })

-- `srpp::srpp_rand(min, max)`: `rand() % max + min`, where C takes the remainder by a negative `max`
-- as by its magnitude. No caller passes a negative `min`.
unfoldable pub srpp_rand : ℕ → ℤ → M ℕ
unfolding ask
srpp_rand low limit =
    if magnitude limit == 0 then pure 0 else (ask >>= λ raw. pure (raw % magnitude limit + low))

-- The constructor `SRPPMessage()`: it takes the next sequence number and reads the clock.
unfoldable pub construct : M SrppMessage
unfolding ask
construct = do
  now ← ask
  stale ← ask
  number ← gets (λ w. w.last_sequence_no + 1)
  ssrc ← gets (λ w. w.srppssrc)
  modify (λ w. record w { last_sequence_no = number })
  pure (new_message number now ssrc (stale % 2 ^ 32))

-- `create_srpp_message(data)`.
unfoldable pub create_srpp_message : List ℕ → M SrppMessage
unfolding construct
create_srpp_message payload = do
  msg ← construct
  pure (record msg { encrypted_part = record msg.encrypted_part { original_payload = payload } })

-- `setKey(int)`.
unfoldable pub set_key : ℤ → M (Unit {0})
set_key key =
    modify λ w. record w { session = record w.session { encryption_key = to_unsigned key } }

-- `resetPacketTimer` and `resetSilenceTimer`.
unfoldable pub reset_packet_timer : M (Unit {0})
unfolding reset_packet
reset_packet_timer = modify λ w. record w { timer = reset_packet w.timer }

unfoldable pub reset_silence_timer : M (Unit {0})
unfolding reset_silence
reset_silence_timer = modify λ w. record w { timer = reset_silence w.timer }
