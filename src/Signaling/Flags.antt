-- ===== src/Signaling/Flags.antt =====
-- The well-formed states, and the steps that the classes of libSRPP share on them.
use dionysius.Common.{◌+◌, ℕ, zero, suc, ◌^◌, ◌<◌, ◌≤◌, List, [], ℤ, pos, negsuc, arith}
use dionysius.World.{
  World, Signaling, M, ◌>>=◌, ◌>>◌, modify, ask, srpp_rand, construct, create_srpp_message, set_key,
}
use dionysius.World.Invariants.{
  Preserves, Preserves-pure, Preserves-bind, Preserves-then, Preserves-modify, Preserves-ask,
  preserves_rules,
}
use dionysius.Transport.{stale_bytes}
use dionysius.Signaling.{update, set_signaling_complete}

-- Every flag is 0 or 1. A BYE ACK is noted as sent only if a BYE was sent or received, and a session
-- is complete only if a BYE ACK was received.
abbrev pub IsFlags : Signaling → Type 0
IsFlags s =
    (s.hello_sent ≤ 1)
    × (s.hello_recvd ≤ 1)
    × (s.hello_ack_sent ≤ 1)
    × (s.hello_ack_recvd ≤ 1)
    × (s.bye_sent ≤ 1)
    × (s.bye_recvd ≤ 1)
    × (s.bye_ack_sent ≤ 1)
    × (s.bye_ack_recvd ≤ 1)
    × (s.signaling_complete ≤ 1)
    × (s.session_complete ≤ 1)
    × (s.bye_ack_sent ≤ s.bye_recvd + s.bye_sent)
    × (s.session_complete ≤ s.bye_ack_recvd)

-- The flags are in order, and the key and the port fit their widths.
abbrev pub IsValid : World → Type 0
IsValid w =
    IsFlags w.signaling × (w.session.encryption_key < 2 ^ 32) × (w.session.sender_port < 2 ^ 16)

module _ {A B : Type 0} where
  pub bound :
      {m : M A} {f : A → M B}
      → Preserves IsValid m
      → ((a : A) → Preserves IsValid (f a))
      → Preserves IsValid (m >>= f)
  bound pm pf = Preserves-bind IsValid _ _ pm pf

pub followed :
    {B : Type 0} {m : M (Unit {0})} {k : M B}
    → Preserves IsValid m
    → Preserves IsValid k
    → Preserves IsValid (m >> k)
followed pm pk = Preserves-then IsValid _ _ pm pk

-- An update of the flags is valid if it keeps them in order.
Preserves-update :
    (f : Signaling → Signaling)
    → ((s : Signaling) → IsFlags s → IsFlags (f s))
    → Preserves IsValid (update f)
Preserves-update f keep = Preserves-modify IsValid _ (λ w h. (keep w.signaling h.0, h.1, h.2))

pub mark_bye_recvd : Preserves IsValid (update (λ s. record s { bye_recvd = 1 }))
mark_bye_recvd = Preserves-update _ (λ s h. omega arith)

pub mark_bye_ack_recvd : Preserves IsValid (update (λ s. record s { bye_ack_recvd = 1 }))
mark_bye_ack_recvd = Preserves-update _ (λ s h. omega arith)

pub mark_bye_sent : Preserves IsValid (update (λ s. record s { bye_sent = 1 }))
mark_bye_sent = Preserves-update _ (λ s h. omega arith)

pub mark_hello_ack_sent : Preserves IsValid (update (λ s. record s { hello_ack_sent = 1 }))
mark_hello_ack_sent = Preserves-update _ (λ s h. omega arith)

pub mark_hello_recvd : Preserves IsValid (update (λ s. record s { hello_recvd = 1 }))
mark_hello_recvd = Preserves-update _ (λ s h. omega arith)

pub mark_hello_ack_recvd : Preserves IsValid (update (λ s. record s { hello_ack_recvd = 1 }))
mark_hello_ack_recvd = Preserves-update _ (λ s h. omega arith)

pub mark_signaling_complete : Preserves IsValid (update (λ s. record s { signaling_complete = 1 }))
mark_signaling_complete = Preserves-update _ (λ s h. omega arith)

pub mark_hello_reset :
    Preserves IsValid (update (λ s. record s { hello_sent = 0; hello_ack_recvd = 0 }))
mark_hello_reset = Preserves-update _ (λ s h. omega arith)

pub mark_hello_sent : Preserves IsValid (update (λ s. record s { hello_sent = 1 }))
mark_hello_sent = Preserves-update _ (λ s h. omega arith)

pub ruleset flag_rules = (
  mark_bye_recvd, mark_bye_ack_recvd, mark_bye_sent, mark_hello_ack_sent, mark_hello_recvd,
  mark_hello_ack_recvd, mark_signaling_complete, mark_hello_reset, mark_hello_sent,
)

pub ask-Preserves : Preserves IsValid ask
ask-Preserves = Preserves-ask IsValid (λ w f h. h)

pub construct-Preserves : Preserves IsValid construct
unfolding construct
construct-Preserves = search (preserves_rules, ask-Preserves, number-Preserves) depth 20 fits 30000
  where
    number-Preserves : (n : ℕ) → Preserves IsValid (modify (λ w. record w { last_sequence_no = n }))
    number-Preserves n = Preserves-modify IsValid _ (λ w h. h)

pub create_srpp_message-Preserves :
    (payload : List ℕ) → Preserves IsValid (create_srpp_message payload)
unfolding create_srpp_message
create_srpp_message-Preserves payload = search (preserves_rules, construct-Preserves)

pub srpp_rand-Preserves : (low : ℕ) (limit : ℤ) → Preserves IsValid (srpp_rand low limit)
unfolding srpp_rand
srpp_rand-Preserves low limit = search (preserves_rules, ask-Preserves)

pub set_key-Preserves : (key : ℤ) → Preserves IsValid (set_key key)
unfolding set_key
set_key-Preserves (pos n) = Preserves-modify IsValid _ (λ w h. (h.0, omega arith, h.2))
set_key-Preserves (negsuc n) = Preserves-modify IsValid _ (λ w h. (h.0, omega arith, h.2))

pub stale_bytes-Preserves : (n : ℕ) → Preserves IsValid (stale_bytes n)
unfolding stale_bytes
stale_bytes-Preserves zero = Preserves-pure IsValid []
stale_bytes-Preserves (suc n) = Preserves-bind IsValid ask _ ask-Preserves (λ byte.
    Preserves-bind IsValid _ _ (stale_bytes-Preserves n) (λ rest. Preserves-pure IsValid _))

pub set_signaling_complete-Preserves : Preserves IsValid (set_signaling_complete 1)
unfolding set_signaling_complete
set_signaling_complete-Preserves = mark_signaling_complete
