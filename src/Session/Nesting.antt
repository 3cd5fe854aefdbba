-- ===== src/Session/Nesting.antt =====
-- The steps of SRPP_functions.cpp under two ways to receive that agree once the HELLO ACK was sent.
use dionysius.Common.{
  ℕ, zero, suc, List, [], Option, none, Bool, Bool-cases, true, inl, inr, if◌then◌else◌, ◌==◌, ℤ,
  pos, ◌≡◌, refl, subst, ◌∙◌, sym, arith, int_ltb,
}
use dionysius.Message.{SrppMessage}
use dionysius.World.{
  World, Arrival, failed, datagram, M, pure, ◌>>=◌, ◌>>◌, gets, modify, ask, create_srpp_message,
  construct, set_key,
}
use dionysius.World.Frames.{
  bind-some, Keeps, Keeps-nothing, Keeps-ask, Keeps-pure, Keeps-bind, Keeps-modify, Holds,
  keeps_rules,
}
use dionysius.World.Agreement.{
  Same, Same-refl, Same-if, Same-then, Same-bind, Same-first, same_rules,
}
use dionysius.Transport.{Library, is_signaling_buffer, stale_bytes}
use dionysius.Signaling.{
  update, hello_ack_barred, send_hello_ack_message, received_hello_message,
  received_hello_ack_message,
}
use dionysius.Session.Lost.{stop_session-disabled}
use dionysius.Session.{
  disable_srpp, lower_maxpacketsize, load_packet, stop_session, verify_signalling, handle_hello,
  handle_hello_ack, dispatch, accept, process_received_data, receive_arrival,
}

abbrev pub ack_sent : World → ℕ
ack_sent w = w.signaling.hello_ack_sent

abbrev pub IsOne : ℕ → Type 0
IsOne n = n ≡ 1

-- Two ways to receive that agree once the HELLO ACK was sent.
abbrev pub Agree : M (Option SrppMessage) → M (Option SrppMessage) → Type 0
Agree r r' = (v : World) → v.signaling.hello_ack_sent ≡ 1 → r v ≡ r' v

module _ (lib : Library) (r r' : M (Option SrppMessage)) where
  -- Once the HELLO ACK was sent, its sender does not receive.
  pub send_hello_ack_message-sent :
      Same ack_sent IsOne (send_hello_ack_message lib r) (send_hello_ack_message lib r')
  unfolding send_hello_ack_message gets
  send_hello_ack_message-sent = record {
    at = λ w e.
        bind-some (gets (λ v. v.signaling)) _ refl
        ∙ rw (barred w e) refl
        ∙ sym (bind-some (gets (λ v. v.signaling)) _ refl);
  }
    where
      barred : (w : World) → w.signaling.hello_ack_sent ≡ 1 → hello_ack_barred w.signaling ≡ true
      barred w e = ground arith

  module _ (same : Agree r r') where
    -- What the sender does behind `send_message`.
    abbrev finish : M (Option SrppMessage) → M ℤ
    finish receive =
        update (λ s. record s { hello_ack_sent = 1 })
        >> (gets (λ w. w.signaling.signaling_complete) >>= λ done.
            if done == 0 then (receive >>= λ _. pure (pos 0)) else pure (pos 0))

    received-agree : Same ack_sent IsOne r r'
    received-agree = record { at = same }

    finish-agree : Same (λ w. tt {0}) (λ _. Unit {0}) (finish r) (finish r')
    unfolding ◌>>◌ modify
    finish-agree = record {
      at = λ w _.
          bind-some (update (λ s. record s { hello_ack_sent = 1 })) _ refl
          ∙ rest.at (record w { signaling = record w.signaling { hello_ack_sent = 1 } }) refl
          ∙ sym (bind-some (update (λ s. record s { hello_ack_sent = 1 })) _ refl);
    }
      where
        rest :
            Same ack_sent IsOne
              (gets (λ w. w.signaling.signaling_complete) >>= λ done.
                if done == 0 then (r >>= λ _. pure (pos 0)) else pure (pos 0))
              (gets (λ w. w.signaling.signaling_complete) >>= λ done.
                if done == 0 then (r' >>= λ _. pure (pos 0)) else pure (pos 0))
        rest = search (same_rules, keeps_rules, received-agree) depth 20

    pub send_hello_ack_message-agree :
        Same
          (λ w. tt {0})
          (λ _. Unit {0})
          (send_hello_ack_message lib r)
          (send_hello_ack_message lib r')
    unfolding send_hello_ack_message
    send_hello_ack_message-agree = search (same_rules, Keeps-nothing, finish-agree) depth 20

abbrev pub part_of : {X : Type 0} → (ℕ → X) → World → X
part_of g w = g w.signaling.hello_ack_sent

module _ {X : Type 0} (g : ℕ → X) (P : X → Type 0) (lib : Library)
    (r r' : M (Option SrppMessage)) where
  stop_session-Same :
      Same (part_of g) P (disable_srpp >> stop_session lib r) (disable_srpp >> stop_session lib r')
  stop_session-Same = record {
    at = λ w _. stop_session-disabled lib r w ∙ sym (stop_session-disabled lib r' w);
  }

  stop_session-Keeps :
      (receive : M (Option SrppMessage))
      → Keeps (part_of g) (disable_srpp >> stop_session lib receive)
  stop_session-Keeps receive = record {
    at = λ w.
        subst (λ o. Holds o (λ w'. part_of g w' ≡ part_of g w))
          (sym (stop_session-disabled lib receive w)) refl;
  }

  verify_signalling-Keeps :
      (receive : M (Option SrppMessage)) (buff : List ℕ)
      → Keeps (part_of g) (verify_signalling lib receive buff)
  unfolding verify_signalling
  verify_signalling-Keeps receive buff =
      search (keeps_rules, stop_session-Keeps, Keeps-ask) depth 20

  verify_signalling-Same :
      (buff : List ℕ)
      → Same (part_of g) P (verify_signalling lib r buff) (verify_signalling lib r' buff)
  unfolding verify_signalling
  verify_signalling-Same buff = search (same_rules, keeps_rules, stop_session-Same) depth 20

  create-Keeps : Keeps (part_of g) (create_srpp_message [])
  unfolding create_srpp_message construct
  create-Keeps = search (keeps_rules, Keeps-ask) depth 20

  stale-Keeps : (n : ℕ) → Keeps (part_of g) (stale_bytes n)
  unfolding stale_bytes
  stale-Keeps zero = Keeps-pure (part_of g) []
  stale-Keeps (suc n) = Keeps-bind (part_of g) ask _ (Keeps-ask (part_of g) (λ w f. refl)) (λ byte.
      Keeps-bind (part_of g) (stale_bytes n) _ (stale-Keeps n) (λ rest. Keeps-pure (part_of g) _))

  signal-Keeps : (buff : List ℕ) → Keeps (part_of g) (is_signaling_buffer buff)
  unfolding is_signaling_buffer
  signal-Keeps buff = search keeps_rules

  lower_maxpacketsize-Keeps : (received : ℤ) → Keeps (part_of g) (lower_maxpacketsize received)
  unfolding lower_maxpacketsize
  lower_maxpacketsize-Keeps received = Keeps-modify (part_of g) _ (λ w.
      elim (Bool-cases (int_ltb received w.session.maxpacketsize)) [
        | inl less ↦ rw less refl
        | inr not_less ↦ rw not_less refl
      ])

  module _
      (ack : Same
        (part_of g)
        P
        (send_hello_ack_message lib r)
        (send_hello_ack_message lib r')) where
    received_hello_message-Same :
        Same (part_of g) P (received_hello_message lib r) (received_hello_message lib r')
    unfolding received_hello_message
    received_hello_message-Same = search (same_rules, keeps_rules, ack) depth 20

    received_hello_ack_message-Same :
        Same (part_of g) P (received_hello_ack_message lib r) (received_hello_ack_message lib r')
    unfolding received_hello_ack_message
    received_hello_ack_message-Same =
        Same-then (part_of g) P _ _ _ _ (search keeps_rules) (search same_rules) (
          Same-bind (part_of g) P _ _ _ _ (search keeps_rules) (search same_rules) (λ s.
            Same-then (part_of g) P _ _ _ _ (search keeps_rules) (search same_rules) (
              Same-first (part_of g) P _ _ _ (
                Same-if (part_of g) P (s.hello_ack_sent == 0) _ _ _ _ ack
                  (Same-refl (part_of g) P _)))))

    handle_hello-Same :
        (msg : SrppMessage) → Same (part_of g) P (handle_hello lib r msg) (handle_hello lib r' msg)
    unfolding handle_hello set_key
    handle_hello-Same msg =
        search (same_rules, keeps_rules, lower_maxpacketsize-Keeps, received_hello_message-Same)
          depth 20

    handle_hello_ack-Same :
        (msg : SrppMessage)
        → Same (part_of g) P (handle_hello_ack lib r msg) (handle_hello_ack lib r' msg)
    unfolding handle_hello_ack
    handle_hello_ack-Same msg =
        search (same_rules, lower_maxpacketsize-Keeps, received_hello_ack_message-Same) depth 20

    dispatch-Same :
        (msg : SrppMessage) → Same (part_of g) P (dispatch lib r msg) (dispatch lib r' msg)
    unfolding dispatch
    dispatch-Same msg = search (same_rules, handle_hello-Same, handle_hello_ack-Same) depth 20

    load_packet-Keeps :
        (buff : List ℕ) (bytes : ℕ) (key : ℤ) (blank : SrppMessage)
        → Keeps (part_of g) (load_packet buff bytes key blank)
    unfolding load_packet
    load_packet-Keeps buff bytes key blank = search keeps_rules

    accept-Same :
        (buff : List ℕ) (bytes : ℕ) (signal : Bool) (blank : SrppMessage)
        → Same
            (part_of g)
            P
            (accept lib r buff bytes signal blank)
            (accept lib r' buff bytes signal blank)
    unfolding accept
    accept-Same buff bytes signal blank =
        search (same_rules, keeps_rules, load_packet-Keeps, dispatch-Same) depth 20

    process_received_data-Same :
        (buff : List ℕ) (bytes : ℕ)
        → Same
            (part_of g)
            P
            (process_received_data lib r buff bytes)
            (process_received_data lib r' buff bytes)
    unfolding process_received_data
    process_received_data-Same buff bytes =
        search
          (
            same_rules, keeps_rules, create-Keeps, verify_signalling-Keeps, signal-Keeps,
            verify_signalling-Same, accept-Same,
          )
          depth 20

    pub receive_arrival-Same :
        (arrival : Arrival)
        → Same (part_of g) P (receive_arrival lib r arrival) (receive_arrival lib r' arrival)
    unfolding receive_arrival
    receive_arrival-Same failed = Same-refl (part_of g) P (pure none)
    receive_arrival-Same (datagram port bytes) =
        search (same_rules, keeps_rules, stale-Keeps, process_received_data-Same) depth 20
