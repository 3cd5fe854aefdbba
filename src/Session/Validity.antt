-- ===== src/Session/Validity.antt =====
-- The operations of SRPP_functions.cpp on well-formed states.
use dionysius.Common.{
  ℕ, zero, suc, List, Option, none, Bool, Bool-cases, inl, inr, ◌==◌, ltb, ◌&&◌, not, ℤ, int_ltb,
  is_negative, arith,
}
use dionysius.Message.{SrppMessage}
use dionysius.World.{World, Arrival, failed, datagram, M, next_arrival}
use dionysius.World.Frames.{Holds}
use dionysius.World.Invariants.{
  Preserves, Preserves-pure, Preserves-fault, Preserves-lift, Preserves-gets, Preserves-if,
  Preserves-modify, preserves_rules,
}
use dionysius.Machine.{load_le32}
use dionysius.Wire.{load_header}
use dionysius.Transport.{is_one, is_signaling_message, Library, is_signaling_buffer}
use dionysius.Signaling.Flags.{
  IsValid, ask-Preserves, create_srpp_message-Preserves, set_key-Preserves, stale_bytes-Preserves,
  bound, followed, set_signaling_complete-Preserves,
}
use dionysius.Signaling.Answered.{
  received_bye_message-Preserves, received_bye_ack_message-Preserves,
}
use dionysius.Signaling.Kept.{
  send_bye_message-Preserves, received_hello_message-Preserves,
  received_hello_ack_message-Preserves, signaling-Preserves,
}
use dionysius.Sdp.{Sdp}
use dionysius.Session.{
  max_nonsrpp_messages, disable_srpp, enable_srpp, start_timers, pause_timers, lower_maxpacketsize,
  load_packet, stop_session, verify_signalling, handle_hello, handle_hello_ack, dispatch, accept,
  process_received_data, receive_arrival, receive_nested, receive_message, start_signaling,
  start_session, start_session_sdp,
}

disable_srpp-Preserves : Preserves IsValid disable_srpp
unfolding disable_srpp
disable_srpp-Preserves = Preserves-modify IsValid _ (λ w h. h)

enable_srpp-Preserves : Preserves IsValid enable_srpp
unfolding enable_srpp
enable_srpp-Preserves = Preserves-modify IsValid _ (λ w h. h)

start_timers-Preserves : Preserves IsValid start_timers
unfolding start_timers
start_timers-Preserves = Preserves-modify IsValid _ (λ w h. h)

pause_timers-Preserves : Preserves IsValid pause_timers
unfolding pause_timers
pause_timers-Preserves = Preserves-modify IsValid _ (λ w h. h)

lower_maxpacketsize-Preserves : (received : ℤ) → Preserves IsValid (lower_maxpacketsize received)
unfolding lower_maxpacketsize
lower_maxpacketsize-Preserves received = Preserves-modify IsValid _ (λ w h.
    elim (Bool-cases (int_ltb received w.session.maxpacketsize)) [
      | inl less ↦ rw less h
      | inr not_less ↦ rw not_less h
    ])

load_packet-Preserves :
    (buff : List ℕ) (bytes : ℕ) (key : ℤ) (blank : SrppMessage)
    → Preserves IsValid (load_packet buff bytes key blank)
unfolding load_packet
load_packet-Preserves buff bytes key blank = search preserves_rules

is_signaling_buffer-Preserves : (buff : List ℕ) → Preserves IsValid (is_signaling_buffer buff)
unfolding is_signaling_buffer
is_signaling_buffer-Preserves buff = search preserves_rules

ruleset session_rules = (
  preserves_rules, ask-Preserves, create_srpp_message-Preserves, set_key-Preserves,
  stale_bytes-Preserves, disable_srpp-Preserves, enable_srpp-Preserves, start_timers-Preserves,
  pause_timers-Preserves, lower_maxpacketsize-Preserves, load_packet-Preserves,
  is_signaling_buffer-Preserves,
)

module _ (lib : Library) (receive : M (Option SrppMessage))
    (received : Preserves IsValid receive) where
  stop_session-Preserves : Preserves IsValid (stop_session lib receive)
  unfolding stop_session
  stop_session-Preserves = followed pause_timers-Preserves (
      bound (Preserves-gets IsValid _) (λ enabled.
        Preserves-if IsValid (enabled == 0) _ _ (Preserves-pure IsValid _) (
          bound (Preserves-gets IsValid _) (λ in_band.
            bound
              (Preserves-if IsValid (in_band == 1) _ _
                (send_bye_message-Preserves lib receive received) (Preserves-pure IsValid _))
              (λ _. search preserves_rules)))))

  verify_signalling-Preserves :
      (buff : List ℕ) → Preserves IsValid (verify_signalling lib receive buff)
  unfolding verify_signalling
  verify_signalling-Preserves buff = bound (Preserves-gets IsValid _) (λ hello_sent.
      Preserves-if IsValid (hello_sent == 1) _ _
        (bound (Preserves-lift IsValid _) (λ header.
          Preserves-if IsValid
            (not (load_le32 76 header == 13) && not ((load_header header).pt == 124)) _ _
            (followed (Preserves-modify IsValid _ (λ w h. h)) (
              bound (Preserves-gets IsValid _) (λ count.
                Preserves-if IsValid (ltb max_nonsrpp_messages count) _ _
                  (followed disable_srpp-Preserves stop_session-Preserves)
                  (Preserves-pure IsValid _))))
            (bound ask-Preserves (λ n. Preserves-pure IsValid _))))
        (Preserves-pure IsValid _))

  handle_hello-Preserves : (msg : SrppMessage) → Preserves IsValid (handle_hello lib receive msg)
  unfolding handle_hello
  handle_hello-Preserves msg = followed (set_key-Preserves _) (
      followed (lower_maxpacketsize-Preserves _) (
        bound (received_hello_message-Preserves lib receive received)
          (λ _. Preserves-pure IsValid _)))

  handle_hello_ack-Preserves :
      (msg : SrppMessage) → Preserves IsValid (handle_hello_ack lib receive msg)
  unfolding handle_hello_ack
  handle_hello_ack-Preserves msg = followed (lower_maxpacketsize-Preserves _) (
      bound (received_hello_ack_message-Preserves lib receive received)
        (λ _. Preserves-pure IsValid _))

  dispatch-Preserves : (msg : SrppMessage) → Preserves IsValid (dispatch lib receive msg)
  unfolding dispatch
  dispatch-Preserves msg =
      search
        (
          session_rules, handle_hello-Preserves, handle_hello_ack-Preserves,
          received_bye_message-Preserves, received_bye_ack_message-Preserves,
        )
        depth 20

  accept-Preserves :
      (buff : List ℕ) (bytes : ℕ) (signal : Bool) (blank : SrppMessage)
      → Preserves IsValid (accept lib receive buff bytes signal blank)
  unfolding accept
  accept-Preserves buff bytes signal blank = bound (Preserves-gets IsValid _) (λ key.
      bound (load_packet-Preserves buff bytes _ blank) (λ msg.
        followed (Preserves-modify IsValid _ (λ w h. (h.0, h.1, omega arith))) (
          Preserves-if IsValid (is_one (is_signaling_message msg)) _ _
            (followed (dispatch-Preserves msg) (Preserves-pure IsValid _))
            (Preserves-pure IsValid _))))

  process_received_data-Preserves :
      (buff : List ℕ) (bytes : ℕ) → Preserves IsValid (process_received_data lib receive buff bytes)
  unfolding process_received_data
  process_received_data-Preserves buff bytes =
      search (session_rules, verify_signalling-Preserves, accept-Preserves) depth 20

  receive_arrival-Preserves :
      (arrival : Arrival) → Preserves IsValid (receive_arrival lib receive arrival)
  unfolding receive_arrival
  receive_arrival-Preserves failed = Preserves-pure IsValid none
  receive_arrival-Preserves (datagram port bytes) =
      followed (Preserves-modify IsValid _ (λ w h. (h.0, h.1, omega arith)))
        (bound (stale_bytes-Preserves _) (λ rest. process_received_data-Preserves _ _))

next_arrival-Preserves : Preserves IsValid next_arrival
unfolding next_arrival
next_arrival-Preserves = record { at = λ w h. h }

module _ (lib : Library) (processor : Preserves IsValid lib.receive_processor) where
  receive_nested-Preserves : (depth : ℕ) → Preserves IsValid (receive_nested lib depth)
  unfolding receive_nested
  receive_nested-Preserves zero = Preserves-fault IsValid
  receive_nested-Preserves (suc depth) = bound (Preserves-gets IsValid _) (λ external.
      Preserves-if IsValid (external == 1) _ _ processor (
        bound next_arrival-Preserves (
          receive_arrival-Preserves lib (receive_nested lib depth)
            (receive_nested-Preserves depth))))

  -- Whatever arrives, a call of `receive_message` that returns leaves a well-formed state, one whose
  -- flags
  -- are 0 or 1, with a BYE ACK noted as sent only if a BYE was sent or received and the session
  -- complete only if a BYE ACK was received, whose key is a word of 32 bits and whose port is one of
  -- 16, given that the function of `setReceiveFunctor` does.
  pub receive_message-Preserves : (w : World) → IsValid w → Holds (receive_message lib w) IsValid
  unfolding receive_message
  receive_message-Preserves w h = (receive_nested-Preserves 2).at w h

  -- Whatever arrives, calls of `start_session`, with the HELLO messages and the wait for an answer,
  -- and of `stop_session`, with the BYE message, that return leave a well-formed state, one whose
  -- flags
  -- are 0 or 1, with a BYE ACK noted as sent only if a BYE was sent or received and the session
  -- complete only if a BYE ACK was received, whose key is a word of 32 bits and whose port is one of
  -- 16, given that the function of `setReceiveFunctor` does.
  pub sessions-Preserve :
      (w : World)
      → IsValid w
      → Holds (start_session lib w) IsValid
        × Holds (stop_session lib (receive_message lib) w) IsValid
  unfolding start_session start_signaling receive_message
  sessions-Preserve w h = (
    (bound
          (bound (Preserves-gets IsValid _) (λ in_band.
            Preserves-if IsValid (in_band == 1) _ _
              (signaling-Preserves lib _ (receive_nested-Preserves 2)) (Preserves-pure IsValid _)))
          (λ status. Preserves-if IsValid (is_negative status) _ _ (Preserves-pure IsValid _) (
            followed start_timers-Preserves
              (followed enable_srpp-Preserves (Preserves-pure IsValid _))))).at
        w h,
    (stop_session-Preserves lib _ (receive_nested-Preserves 2)).at w h,
  )

  -- A call of `start_session` with a session description, of any key, that returns leaves a
  -- well-formed state, one whose flags
  -- are 0 or 1, with a BYE ACK noted as sent only if a BYE was sent or received and the session
  -- complete only if a BYE ACK was received, whose key is a word of 32 bits and whose port is one of
  -- 16, given that the function of `setReceiveFunctor` does.
  pub start_session_sdp-Preserves :
      (sdp : Sdp) (w : World) → IsValid w → Holds (start_session_sdp lib sdp w) IsValid
  unfolding start_session_sdp receive_message
  start_session_sdp-Preserves sdp w h =
      (followed (Preserves-modify IsValid _ (λ v k. k)) (
          Preserves-if IsValid (sdp.srpp_active == 0) _ _
            (followed disable_srpp-Preserves
              (stop_session-Preserves lib _ (receive_nested-Preserves 2)))
            (followed (set_key-Preserves sdp.key) (
              followed (Preserves-modify IsValid _ (λ v k. k)) (
                followed set_signaling_complete-Preserves (
                  followed enable_srpp-Preserves
                    (followed start_timers-Preserves (Preserves-pure IsValid _)))))))).at
        w h
