-- ===== src/Signaling/Kept.antt =====
-- The senders and handlers of Signaling_functions.hpp on well-formed states.
use dionysius.Common.{
  ℕ, zero, suc, List, ◌∷◌, Option, Bool, true, if◌then◌else◌, length, ◌==◌, ◌||◌, not, pos, negsuc,
}
use dionysius.Message.{SrppMessage}
use dionysius.World.{Signaling, M, pure, ◌>>=◌, ◌>>◌, gets, modify, construct}
use dionysius.World.Invariants.{
  Preserves, Preserves-pure, Preserves-gets, Preserves-if, Preserves-bind, Preserves-then,
  Preserves-modify, preserves_rules,
}
use dionysius.Transport.{Library, build_packet, send_message}
use dionysius.Signaling.{
  update, hello_barred, hello_ack_barred, await, send_bye_message, send_hello_ack_message,
  received_hello_message, received_hello_ack_message, hello_rounds, send_hello_message, signaling,
}
use dionysius.Signaling.Flags.{
  IsValid, bound, followed, flag_rules, mark_hello_ack_sent, mark_hello_recvd, mark_hello_ack_recvd,
  mark_signaling_complete, mark_hello_reset, mark_hello_sent, ask-Preserves, construct-Preserves,
  create_srpp_message-Preserves, srpp_rand-Preserves, set_key-Preserves, stale_bytes-Preserves,
}

module _ (lib : Library) where
  build_packet-Preserves : (msg : SrppMessage) → Preserves IsValid (build_packet lib msg)
  unfolding build_packet
  build_packet-Preserves msg = search (preserves_rules, stale_bytes-Preserves) depth 20 fits 30000

  pub send_message-Preserves : (msg : SrppMessage) → Preserves IsValid (send_message lib msg)
  unfolding send_message
  send_message-Preserves msg =
      Preserves-if IsValid (length msg.encrypted_part.original_payload == 0) _ _
        (search preserves_rules)
        (Preserves-bind IsValid _ _ (build_packet-Preserves msg) (λ packet.
          Preserves-then IsValid _ _ (out-Preserves packet) (
            Preserves-bind IsValid _ _ ask-Preserves
              (λ status. Preserves-then IsValid _ _ idle-Preserves (Preserves-pure IsValid _)))))
    where
      out-Preserves :
          (packet : List ℕ)
          → Preserves IsValid (
              modify (λ w. record w {
                packet_to_send = if w.send_external == 1 then 1 else msg.srpp_header.seq;
                outbox = packet ∷ w.outbox;
              }))
      out-Preserves packet = Preserves-modify IsValid _ (λ w h. h)

      idle-Preserves : Preserves IsValid (modify (λ w. record w { packet_to_send = 0 }))
      idle-Preserves = Preserves-modify IsValid _ (λ w h. h)

  ruleset step_rules = (
    preserves_rules, flag_rules, ask-Preserves, construct-Preserves, create_srpp_message-Preserves,
    srpp_rand-Preserves, set_key-Preserves, send_message-Preserves,
  )

  module _ (receive : M (Option SrppMessage)) (received : Preserves IsValid receive) where
    await-Preserves : (flag : Signaling → ℕ) (n : ℕ) → Preserves IsValid (await flag receive n)
    unfolding await
    await-Preserves flag zero = Preserves-bind IsValid _ _ (Preserves-gets IsValid _) (λ done.
        Preserves-if IsValid (done == 0) _ _ (search (preserves_rules, received))
          (search preserves_rules))
    await-Preserves flag (suc n) = Preserves-bind IsValid _ _ (Preserves-gets IsValid _) (λ done.
        Preserves-if IsValid (done == 0) _ _
          (Preserves-bind IsValid _ _ received (λ _. await-Preserves flag n))
          (search preserves_rules))

    pub send_bye_message-Preserves : Preserves IsValid (send_bye_message lib receive)
    unfolding send_bye_message
    send_bye_message-Preserves = Preserves-bind IsValid _ _ (search step_rules) (λ msg.
        Preserves-bind IsValid _ _ (search step_rules) (λ _.
          Preserves-then IsValid _ _ (search step_rules) (
            Preserves-bind IsValid _ _ (search step_rules)
              (λ _. Preserves-bind IsValid _ _ received (λ _. await-Preserves _ _)))))

    send_hello_ack_message-Preserves : Preserves IsValid (send_hello_ack_message lib receive)
    unfolding send_hello_ack_message
    send_hello_ack_message-Preserves = Preserves-bind IsValid _ _ (Preserves-gets IsValid _) (λ s.
        Preserves-if IsValid (hello_ack_barred s) _ _ (Preserves-pure IsValid _) (
          Preserves-bind IsValid _ _ (Preserves-gets IsValid _) (λ psize.
            Preserves-bind IsValid _ _ (create_srpp_message-Preserves _) (λ msg.
              Preserves-if IsValid (not (s.hello_ack_recvd == 1) || s.hello_sent == 1) _ _
                (Preserves-bind IsValid _ _ (send_message-Preserves _) (λ _. finish-Preserves))
                (Preserves-pure IsValid _)))))
      where
        finish-Preserves : Preserves IsValid (
            update (λ s. record s { hello_ack_sent = 1 })
            >> (gets (λ w. w.signaling.signaling_complete) >>= λ done.
                if done == 0 then (receive >>= λ _. pure (pos 0)) else pure (pos 0)))
        finish-Preserves = followed mark_hello_ack_sent (
            bound (Preserves-gets IsValid _) (λ done.
              Preserves-if IsValid (done == 0) _ _ (bound received (λ _. Preserves-pure IsValid _))
                (Preserves-pure IsValid _)))

    pub received_hello_message-Preserves : Preserves IsValid (received_hello_message lib receive)
    unfolding received_hello_message
    received_hello_message-Preserves = followed mark_hello_recvd send_hello_ack_message-Preserves

    pub received_hello_ack_message-Preserves :
        Preserves IsValid (received_hello_ack_message lib receive)
    unfolding received_hello_ack_message
    received_hello_ack_message-Preserves = followed mark_hello_ack_recvd (
        bound (Preserves-gets IsValid _) (λ s. followed mark_signaling_complete (
          bound
            (Preserves-if IsValid (s.hello_ack_sent == 0) _ _ send_hello_ack_message-Preserves
              (Preserves-pure IsValid _))
            (λ status. followed mark_hello_reset (Preserves-pure IsValid _)))))

    hello_rounds-Preserves :
        (options : List ℕ) (n : ℕ) → Preserves IsValid (hello_rounds lib receive options n)
    unfolding hello_rounds
    hello_rounds-Preserves options zero = Preserves-pure IsValid true
    hello_rounds-Preserves options (suc n) = bound (Preserves-gets IsValid _) (λ s.
        Preserves-if IsValid (not (s.hello_ack_recvd == 1)) _ _
          (followed mark_hello_sent (
            bound (create_srpp_message-Preserves options)
              (λ msg. bound (send_message-Preserves _) (λ _. hello_rounds-Preserves options n))))
          (Preserves-pure IsValid _))

    -- The last part of `sendHelloMessage`.
    wait-Preserves :
        (all_sent : Bool) (enabled : ℕ)
        → Preserves IsValid (
            if not all_sent
            then pure (pos 0)
            else if enabled == 0
            then pure (negsuc 9)
            else (construct >>= λ _.
                receive >>= λ _. await (λ s. s.signaling_complete) receive 120000))
    wait-Preserves all_sent enabled =
        Preserves-if IsValid (not all_sent) _ _ (Preserves-pure IsValid _) (
          Preserves-if IsValid (enabled == 0) _ _ (Preserves-pure IsValid _)
            (bound construct-Preserves (λ _. bound received (λ _. await-Preserves _ 120000))))

    send_hello_message-Preserves : Preserves IsValid (send_hello_message lib receive)
    unfolding send_hello_message
    send_hello_message-Preserves = bound (Preserves-gets IsValid _) (λ s.
        Preserves-if IsValid (hello_barred s) _ _ (Preserves-pure IsValid _) (
          bound (srpp_rand-Preserves 0 (pos 65535)) (λ key.
            bound (Preserves-gets IsValid _) (λ psize. followed (set_key-Preserves _) (
              bound (create_srpp_message-Preserves _) (λ msg.
                bound (hello_rounds-Preserves _ 5) (λ all_sent.
                  bound (Preserves-gets IsValid _)
                    (λ enabled. wait-Preserves all_sent enabled))))))))

    pub signaling-Preserves : Preserves IsValid (signaling lib receive)
    unfolding signaling
    signaling-Preserves =
        bound (srpp_rand-Preserves 5000 (pos 10000)) (λ idle. send_hello_message-Preserves)
