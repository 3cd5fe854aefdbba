-- ===== src/Signaling.antt =====
-- libSRPP/include/Signaling_functions.hpp: the class `SignalingFunctions`. The functions that wait
-- for a message take `receive_message` as an argument, since it calls them back.
pub mod Bye
pub mod Hello
pub mod Flags
pub mod Kept
pub mod Answered
use dionysius.Common.{
  ℕ, zero, suc, List, [], Option, none, some, Bool, true, false, if◌then◌else◌, ◌==◌, ◌&&◌, ◌||◌,
  not, leb, ℤ, pos, negsuc,
}
use dionysius.Message.{SrppMessage}
use dionysius.Options.{hello_options, hello_ack_options}
use dionysius.World.{
  World, Signaling, M, pure, ◌>>=◌, ◌>>◌, gets, modify, srpp_rand, construct, create_srpp_message,
  set_key,
}
use dionysius.Transport.{Library, send_message}

-- The constructor.
abbrev pub new_signaling : Signaling
new_signaling = record {
  hello_sent = 0;
  hello_recvd = 0;
  hello_ack_sent = 0;
  hello_ack_recvd = 0;
  bye_sent = 0;
  bye_recvd = 0;
  bye_ack_sent = 0;
  bye_ack_recvd = 0;
  signaling_complete = 0;
  session_complete = 0;
}

abbrev pub update : (Signaling → Signaling) → M (Unit {0})
update f = modify λ w. record w { signaling = f w.signaling }

-- `setSignalingComplete(a)`; no caller passes a negative number.
pub set_signaling_complete : ℕ → M (Unit {0})
set_signaling_complete a =
    if leb a 1 then update (λ s. record s { signaling_complete = a }) else pure tt

-- A created message with `pt = 124`, `x = 1` and a signalling code.
abbrev pub with_code : ℕ → SrppMessage → SrppMessage
with_code signal msg = record msg {
  srpp_header = record msg.srpp_header { pt = 124; srpp_signalling = signal; x = 1 };
}

-- The guards of the senders: true where the message must not be sent.
abbrev pub hello_barred : Signaling → Bool
hello_barred s =
    s.hello_sent == 1 || (s.hello_recvd == 1 || (s.hello_ack_sent == 1 || s.hello_ack_recvd == 1))

abbrev pub hello_ack_barred : Signaling → Bool
hello_ack_barred s = not (s.hello_recvd == 1) && not (s.hello_sent == 1) || s.hello_ack_sent == 1

abbrev pub bye_ack_barred : Signaling → Bool
bye_ack_barred s = not (s.bye_recvd == 1) && not (s.bye_sent == 1) || s.bye_ack_sent == 1

-- `waiting` rounds of `while (… == 0) { receive_message(); if (wait_count-- == 0) return -1; }`.
unfoldable pub await : (Signaling → ℕ) → M (Option SrppMessage) → ℕ → M ℤ
await flag receive zero = do
  done ← gets (λ w. flag w.signaling)
  if done == 0 then (receive >>= λ _. pure (negsuc 0)) else pure (pos 0)
await flag receive (suc waiting) =
    let again = await flag receive waiting in
    (gets (λ w. flag w.signaling) >>= λ done.
    if done == 0 then (receive >>= λ _. again) else pure (pos 0))

module _ (lib : Library) where
  -- `sendByeAckMessage`.
  pub send_bye_ack_message : M ℤ
  send_bye_ack_message = do
    s ← gets (λ w. w.signaling)
    if bye_ack_barred s then pure (negsuc 0) else do
      msg ← create_srpp_message []
      _ ← send_message lib (with_code 23 msg)
      update (λ s. record s { bye_ack_sent = 1 })
      pure (pos 0)

  -- `receivedByeMessage`.
  pub received_bye_message : M ℤ
  received_bye_message = do update (λ s. record s { bye_recvd = 1 }); send_bye_ack_message

  -- `receivedByeAckMessage`.
  pub received_bye_ack_message : M ℤ
  received_bye_ack_message = do
    update (λ s. record s { bye_ack_recvd = 1 })
    s ← gets (λ w. w.signaling)
    update (λ s. record s { session_complete = 1 })
    if s.bye_ack_sent == 0 then send_bye_ack_message else pure (pos 0)

  module _ (receive : M (Option SrppMessage)) where
    -- `sendByeMessage`.
    unfoldable pub send_bye_message : M ℤ
    send_bye_message = do
      msg ← create_srpp_message []
      _ ← send_message lib (with_code 22 msg)
      update (λ s. record s { bye_sent = 1 })
      _ ← construct
      _ ← receive
      await (λ s. s.session_complete) receive 30000

    -- `sendHelloAckMessage`: the message that was built is sent in a loop of one round.
    unfoldable pub send_hello_ack_message : M ℤ
    send_hello_ack_message = do
      s ← gets (λ w. w.signaling)
      if hello_ack_barred s then pure (negsuc 0) else do
        psize ← gets (λ w. w.session.maxpacketsize)
        msg ← create_srpp_message (hello_ack_options psize)
        if not (s.hello_ack_recvd == 1) || s.hello_sent == 1
            then (do
              _ ← send_message lib (with_code 13 msg)
              update (λ s. record s { hello_ack_sent = 1 })
              done ← gets (λ w. w.signaling.signaling_complete)
              if done == 0 then (receive >>= λ _. pure (pos 0)) else pure (pos 0))
            else pure (pos 0)

    -- `receivedHelloMessage`.
    unfoldable pub received_hello_message : M ℤ
    received_hello_message = do update (λ s. record s { hello_recvd = 1 }); send_hello_ack_message

    -- `receivedHelloAckMessage`.
    unfoldable pub received_hello_ack_message : M ℤ
    received_hello_ack_message = do
      update (λ s. record s { hello_ack_recvd = 1 })
      s ← gets (λ w. w.signaling)
      update (λ s. record s { signaling_complete = 1 })
      status ← (if s.hello_ack_sent == 0 then send_hello_ack_message else pure (pos 0))
      update (λ s. record s { hello_sent = 0; hello_ack_recvd = 0 })
      pure status

    -- The rounds of `sendHelloMessage`, each of which creates and sends a message; false for the
    -- early `return 0`.
    unfoldable pub hello_rounds : List ℕ → ℕ → M Bool
    hello_rounds options zero = pure true
    hello_rounds options (suc rounds) =
        let next = hello_rounds options rounds in
        (gets (λ w. w.signaling) >>= λ s.
        if not (s.hello_ack_recvd == 1)
        then (do
          update (λ s. record s { hello_sent = 1 })
          msg ← create_srpp_message options
          _ ← send_message lib (with_code 12 msg)
          next)
        else pure false)

    -- `sendHelloMessage`.
    unfoldable pub send_hello_message : M ℤ
    send_hello_message = do
      s ← gets (λ w. w.signaling)
      if hello_barred s then pure (negsuc 0) else do
        key ← srpp_rand 0 (pos 65535)
        psize ← gets (λ w. w.session.maxpacketsize)
        set_key (pos key)
        let options = hello_options (pos key) psize
        _ ← create_srpp_message options
        all_sent ← hello_rounds options 5
        enabled ← gets (λ w. w.srpp_enabled)
        if not all_sent
            then pure (pos 0)
            else if enabled == 0
            then pure (negsuc 9)
            else do _ ← construct; _ ← receive; await (λ s. s.signaling_complete) receive 120000

    -- `signaling`, with the number of idle rounds that it draws.
    unfoldable pub signaling : M ℤ
    signaling = do _ ← srpp_rand 5000 (pos 10000); send_hello_message
