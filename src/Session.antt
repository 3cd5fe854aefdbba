-- ===== src/Session.antt =====
-- libSRPP/src/SRPP_functions.cpp: sessions, and what a received packet does.
pub mod Nesting
pub mod Depth
pub mod Delivery
pub mod Handshake
pub mod Validity
pub mod Lost
pub mod Failing
pub mod Unanswered
pub mod Setup
use dionysius.Common.{
  ℕ, zero, suc, ◌+◌, ◌%◌, ◌^◌, List, [], ◌++◌, length, Option, none, some, Bool, true, false,
  if◌then◌else◌, ◌==◌, ltb, ◌&&◌, ◌||◌, not, ℤ, pos, negsuc, is_negative, int_ltb,
}
use dionysius.Machine.{to_int, read, load_le32}
use dionysius.Message.{SrppMessage}
use dionysius.Wire.{header_size, load_header, network_to_srpp}
use dionysius.Options.{first_option, second_option}
use dionysius.Timer.{new_timer, start_packet, start_silence, pause_timer}
use dionysius.World.{
  World, Session, Arrival, failed, datagram, M, pure, ◌>>=◌, ◌>>◌, gets, modify, lift, fault, ask,
  next_arrival, create_srpp_message, set_key,
}
use dionysius.Transport.{
  Library, is_signaling_message, is_signaling_buffer, is_one, is_zero, stale_bytes,
}
use dionysius.Sdp.{Sdp}
use dionysius.Signaling.{
  received_hello_message, received_hello_ack_message, received_bye_message,
  received_bye_ack_message, send_bye_message, set_signaling_complete, signaling,
}

abbrev pub max_nonsrpp_messages : ℕ
max_nonsrpp_messages = 1000

-- `create_session`: the constructor of `SRPPSession`, with its timer; the address is set later.
unfoldable pub create_session : M (Unit {0})
create_session = do
  port ← ask
  modify (λ w. record w {
    session = record {
      encryption_key = 1655;
      maxpacketsize = pos 1464;
      sender_port = port % 2 ^ 16;
    };
    timer = new_timer 300 400 w.timer;
  })

-- `disable_srpp` and `enable_srpp`.
pub disable_srpp : M (Unit {0})
disable_srpp = modify λ w. record w { srpp_enabled = 0 }

pub enable_srpp : M (Unit {0})
enable_srpp = modify λ w. record w { srpp_enabled = 1 }

-- `SRPPSession::start_session` and `SRPPSession::stop_session`.
pub start_timers : M (Unit {0})
start_timers = modify λ w. record w { timer = start_silence (start_packet w.timer) }

unfoldable pub pause_timers : M (Unit {0})
pause_timers = modify λ w. record w { timer = pause_timer w.timer }

-- Both packet sizes become the received one if it is less than the session's.
pub lower_maxpacketsize : ℤ → M (Unit {0})
lower_maxpacketsize received = modify λ w.
    if int_ltb received w.session.maxpacketsize
    then record w {
      session = record w.session { maxpacketsize = received };
      maxpacketsize = received;
    }
    else w

abbrev pub payload_of : SrppMessage → List ℕ
payload_of msg = msg.encrypted_part.original_payload

-- `network_to_srpp` into the new message; its return code is ignored.
pub load_packet : List ℕ → ℕ → ℤ → SrppMessage → M SrppMessage
load_packet buff bytes key blank =
    lift (network_to_srpp buff bytes key blank) >>= λ loaded. pure loaded.1

module _ (lib : Library) (receive : M (Option SrppMessage)) where
  -- `stop_session`.
  unfoldable pub stop_session : M ℤ
  stop_session = do
    pause_timers
    enabled ← gets (λ w. w.srpp_enabled)
    if enabled == 0 then pure (negsuc 9) else do
      in_band ← gets (λ w. w.signaling_by_srpp)
      _ ← (if in_band == 1 then send_bye_message lib receive else pure (pos 0))
      complete ← gets (λ w. w.signaling.session_complete)
      pure (if complete == 1 then pos 1 else negsuc 0)

  -- `verifySignalling`, which compares the code in the host's byte order. Where it returns nothing,
  -- the caller sees an arbitrary number.
  pub verify_signalling : List ℕ → M ℤ
  verify_signalling buff = do
    hello_sent ← gets (λ w. w.signaling.hello_sent)
    if hello_sent == 1
        then (do
          header ← lift (read buff 0 header_size)
          if not (load_le32 76 header == 13) && not ((load_header header).pt == 124)
              then (do
                modify (λ w. record w { nonsrpp_message_count = w.nonsrpp_message_count + 1 })
                count ← gets (λ w. w.nonsrpp_message_count)
                if ltb max_nonsrpp_messages count
                    then (do disable_srpp; stop_session)
                    else pure (negsuc 0))
              else (ask >>= λ n. pure (to_int (n % 2 ^ 32))))
        else pure (pos 0)

  -- The handler of a HELLO message: the key and the packet size are taken from its options.
  pub handle_hello : SrppMessage → M (Unit {0})
  handle_hello msg = do
    set_key (first_option (payload_of msg))
    lower_maxpacketsize (second_option (payload_of msg))
    _ ← received_hello_message lib receive
    pure tt

  pub handle_hello_ack : SrppMessage → M (Unit {0})
  handle_hello_ack msg = do
    lower_maxpacketsize (first_option (payload_of msg))
    _ ← received_hello_ack_message lib receive
    pure tt

  -- The handlers by the signalling code; other codes do nothing.
  pub dispatch : SrppMessage → M (Unit {0})
  dispatch msg =
      let signal = msg.srpp_header.srpp_signalling in
      if signal == 12
      then handle_hello msg
      else if signal == 13
      then handle_hello_ack msg
      else if signal == 22
      then (received_bye_message lib >>= λ _. pure tt)
      else if signal == 23
      then (received_bye_ack_message lib >>= λ _. pure tt)
      else pure tt

  -- The part of `processReceivedData` that loads the packet: `none` where the function ends without
  -- a `return`, so that no message reaches the caller.
  pub accept : List ℕ → ℕ → Bool → SrppMessage → M (Option SrppMessage)
  accept buff bytes signal blank = do
    key ← gets (λ w. w.session.encryption_key)
    msg ← load_packet buff bytes (if signal then pos 0 else to_int key) blank
    modify (λ w. record w {
      session = record w.session { sender_port = (w.session.sender_port + 2) % 2 ^ 16 };
    })
    if is_one (is_signaling_message msg) then (dispatch msg >> pure none) else pure (some msg)

  -- `processReceivedData`.
  pub process_received_data : List ℕ → ℕ → M (Option SrppMessage)
  process_received_data buff bytes = do
    blank ← create_srpp_message []
    in_band ← gets (λ w. w.signaling_by_srpp)
    complete ← gets (λ w. w.signaling.signaling_complete)
    key ← gets (λ w. w.session.encryption_key)
    if in_band == 0 && complete == 1
        then (load_packet buff bytes (to_int key) blank >>= λ msg. pure (some msg))
        else do
          signal ← is_signaling_buffer buff
          if is_one signal then accept buff bytes true blank else do
            verified ← verify_signalling buff
            enabled ← gets (λ w. w.srpp_enabled)
            if is_zero verified && enabled == 0 then accept buff bytes false blank else pure none

  -- What `receive_message` does with the result of `recvfrom`. Of the array that is filled only the
  -- first 80 bytes are ever read past the datagram.
  pub receive_arrival : Arrival → M (Option SrppMessage)
  receive_arrival failed = pure none
  receive_arrival (datagram port bytes) = do
    modify (λ w. record w { session = record w.session { sender_port = port % 2 ^ 16 } })
    rest ← stale_bytes header_size
    process_received_data (bytes ++ rest) (length bytes)

-- `receive_message`. The calls nest: `receive_message`, a handler, and `receive_message` again; the
-- fuel counts how deep.
pub receive_nested : Library → ℕ → M (Option SrppMessage)
receive_nested lib zero = fault
receive_nested lib (suc depth) =
    let inner = receive_nested lib depth in
    gets (λ w. w.receive_external) >>= λ external.
    if external == 1
    then lib.receive_processor
    else (next_arrival >>= λ arrival. receive_arrival lib inner arrival)

-- `receive_message`, two calls deep.
pub receive_message : Library → M (Option SrppMessage)
receive_message lib = receive_nested lib 2

-- `signaling`: without in-band signalling there is nothing to do.
pub start_signaling : Library → M ℤ
start_signaling lib = do
  in_band ← gets (λ w. w.signaling_by_srpp)
  if in_band == 1 then signaling lib (receive_message lib) else pure (pos 0)

-- `start_session()`.
pub start_session : Library → M ℤ
start_session lib = do
  status ← start_signaling lib
  if is_negative status then pure (negsuc 0) else do start_timers; enable_srpp; pure (pos 0)

-- `start_session(sdp)`.
pub start_session_sdp : Library → Sdp → M ℤ
start_session_sdp lib sdp = do
  modify (λ w. record w { signaling_by_srpp = 0 })
  if sdp.srpp_active == 0 then (do disable_srpp; stop_session lib (receive_message lib)) else do
    set_key sdp.key
    modify (λ w. record w {
      session = record w.session { maxpacketsize = sdp.maxpacketlength };
      maxpacketsize = sdp.maxpacketlength;
    })
    set_signaling_complete 1
    enable_srpp
    start_timers
    pure (pos 0)
