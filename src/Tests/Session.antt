-- ===== src/Tests/Session.antt =====
-- Sessions from a concrete state.
use dionysius.Common.{[], ◌∷◌, ◌++◌, none, some, pos, negsuc, ◌≡◌, refl, arith}
use dionysius.Message.{SrppMessage}
use dionysius.Options.{hello_options}
use dionysius.Wire.{load_header}
use dionysius.Wire.Send.{packet}
use dionysius.Wire.Receive.{received}
use dionysius.World.{World, datagram, pure, ◌>>=◌}
use dionysius.World.Frames.{Holds}
use dionysius.World.Creation.{created, created_message}
use dionysius.Transport.{is_signaling_header}
use dionysius.Signaling.{received_hello_message}
use dionysius.Signaling.Flags.{IsValid}
use dionysius.Signaling.Hello.{answered}
use dionysius.World.Invariants.{Preserves, Preserves-pure}
use dionysius.Session.{
  handle_hello, process_received_data, receive_nested, receive_message, start_session, stop_session,
}
use dionysius.Session.Depth.{receive_message-fuel}
use dionysius.Session.Delivery.{arrived, receive_message-delivers}
use dionysius.Session.Handshake.{agreed, handle_hello-agrees, handle_hello-answers}
use dionysius.Session.Lost.{process_received_data-lost}
use dionysius.Session.Failing.{stop_session-failing}
use dionysius.Session.Validity.{receive_message-Preserves, sessions-Preserve}
use dionysius.Sdp.{Sdp}
use dionysius.Tests.Data.{
  some_rand, some_library, some_world, some_world-IsValid, media_message, media_message-IsMedia,
  signal_message, copies, no_message,
}

-- An end that agreed on the key by SDP, and that a packet waits for.
abbrev sdp_world : World
sdp_world = record some_world {
  signaling = record some_world.signaling { signaling_complete = 1 };
  signaling_by_srpp = 0;
  arrivals = λ n. datagram 5004 (packet some_rand media_message (7 ∷ 200 ∷ []));
}

receive_message-delivers_example :
    receive_message some_library sdp_world
    ≡ some (
      some (
          received some_rand media_message
            (created_message [] (arrived 5004 sdp_world))
            (72 ∷ 105 ∷ 33 ∷ [])
            1653),
      created (arrived 5004 sdp_world),
    )
receive_message-delivers_example =
    receive_message-delivers some_library some_rand 1655 5004 media_message sdp_world
      media_message-IsMedia (omega arith) (omega arith) (omega arith) refl (omega arith) refl refl
      refl refl

-- A HELLO message for the key 4321 and the packet size 1000, with one byte behind its options.
abbrev hello_message : SrppMessage
hello_message = record signal_message {
  encrypted_part = record signal_message.encrypted_part {
    original_payload = hello_options (pos 4321) (pos 1000) ++ 9 ∷ [];
  };
}

handle_hello-agrees_example :
    handle_hello some_library (pure no_message) hello_message some_world
    ≡ (received_hello_message some_library (pure no_message) >>= λ _. pure tt)
        (agreed 4321 1464 1000 some_world)
handle_hello-agrees_example =
    handle_hello-agrees 4321 1464 1000 (omega arith) (omega arith) some_library (pure no_message)
      hello_message (9 ∷ []) some_world refl refl

handle_hello-answers_example :
    handle_hello some_library (pure no_message) hello_message some_world
    ≡ ((λ _.
            (pure no_message >>= λ _. pure (pos 0))
              (answered 1000 some_library (agreed 4321 1464 1000 some_world)))
          >>= λ _. pure tt)
        some_world
handle_hello-answers_example =
    handle_hello-answers 4321 1464 1000 (omega arith) (omega arith) some_library (pure no_message)
      hello_message (9 ∷ []) some_world (omega arith) refl (omega arith) refl refl refl

receive_message-fuel_example :
    receive_nested some_library 9 some_world ≡ receive_message some_library some_world
receive_message-fuel_example = receive_message-fuel some_library 7 some_world

none-Preserves : Preserves IsValid some_library.receive_processor
none-Preserves = Preserves-pure IsValid none

receive_message-Preserves_example : Holds (receive_message some_library sdp_world) IsValid
receive_message-Preserves_example =
    receive_message-Preserves some_library none-Preserves sdp_world (omega arith)

sessions-Preserve_example :
    Holds (start_session some_library some_world) IsValid
    × Holds (stop_session some_library (receive_message some_library) some_world) IsValid
sessions-Preserve_example =
    sessions-Preserve some_library none-Preserves some_world some_world-IsValid

abbrev description : Sdp
description = record {
  valid = 1;
  srpp_active = 1;
  options = [];
  key = negsuc 4;
  maxpacketlength = pos 1200;
}

stop_session-failing_example :
    (w' : World) × (stop_session some_library (receive_message some_library) some_world
      ≡ some (negsuc 0, w'))
    × (w'.outbox ≡ [])
    × (w'.signaling ≡ record some_world.signaling { bye_sent = 1 })
stop_session-failing_example =
    stop_session-failing some_library some_world (record { nothing = λ n. refl; internal = refl })
      (omega arith) refl refl

-- One hundred zero bytes are no signaling message.
process_received_data-lost_example :
    (w' : World) × (process_received_data some_library
        (pure no_message)
        (copies 100 0)
        90
        some_world
      ≡ some (none, w'))
unfolding load_header is_signaling_header
process_received_data-lost_example =
    process_received_data-lost some_library (pure no_message) (copies 100 0) (omega arith) 90
      some_world refl (omega arith) refl
