-- ===== src/Tests/Sending.antt =====
-- Messages that are sent from a concrete state.
use dionysius.Common.{[], ◌∷◌, some, ℤ, pos, ◌≡◌, refl, arith}
use dionysius.Wire.Send.{packet}
use dionysius.World.{World, pure, ◌>>=◌}
use dionysius.Transport.{send_message, is_signaling_header, is_signaling_message}
use dionysius.Transport.Sending.{sent, send_status, send_message-media}
use dionysius.Signaling.{received_hello_message, received_bye_message}
use dionysius.Signaling.Bye.{received_bye_message-silent}
use dionysius.Signaling.Hello.{answered, received_hello_message-answers}
use dionysius.Tests.Data.{
  some_rand, some_library, some_world, media_message, media_message-IsMedia, no_message,
}

send_message-media_example :
    send_message some_library media_message some_world
    ≡ some (
      send_status media_message some_world,
      sent (packet some_rand media_message (7 ∷ 200 ∷ [])) media_message some_world,
    )
unfolding is_signaling_header is_signaling_message
send_message-media_example =
    send_message-media some_library media_message some_world refl media_message-IsMedia
      (omega arith) (omega arith)

-- The answer is sent, and then no message is received.
received_hello_message-answers_example :
    received_hello_message some_library (pure no_message) some_world
    ≡ (pure no_message >>= λ _. pure (pos 0)) (answered 1464 some_library some_world)
received_hello_message-answers_example =
    received_hello_message-answers 1464 (omega arith) some_library (pure no_message) some_world
      (omega arith) refl refl refl

received_bye_message-silent_example :
    (status : ℤ) × (w' : World) × (received_bye_message some_library some_world ≡ some (status, w'))
    × (w'.outbox ≡ [])
    × (w'.signaling.bye_recvd ≡ 1)
    × (w'.signaling.bye_ack_sent ≡ 1)
received_bye_message-silent_example = received_bye_message-silent some_library some_world
