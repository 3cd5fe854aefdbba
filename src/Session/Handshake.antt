-- ===== src/Session/Handshake.antt =====
-- What a HELLO message makes two ends agree on (SRPP_functions.cpp, Signaling_functions.hpp).
use dionysius.Common.{
  ℕ, ◌^◌, ◌<◌, List, ◌++◌, ltb, ◌%◌, Option, some, Bool-cases, inl, inr, if◌then◌else◌, ◌==◌, pos,
  int_ltb, ◌≡◌, refl, ap, ◌∙◌, arith,
}
use dionysius.Message.{SrppMessage}
use dionysius.Options.{first_option, second_option, hello_options}
use dionysius.Options.Negotiate.{options-hello_options}
use dionysius.World.{World, M, pure, ◌>>=◌, ◌>>◌, modify, set_key}
use dionysius.World.Frames.{bind-some}
use dionysius.Transport.{Library}
use dionysius.Signaling.{received_hello_message}
use dionysius.Signaling.Hello.{answered, received_hello_message-answers}
use dionysius.Session.{lower_maxpacketsize, payload_of, handle_hello}

module _ (key ours theirs : ℕ) where
  -- The smaller of the two packet sizes.
  abbrev pub agreed_size : ℕ
  agreed_size = if ltb theirs ours then theirs else ours

  -- The state after the options were taken over.
  abbrev pub agreed : World → World
  agreed w = record w {
    session = record w.session { encryption_key = key; maxpacketsize = pos agreed_size };
    maxpacketsize = if ltb theirs ours then pos theirs else w.maxpacketsize;
  }

  agreed_size_limit : ours < 10 ^ 5 → agreed_size < 10 ^ 5
  agreed_size_limit limit = ground arith

  module _ (short : key < 10 ^ 5) (small : theirs < 10 ^ 8) where
    lower_maxpacketsize_lem :
        (w : World)
        → w.session.maxpacketsize ≡ pos ours
        → lower_maxpacketsize
            (pos theirs)
            (record w { session = record w.session { encryption_key = key } })
          ≡ some (tt, agreed w)
    unfolding lower_maxpacketsize modify
    lower_maxpacketsize_lem w size = elim (Bool-cases (ltb theirs ours)) [
      | inl less ↦ rw (smaller ∙ less, less) refl
      | inr not_less ↦
          rw (smaller ∙ not_less, not_less)
            (λ i. some (
              tt,
              record w {
                session = record w.session { encryption_key = key; maxpacketsize = size i };
              },
            ))
    ]
      where
        smaller : int_ltb (pos theirs) w.session.maxpacketsize ≡ ltb theirs ours
        smaller = ap (int_ltb (pos theirs)) size

    module _ (lib : Library) (receive : M (Option SrppMessage)) (msg : SrppMessage)
        (junk : List ℕ) where
      -- The handler of a HELLO message whose payload begins with the options that an end printed for
      -- a key below 100000 and a packet size below 100000000, with anything behind them, takes over
      -- that key, lowers its packet size to the sender's if that is less, and goes on as the handler
      -- of the class does.
      pub handle_hello-agrees :
          (w : World)
          → w.session.maxpacketsize ≡ pos ours
          → payload_of msg ≡ hello_options (pos key) (pos theirs) ++ junk
          → handle_hello lib receive msg w
            ≡ (received_hello_message lib receive >>= λ _. pure tt) (agreed w)
      unfolding handle_hello set_key modify ◌>>◌
      handle_hello-agrees w size options =
          bind-some (modify _) _ keyed ∙ bind-some (lower_maxpacketsize _) _ lowered
        where
          read :
              (first_option (payload_of msg) ≡ pos key)
              × (second_option (payload_of msg) ≡ pos theirs)
          read = rw options (options-hello_options key theirs junk short small)

          fits : key % 2 ^ 32 ≡ key
          fits = omega arith

          keyed :
              set_key (first_option (payload_of msg)) w
              ≡ some (tt, record w { session = record w.session { encryption_key = key } })
          keyed = ap (λ z. set_key z w) (read.0) ∙ (λ i.
              some (tt, record w { session = record w.session { encryption_key = fits i } }))

          lowered :
              lower_maxpacketsize
                (second_option (payload_of msg))
                (record w { session = record w.session { encryption_key = key } })
              ≡ some (tt, agreed w)
          lowered =
              ap
                (λ z.
                  lower_maxpacketsize z
                    (record w { session = record w.session { encryption_key = key } }))
                (read.1)
              ∙ lower_maxpacketsize_lem w size

      -- An end whose packet size is below 100000, whose synchronization source fits 32 bits, and
      -- that has sent no HELLO ACK and has none pending, handles a HELLO message whose payload
      -- begins with the options of a key below 100000 and a packet size below 100000000: it takes
      -- over that key and the smaller of the two packet sizes, and sends one packet, the HELLO
      -- ACK with that size. Then it receives once more if signalling is not complete.
      pub handle_hello-answers :
          (w : World)
          → w.srppssrc < 2 ^ 32
          → w.session.maxpacketsize ≡ pos ours
          → ours < 10 ^ 5
          → w.signaling.hello_ack_sent ≡ 0
          → w.signaling.hello_ack_recvd ≡ 0
          → payload_of msg ≡ hello_options (pos key) (pos theirs) ++ junk
          → handle_hello lib receive msg w
            ≡ ((λ _.
                    (if w.signaling.signaling_complete == 0
                        then (receive >>= λ _. pure (pos 0))
                        else pure (pos 0))
                      (answered agreed_size lib (agreed w)))
                  >>= λ _. pure tt)
                w
      unfolding ◌>>=◌
      handle_hello-answers w word size limit unsent unpending options =
          handle_hello-agrees w size options ∙ (λ i.
            ((λ _.
                  received_hello_message-answers agreed_size (agreed_size_limit limit) lib receive
                    (agreed w) word refl unsent unpending i)
                >>= λ _. pure tt)
              w)
