-- ===== src/Session/Failing.antt =====
-- The end of a session in SRPP_functions.cpp while `recvfrom` fails.
use dionysius.Common.{
  ℕ, zero, suc, [], Option, none, some, false, ◌==◌, ==-zero, ◌<◌, ℤ, negsuc, ◌≡◌, refl, ap, ◌∙◌,
}
use dionysius.Timer.{pause_timer}
use dionysius.World.{
  World, Signaling, failed, pure, ◌>>◌, gets, modify, next_arrival, construct, create_srpp_message,
}
use dionysius.World.Frames.{bind-some}
use dionysius.World.Creation.{created, construct_lem, create_srpp_message_lem}
use dionysius.Transport.{Library, send_message}
use dionysius.Transport.Sending.{send_message-empty}
use dionysius.Signaling.{update, await, send_bye_message}
use dionysius.Session.{pause_timers, receive_arrival, receive_nested, receive_message, stop_session}

-- Every call of `recvfrom` fails, and no function for receiving is set.
pub record IsFailing (w : World) : Type 0 where
  pub nothing : (n : ℕ) → w.arrivals n ≡ failed
  pub internal : (w.receive_external == 1) ≡ false

-- The world after some arrivals were taken.
abbrev pub after : World → World
after w = record w { arrivals = λ n. w.arrivals (suc n) }

module _ (lib : Library) where
  pub receive_message-failing :
      (w : World) → IsFailing w → receive_message lib w ≡ some (none, after w)
  unfolding receive_message receive_nested receive_arrival next_arrival gets pure
  receive_message-failing w s =
      bind-some (gets (λ v. v.receive_external)) _ refl
      ∙ rw (s.internal) (bind-some next_arrival _ (λ i. some (s.nothing 0 i, after w)))

  -- What a run without arrivals leaves as it was.
  abbrev pub Idle : World → ℤ → Option (ℤ × World) → Type 0
  Idle w status result =
      (w' : World) × (result ≡ some (status, w'))
      × (w'.outbox ≡ w.outbox)
      × (w'.signaling ≡ w.signaling)

  pub await-failing :
      (flag : Signaling → ℕ) (n : ℕ) (w : World)
      → IsFailing w
      → flag w.signaling ≡ 0
      → Idle w (negsuc 0) (await flag (receive_message lib) n w)
  unfolding await gets pure
  await-failing flag zero w s unset = (
    after w,
    bind-some (gets _) _ refl
        ∙ rw (ap (λ k. k == 0) unset)
            (bind-some (receive_message lib) _ (receive_message-failing w s)),
    refl,
    refl,
  )
  await-failing flag (suc n) w s unset =
      let rest =
        await-failing flag n (after w)
          (record { nothing = λ k. s.nothing (suc k); internal = s.internal }) unset in
      (
        rest.0,
        bind-some (gets _) _ refl
            ∙ rw (ap (λ k. k == 0) unset)
                (bind-some (receive_message lib) _ (receive_message-failing w s) ∙ rest.1),
        rest.2,
        rest.3,
      )

  -- If every call of `recvfrom` returns an error, and no function for receiving is set, then under in-band
  -- signalling, with SRPP enabled and the session not complete, `stop_session` gives up after its rounds
  -- of waiting: it returns -1, has sent no packet, not even the BYE
  -- message that it notes, and the session is still not complete.
  pub stop_session-failing :
      (w : World)
      → IsFailing w
      → 0 < w.srpp_enabled
      → w.signaling_by_srpp ≡ 1
      → w.signaling.session_complete ≡ 0
      → (w' : World) × (stop_session lib (receive_message lib) w ≡ some (negsuc 0, w'))
        × (w'.outbox ≡ w.outbox)
        × (w'.signaling ≡ record w.signaling { bye_sent = 1 })
  unfolding stop_session send_bye_message pause_timers gets modify pure ◌>>◌
  stop_session-failing w s enabled in_band open_still = (
    rest.0,
    bind-some (modify _) _ refl
        ∙ bind-some (gets _) _ refl
        ∙ rw (==-zero w.srpp_enabled enabled) (
            bind-some (gets _) _ refl
            ∙ rw (ap (λ k. k == 1) in_band) (
                bind-some (send_bye_message lib (receive_message lib)) _ bye
                ∙ bind-some (gets _) _ refl
                ∙ rw (ap (λ g. g.session_complete == 1) rest.3 ∙ ap (λ k. k == 1) open_still)
                    refl)),
    rest.2,
    rest.3,
  )
    where
      paused : World
      paused = record w { timer = pause_timer w.timer }

      noted : World
      noted = record (created paused) { signaling = record w.signaling { bye_sent = 1 } }

      waiting : World
      waiting = after (created noted)

      rest :
          Idle waiting
            (negsuc 0)
            (await (λ g. g.session_complete) (receive_message lib) 30000 waiting)
      rest =
          await-failing (λ g. g.session_complete) 30000 waiting
            (record { nothing = λ k. s.nothing (suc k); internal = s.internal }) open_still

      bye : send_bye_message lib (receive_message lib) paused ≡ some (negsuc 0, rest.0)
      bye =
          bind-some (create_srpp_message []) _ (create_srpp_message_lem [] paused)
          ∙ bind-some (send_message lib _) _ (send_message-empty lib _ _ refl)
          ∙ bind-some (update _) _ refl
          ∙ bind-some construct _ (construct_lem noted)
          ∙ bind-some (receive_message lib) _ (
              receive_message-failing (created noted)
                (record { nothing = s.nothing; internal = s.internal }))
          ∙ rest.1
