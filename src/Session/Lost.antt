-- ===== src/Session/Lost.antt =====
-- What `processReceivedData` of SRPP_functions.cpp does with a media packet under in-band signalling.
use dionysius.Common.{
  ℕ, suc, ◌+◌, ◌%◌, ◌^◌, ◌<◌, ◌≤◌, le→leb, List, [], length, take, Option, none, some, Bool,
  Bool-cases, true, false, inl, inr, ◌==◌, ==-zero, ◌&&◌, not, ltb, ℤ, pos, negsuc, ◌≡◌, refl, ap,
  ◌∙◌,
}
use dionysius.Machine.{to_int, read, load_le32}
use dionysius.Message.{SrppMessage}
use dionysius.Timer.{pause_timer}
use dionysius.Wire.{header_size, load_header}
use dionysius.World.{World, M, pure, ◌>>=◌, ◌>>◌, gets, modify, lift, ask, create_srpp_message}
use dionysius.World.Frames.{bind-some}
use dionysius.World.Creation.{created, create_srpp_message_lem}
use dionysius.Transport.{Library, is_signaling_header, is_signaling_buffer, is_one, is_zero}
use dionysius.Session.{
  max_nonsrpp_messages, disable_srpp, stop_session, pause_timers, verify_signalling,
  process_received_data,
}

pub stop_session-disabled :
    (lib : Library) (receive : M (Option SrppMessage)) (w : World)
    → (disable_srpp >> stop_session lib receive) w
      ≡ some (negsuc 9, record w { srpp_enabled = 0; timer = pause_timer w.timer })
unfolding disable_srpp stop_session pause_timers gets modify pure ◌>>◌ ◌>>=◌
stop_session-disabled lib receive w = refl

module _ (lib : Library) (receive : M (Option SrppMessage)) (buff : List ℕ)
    (whole : 80 ≤ length buff) where
  abbrev header : List ℕ
  header = take 80 buff

  read_header : read buff 0 header_size ≡ some header
  unfolding read
  read_header = rw (le→leb 80 (length buff) whole) refl

  -- The check that follows `verifySignalling` fails.
  abbrev Refused : World → Type 0
  Refused w =
      (status : ℤ) × (w' : World) × (verify_signalling lib receive buff w ≡ some (status, w'))
      × ((is_zero status && w'.srpp_enabled == 0) ≡ false)

  abbrev odd : Bool
  odd = not (load_le32 76 header == 13) && not ((load_header header).pt == 124)

  verify_signalling-refuses : (w : World) → (w.srpp_enabled == 0) ≡ false → Refused w
  unfolding verify_signalling gets modify ◌>>◌ pure ask disable_srpp stop_session pause_timers lift
  verify_signalling-refuses w enabled = elim (Bool-cases (w.signaling.hello_sent == 1)) [
    | inr waiting ↦ (pos 0, w, bind-some (gets _) _ refl ∙ rw waiting refl, enabled)
    | inl said ↦ elim (Bool-cases odd) [
      | inr even ↦ (
        to_int (w.answers 0 % 2 ^ 32),
        record w { answers = λ n. w.answers (suc n) },
        bind-some (gets _) _ refl
            ∙ rw said (bind-some (lift _) _ (found w) ∙ rw even (bind-some ask _ refl)),
        ap (λ e. is_zero (to_int (w.answers 0 % 2 ^ 32)) && e) enabled ∙ and_false _,
      )
      | inl is_odd ↦ elim (Bool-cases (ltb max_nonsrpp_messages (w.nonsrpp_message_count + 1))) [
        | inl many ↦ (
          negsuc 9,
          record (counted w) { srpp_enabled = 0; timer = pause_timer w.timer },
          bind-some (gets _) _ refl
              ∙ rw said (
                  bind-some (lift _) _ (found w)
                  ∙ rw is_odd (
                      bind-some (modify _) _ refl
                      ∙ bind-some (gets _) _ refl
                      ∙ rw many (stop_session-disabled lib receive (counted w)))),
          refl,
        )
        | inr few ↦ (
          negsuc 0,
          counted w,
          bind-some (gets _) _ refl
              ∙ rw said (
                  bind-some (lift _) _ (found w)
                  ∙ rw is_odd
                      (bind-some (modify _) _ refl ∙ bind-some (gets _) _ refl ∙ rw few refl)),
          refl,
        )
      ]
    ]
  ]
    where
      counted : World → World
      counted w = record w { nonsrpp_message_count = w.nonsrpp_message_count + 1 }

      found : (w : World) → lift (read buff 0 header_size) w ≡ some (header, w)
      found w = ap (λ o. lift o w) read_header

      and_false : (b : Bool) → (b && false) ≡ false
      and_false true = refl
      and_false false = refl

  -- Under in-band signalling, while SRPP is enabled, `processReceivedData` returns, but no
  -- message, for any packet in an array of at least 80 bytes whose header is not that of a
  -- signaling message.
  pub process_received_data-lost :
      (bytes : ℕ) (w : World)
      → w.signaling_by_srpp ≡ 1
      → 0 < w.srpp_enabled
      → is_one (is_signaling_header (load_header header)) ≡ false
      → (w' : World) × (process_received_data lib receive buff bytes w ≡ some (none, w'))
  unfolding process_received_data gets pure is_signaling_buffer lift
  process_received_data-lost bytes w in_band enabled media = (
    refused.1,
    bind-some (create_srpp_message []) _ (create_srpp_message_lem [] w)
        ∙ bind-some (gets _) _ refl
        ∙ bind-some (gets _) _ refl
        ∙ bind-some (gets _) _ refl
        ∙ rw by_srpp (
            bind-some (is_signaling_buffer buff) _ signal
            ∙ rw media (
                bind-some (verify_signalling lib receive buff) _ refused.2
                ∙ bind-some (gets _) _ refl
                ∙ rw refused.3 refl)),
  )
    where
      refused : Refused (created w)
      refused = verify_signalling-refuses (created w) (==-zero w.srpp_enabled enabled)

      by_srpp : (w.signaling_by_srpp == 0 && w.signaling.signaling_complete == 1) ≡ false
      by_srpp = ap (λ n. n == 0 && w.signaling.signaling_complete == 1) in_band

      signal :
          is_signaling_buffer buff (created w)
          ≡ some (is_signaling_header (load_header header), created w)
      signal = bind-some (lift _) _ (ap (λ o. lift o (created w)) read_header)
