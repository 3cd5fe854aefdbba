-- ===== src/Signaling/Bye.antt =====
-- The end of a session: BYE and BYE ACK in Signaling_functions.hpp.
use dionysius.Common.{
  [], some, Bool-cases, true, false, inl, inr, ℤ, pos, negsuc, ◌≡◌, refl, ◌∙◌, arith,
}
use dionysius.World.{World, pure, ◌>>◌, gets, modify, create_srpp_message}
use dionysius.World.Frames.{bind-some}
use dionysius.Transport.{Library, send_message}
use dionysius.Transport.Sending.{send_message-empty}
use dionysius.World.Creation.{created, create_srpp_message_lem}
use dionysius.Signaling.{update, bye_ack_barred, send_bye_ack_message, received_bye_message}

module _ (lib : Library) (w : World) where
  -- Once nothing bars it, the BYE ACK counts as sent.
  send_bye_ack_message-free :
      bye_ack_barred w.signaling ≡ false
      → send_bye_ack_message lib w
        ≡ some (pos 0, record (created w) { signaling = record w.signaling { bye_ack_sent = 1 } })
  unfolding send_bye_ack_message gets modify pure ◌>>◌
  send_bye_ack_message-free free =
      bind-some (gets (λ v. v.signaling)) _ refl
      ∙ rw free (
          bind-some (create_srpp_message []) _ (create_srpp_message_lem [] w)
          ∙ bind-some (send_message lib _) _ (send_message-empty lib _ _ refl)
          ∙ bind-some (update _) _ refl)

  send_bye_ack_message-barred :
      bye_ack_barred w.signaling ≡ true → send_bye_ack_message lib w ≡ some (negsuc 0, w)
  unfolding send_bye_ack_message gets pure
  send_bye_ack_message-barred barred = bind-some (gets (λ v. v.signaling)) _ refl ∙ rw barred refl

-- The handler of a BYE message returns in every state, sends no packet, and leaves the state with
-- both the BYE received and the BYE ACK sent.
pub received_bye_message-silent :
    (lib : Library) (w : World)
    → (status : ℤ) × (w' : World) × (received_bye_message lib w ≡ some (status, w'))
      × (w'.outbox ≡ w.outbox)
      × (w'.signaling.bye_recvd ≡ 1)
      × (w'.signaling.bye_ack_sent ≡ 1)
unfolding received_bye_message modify ◌>>◌
received_bye_message-silent lib w = elim (Bool-cases (bye_ack_barred noted.signaling)) [
  | inl barred ↦
      (_, _, begun ∙ send_bye_ack_message-barred lib noted barred, refl, refl, ground arith)
  | inr free ↦ (_, _, begun ∙ send_bye_ack_message-free lib noted free, refl, refl, refl)
]
  where
    noted : World
    noted = record w { signaling = record w.signaling { bye_recvd = 1 } }

    begun : received_bye_message lib w ≡ send_bye_ack_message lib noted
    begun =
        bind-some (update (λ s. record s { bye_recvd = 1 })) (λ _. send_bye_ack_message lib) refl
