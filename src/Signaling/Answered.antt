-- ===== src/Signaling/Answered.antt =====
-- The BYE ACK of Signaling_functions.hpp is noted in order.
use dionysius.Common.{
  ℕ, zero, suc, ◌+◌, ◌≤◌, List, [], ◌∷◌, Option, none, some, Bool-cases, false, inl, inr,
  if◌then◌else◌, length, ◌==◌, pos, ◌≡◌, refl, ap, subst, sym, ◌∙◌, arith,
}
use dionysius.Message.{SrppMessage}
use dionysius.World.{
  World, Signaling, pure, ◌>>=◌, ◌>>◌, gets, modify, ask, construct, create_srpp_message,
}
use dionysius.World.Frames.{
  bind-some, Holds, Holds-bind, Keeps, Keeps-pure, Keeps-bind, Keeps-then, Keeps-modify, Keeps-ask,
  Keeps-if, keeps_rules,
}
use dionysius.World.Invariants.{Preserves, Preserves-pure, Preserves-if}
use dionysius.Transport.{Library, build_packet, send_message, stale_bytes}
use dionysius.Signaling.{
  update, with_code, bye_ack_barred, send_bye_ack_message, received_bye_message,
  received_bye_ack_message,
}
use dionysius.Signaling.Flags.{
  IsValid, IsFlags, followed, mark_bye_recvd, create_srpp_message-Preserves,
}
use dionysius.Signaling.Kept.{send_message-Preserves}

abbrev flags : World → Signaling
flags w = w.signaling

ask-Keeps : Keeps flags ask
ask-Keeps = Keeps-ask flags (λ w f. refl)

stale_bytes-Keeps : (n : ℕ) → Keeps flags (stale_bytes n)
unfolding stale_bytes
stale_bytes-Keeps zero = Keeps-pure flags []
stale_bytes-Keeps (suc n) =
    Keeps-bind flags ask _ ask-Keeps (λ byte.
      Keeps-bind flags (stale_bytes n) _ (stale_bytes-Keeps n) (λ rest. Keeps-pure flags _))

create-Keeps : Keeps flags (create_srpp_message [])
unfolding create_srpp_message construct
create-Keeps = search (keeps_rules, ask-Keeps) depth 20

-- A state with the flags of `w`.
abbrev Beside : World → World → Type 0
Beside w v = IsValid v × (flags v ≡ flags w)

-- A run from a state beside `w` that keeps the flags and is valid ends beside `w`.
beside :
    {A : Type 0} (w v : World) (r : Option (A × World))
    → Holds r IsValid
    → Holds r (λ u. flags u ≡ flags v)
    → flags v ≡ flags w
    → Holds r (Beside w)
beside w v none valid kept same = tt
beside w v (some (a, u)) valid kept same = (valid, kept ∙ same)

-- The guard of the BYE ACK.
unbarred : (s : Signaling) → bye_ack_barred s ≡ false → 1 ≤ s.bye_recvd + s.bye_sent
unbarred s free = ground (arith, free)

answers_bye :
    (s : Signaling) → bye_ack_barred s ≡ false → IsFlags s → IsFlags (record s { bye_ack_sent = 1 })
answers_bye s free h = let some_bye = unbarred s free in omega (arith, some_bye, h)

note-Holds :
    (w v : World)
    → bye_ack_barred (flags w) ≡ false
    → Beside w v
    → Holds ((update (λ s. record s { bye_ack_sent = 1 }) >> pure (pos 0)) v) IsValid
unfolding ◌>>=◌ ◌>>◌ modify pure
note-Holds w v free b = (answers_bye (flags v) (ap bye_ack_barred b.1 ∙ free) b.0.0, b.0.1, b.0.2)

module _ (lib : Library) where
  build_packet-Keeps : (msg : SrppMessage) → Keeps flags (build_packet lib msg)
  unfolding build_packet
  build_packet-Keeps msg = search (keeps_rules, stale_bytes-Keeps) depth 20 fits 30000

  send_message-Keeps : (msg : SrppMessage) → Keeps flags (send_message lib msg)
  unfolding send_message
  send_message-Keeps msg =
      Keeps-if flags (length msg.encrypted_part.original_payload == 0) _ _ (Keeps-pure flags _) (
        Keeps-bind flags _ _ (build_packet-Keeps msg) (λ packet.
          Keeps-then flags _ _ (out-Keeps packet) (
            Keeps-bind flags _ _ ask-Keeps
              (λ status. Keeps-then flags _ _ idle-Keeps (Keeps-pure flags _)))))
    where
      out-Keeps :
          (packet : List ℕ)
          → Keeps flags (
              modify (λ w. record w {
                packet_to_send = if w.send_external == 1 then 1 else msg.srpp_header.seq;
                outbox = packet ∷ w.outbox;
              }))
      out-Keeps packet = Keeps-modify flags _ (λ w. refl)

      idle-Keeps : Keeps flags (modify (λ w. record w { packet_to_send = 0 }))
      idle-Keeps = Keeps-modify flags _ (λ w. refl)

  answer-Holds :
      (w : World)
      → IsValid w
      → bye_ack_barred (flags w) ≡ false
      → Holds
          ((create_srpp_message [] >>= λ msg. send_message lib (with_code 23 msg) >>= λ _.
              update (λ s. record s { bye_ack_sent = 1 }) >> pure (pos 0))
            w)
          IsValid
  answer-Holds w h free =
      Holds-bind IsValid (Beside w) _ _ w
        (beside w w _ ((create_srpp_message-Preserves []).at w h) (create-Keeps.at w) refl)
        (λ msg v b.
          Holds-bind IsValid (Beside w) _ _ v
            (beside w v _ ((send_message-Preserves lib (with_code 23 msg)).at v b.0)
              ((send_message-Keeps (with_code 23 msg)).at v) b.1)
            (λ _ u c. note-Holds w u free c))

  send_bye_ack_message-Holds : (w : World) → IsValid w → Holds (send_bye_ack_message lib w) IsValid
  unfolding send_bye_ack_message gets pure
  send_bye_ack_message-Holds w h =
      subst (λ r. Holds r IsValid) (sym (bind-some (gets flags) _ refl))
        (elim (Bool-cases (bye_ack_barred (flags w))) [
          | inl barred ↦ rw barred h
          | inr free ↦ rw free (answer-Holds w h free)
        ])

  pub received_bye_message-Preserves : Preserves IsValid (received_bye_message lib)
  unfolding received_bye_message
  received_bye_message-Preserves =
      followed mark_bye_recvd (record { at = send_bye_ack_message-Holds })

  pub received_bye_ack_message-Preserves : Preserves IsValid (received_bye_ack_message lib)
  unfolding received_bye_ack_message gets modify ◌>>=◌ ◌>>◌
  received_bye_ack_message-Preserves = record {
    at = λ w h.
        (Preserves-if IsValid ((flags w).bye_ack_sent == 0) _ _
            (record { at = send_bye_ack_message-Holds }) (Preserves-pure IsValid (pos 0))).at
          (record w {
            signaling = record (w.signaling) { bye_ack_recvd = 1; session_complete = 1 };
          })
          (omega arith);
  }
