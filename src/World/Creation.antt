-- ===== src/World/Creation.antt =====
-- What a created message is, and what the creation leaves of the state.
use dionysius.Common.{ℕ, suc, ◌+◌, ◌%◌, ◌^◌, List, some, ◌≡◌, refl}
use dionysius.Message.{SrppMessage, new_message}
use dionysius.World.Defs.{
  World, pure, ◌>>=◌, ◌>>◌, gets, modify, ask, construct, create_srpp_message,
}
use dionysius.World.Frames.{bind-some}

-- The world after a message was created: two answers, the clock and the stale word, are used.
abbrev pub created : World → World
created w = record w {
  last_sequence_no = w.last_sequence_no + 1;
  answers = λ n. w.answers (suc (suc n));
}

abbrev pub bare_message : World → SrppMessage
bare_message w =
    new_message (w.last_sequence_no + 1) (w.answers 0) w.srppssrc (w.answers 1 % 2 ^ 32)

abbrev pub created_message : List ℕ → World → SrppMessage
created_message payload w =
    let msg = bare_message w in
    record msg { encrypted_part = record msg.encrypted_part { original_payload = payload } }

pub construct_lem : (w : World) → construct w ≡ some (bare_message w, created w)
unfolding construct ask gets modify pure ◌>>◌ ◌>>=◌
construct_lem w = refl

pub create_srpp_message_lem :
    (payload : List ℕ) (w : World)
    → create_srpp_message payload w ≡ some (created_message payload w, created w)
unfolding create_srpp_message pure
create_srpp_message_lem payload w = bind-some construct _ (construct_lem w)
