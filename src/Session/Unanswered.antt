-- ===== src/Session/Unanswered.antt =====
-- The start of a session in SRPP_functions.cpp while `recvfrom` fails.
use dionysius.Common.{ℕ, zero, suc, ◌+◌, ◌%◌, ◌^◌, ◌<◌, List, [], ◌++◌, pos, ◌≡◌}
use dionysius.Message.{SrppMessage}
use dionysius.Options.{hello_options, yes_, two_more, three_defaults, comma_space}
use dionysius.Wire.Send.{packet}
use dionysius.World.{World}
use dionysius.World.Creation.{created, created_message}
use dionysius.Transport.{Library}
use dionysius.Transport.Sending.{sent}
use dionysius.Signaling.{with_code, signaling}
use dionysius.Session.Failing.{IsFailing, after}

abbrev more_words : List ℕ
more_words = comma_space ++ (yes_ ++ (comma_space ++ (yes_ ++ (two_more ++ three_defaults))))

module _ (key psize : ℕ) where
  abbrev hello : World → SrppMessage
  hello w = with_code 12 (created_message (hello_options (pos key) (pos psize)) w)

  module _ (lib : Library) where
    -- The world after one HELLO message went out.
    abbrev said : World → World
    said w =
        let noted = record w { signaling = record w.signaling { hello_sent = 1 } } in
        sent (packet lib.first_rand (hello noted) []) (hello noted) (created noted)

    abbrev said_times : ℕ → World → World
    said_times zero w = w
    said_times (suc n) w = said_times n (said w)

-- A state in which no signaling message was sent or received.
pub record IsFresh (w : World) : Type 0 where
  pub hello_sent : w.signaling.hello_sent ≡ 0
  pub hello_recvd : w.signaling.hello_recvd ≡ 0
  pub hello_ack_sent : w.signaling.hello_ack_sent ≡ 0
  pub hello_ack_recvd : w.signaling.hello_ack_recvd ≡ 0
  pub incomplete : w.signaling.signaling_complete ≡ 0

module _ (lib : Library) (psize : ℕ) (w : World) (s : IsFailing w) (v : IsFresh w)
    (word : w.srppssrc < 2 ^ 32) (size : w.session.maxpacketsize ≡ pos psize)
    (enabled : 0 < w.srpp_enabled) where
  -- The key that is drawn, and the state when it is set.
  abbrev drawn : ℕ
  drawn = w.answers 1 % 65535 + 0

  abbrev keyed : World
  keyed = record w {
    session = record w.session { encryption_key = drawn % 2 ^ 32 };
    answers = λ n. w.answers (suc (suc n));
  }

  abbrev greeted : World
  greeted = said_times drawn psize lib 5 (created keyed)

  abbrev waiting : World
  waiting = after (created greeted)
