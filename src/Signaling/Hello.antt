-- ===== src/Signaling/Hello.antt =====
-- The answer to a HELLO message in Signaling_functions.hpp.
use dionysius.Common.{
  ℕ, suc, ◌^◌, ◌<◌, List, [], ◌∷◌, ◌++◌, length, length-append, take_all, ltb, All, All-append,
  All-implies, Option, Bool, true, false, if◌then◌else◌, ◌==◌, ◌&&◌, ◌||◌, not, pos, ◌≡◌, refl, ap,
  ◌∙◌, arith,
}
use dionysius.Machine.{NonZero}
use dionysius.Message.{SrppMessage, new_message, IsByte}
use dionysius.Options.{hello_ack_options, print_digits, print_int, yes_, two_more, three_defaults}
use dionysius.Options.Decimal.{IsDigit, print_digits-All, length-print_digits}
use dionysius.Wire.Send.{IsSendable, packet}
use dionysius.World.{World, M, pure, ◌>>=◌, ◌>>◌, gets, modify, create_srpp_message}
use dionysius.World.Frames.{bind-some}
use dionysius.World.Creation.{created, created_message, create_srpp_message_lem}
use dionysius.Transport.{Library, send_message}
use dionysius.Transport.Sending.{sent, send_message-signalling}
use dionysius.Signaling.{
  update, with_code, hello_ack_barred, send_hello_ack_message, received_hello_message,
}

-- The HELLO ACK message of a state.
abbrev pub hello_ack : ℕ → World → SrppMessage
hello_ack psize w = with_code 13 (created_message (hello_ack_options (pos psize)) w)

-- The state after the HELLO ACK went out.
abbrev pub answered : ℕ → Library → World → World
answered psize lib w =
    let out = sent (packet lib.first_rand (hello_ack psize w) []) (hello_ack psize w) (created w) in
    record out { signaling = record w.signaling { hello_recvd = 1; hello_ack_sent = 1 } }

abbrev pub is_text : List ℕ → Bool
is_text [] = true
is_text (b ∷ bs) = ltb 0 b && ltb b 256 && is_text bs

pub is_text-NonZero : (bs : List ℕ) → is_text bs ≡ true → All NonZero bs
is_text-NonZero [] h = tt
is_text-NonZero (b ∷ bs) h = (ground arith, is_text-NonZero bs (ground arith))

pub is_text-IsByte : (bs : List ℕ) → is_text bs ≡ true → All IsByte bs
is_text-IsByte [] h = tt
is_text-IsByte (b ∷ bs) h = (ground arith, is_text-IsByte bs (ground arith))

abbrev words : List ℕ
words = yes_ ++ (two_more ++ three_defaults)

module _ (psize : ℕ) (small : psize < 10 ^ 5) where
  abbrev digits : List ℕ
  digits = print_digits (suc psize) psize

  hello_ack_options_shape : hello_ack_options (pos psize) ≡ digits ++ words
  unfolding hello_ack_options print_int
  hello_ack_options_shape =
      rw (take_all 5 digits (length-print_digits 4 (suc psize) psize small)) refl

  hello_ack_options-All :
      (P : ℕ → Type 0)
      → ((c : ℕ) → IsDigit c → P c)
      → All P words
      → All P (hello_ack_options (pos psize))
  hello_ack_options-All P of_digit of_words = rw hello_ack_options_shape (
      All-append P digits words
        (All-implies IsDigit P digits of_digit (print_digits-All (suc psize) psize)) of_words)

  hello_ack_options_some : 0 < length (hello_ack_options (pos psize))
  hello_ack_options_some = rw hello_ack_options_shape (omega (arith, length-append digits words))

  -- A created HELLO ACK can be sent.
  hello_ack-IsSendable : (w : World) → w.srppssrc < 2 ^ 32 → IsSendable (hello_ack psize w)
  unfolding new_message
  hello_ack-IsSendable w word = record {
    header = record {
      version_bits = omega arith;
      p_bit = omega arith;
      x_bit = omega arith;
      no_sources = refl;
      m_bit = omega arith;
      pt_bits = omega arith;
      seq_word = omega arith;
      ts_word = omega arith;
      ssrc_word = word;
      profile_word = omega arith;
      extension_word = omega arith;
      signalling_word = omega arith;
    };
    fields = record {
      payload_bytes = hello_ack_options-All IsByte (λ c d. omega arith) (is_text-IsByte words refl);
      padding_bytes = tt;
      pad_count_word = omega arith;
      padding_bit = omega arith;
      flag_word = omega arith;
      seq_word = omega arith;
    };
    payload_text = hello_ack_options-All NonZero (λ c d. omega arith) (is_text-NonZero words refl);
  }

  module _ (lib : Library) (receive : M (Option SrppMessage)) where
    -- In a state whose synchronization source fits 32 bits, with a packet size below 100000, no HELLO
    -- ACK sent and none pending, the handler of a HELLO message sends one packet, the HELLO ACK with
    -- that packet size in front of its options, and notes both messages; then it receives once more
    -- if signalling is not complete, and returns 0.
    pub received_hello_message-answers :
        (w : World)
        → w.srppssrc < 2 ^ 32
        → w.session.maxpacketsize ≡ pos psize
        → w.signaling.hello_ack_sent ≡ 0
        → w.signaling.hello_ack_recvd ≡ 0
        → received_hello_message lib receive w
          ≡ (if w.signaling.signaling_complete == 0
                then (receive >>= λ _. pure (pos 0))
                else pure (pos 0))
              (answered psize lib w)
    unfolding received_hello_message send_hello_ack_message gets modify ◌>>◌ new_message
    received_hello_message-answers w word size unsent unpending =
        bind-some (update _) _ refl
        ∙ bind-some (gets (λ v. v.signaling)) _ refl
        ∙ rw (free) (
            bind-some (gets (λ v. v.session.maxpacketsize)) _ refl
            ∙ bind-some (create_srpp_message _) _ (
                ap (λ z. create_srpp_message (hello_ack_options z) noted) size
                ∙ create_srpp_message_lem _ noted)
            ∙ rw sends (
                bind-some (send_message lib _) _ (
                  send_message-signalling lib (hello_ack psize noted) (created noted)
                    (hello_ack-IsSendable noted word) hello_ack_options_some refl (omega arith))
                ∙ bind-some (update _) _ refl
                ∙ bind-some (gets _) _ refl))
      where
        noted : World
        noted = record w { signaling = record w.signaling { hello_recvd = 1 } }

        free : hello_ack_barred noted.signaling ≡ false
        free = ground arith

        sends : (not (w.signaling.hello_ack_recvd == 1) || w.signaling.hello_sent == 1) ≡ true
        sends = ground arith
