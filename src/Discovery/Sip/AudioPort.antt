-- ===== src/Discovery/Sip/AudioPort.antt =====
-- The port of the media that `parse_sip` of sqrkal_discovery.cpp takes from a message.
use dionysius.Common.{
  ℕ, suc, ◌+◌, ◌-◌, ◌^◌, ◌<◌, List, [], ◌∷◌, ◌++◌, append-nil, length, length-append, take, drop,
  take_append, drop_behind, All, All-implies, false, le→leb, pos, codes, find, find_any_at,
  find_first_of, is_in, contains, substr, npos, some, ◌>>=◌, ◌≡◌, refl, ap, sym, ◌∙◌, arith,
}
use dionysius.Machine.{c_str, c_str_lem, NonZero}
use dionysius.Options.{atoi, print_int}
use dionysius.Options.Decimal.{IsDigit, print_digits-All, atoi-print_int}
use dionysius.Discovery.Sip.Fields.{audio_start, audio_end, audio_port, span, word}

-- The first space behind a number.
find_any_at-digits :
    (i : ℕ) (ds rest : List ℕ)
    → All IsDigit ds
    → find_any_at (codes " ") i (ds ++ b' ' ∷ rest) ≡ i + length ds
unfolding find_any_at is_in
find_any_at-digits i [] rest h = omega arith
find_any_at-digits i (d ∷ ds) rest h = ground (arith, find_any_at-digits (i + 1) ds rest h.1)

module _ (pre rest : List ℕ) (port : ℕ) where
  abbrev digits : List ℕ
  digits = print_int (pos port)

  abbrev pub announcing : List ℕ
  announcing = pre ++ (codes "m=audio " ++ (digits ++ b' ' ∷ rest))

  behind : drop (length pre + 8) announcing ≡ digits ++ b' ' ∷ rest
  behind = drop_behind pre _ (length pre + 8) 8 refl

  are_digits : All IsDigit digits
  unfolding print_int
  are_digits = print_digits-All (suc port) port

  digits-length : length announcing ≡ length pre + 8 + length digits + 1 + length rest
  digits-length = omega (
    arith,
    length-append pre (codes "m=audio " ++ (digits ++ b' ' ∷ rest)),
    length-append digits (b' ' ∷ rest),
  )

  module _ (first : find announcing (codes "m=audio ") 0 ≡ length pre)
      (fits : length announcing < 2 ^ 32 - 1) where
    start : audio_start announcing ≡ length pre
    unfolding audio_start
    start = ap word first ∙ omega (arith, fits, digits-length)

    place : word (audio_start announcing + 8) ≡ length pre + 8
    place = omega (arith, start, fits, digits-length)

    end : audio_end announcing ≡ length pre + 8 + length digits
    unfolding audio_end find_first_of
    end =
        ap (λ k. word (find_any_at (codes " ") k (drop k announcing))) place
        ∙ ap (λ t. word (find_any_at (codes " ") (length pre + 8) t)) behind
        ∙ ap word (find_any_at-digits (length pre + 8) digits rest are_digits)
        ∙ omega (arith, fits, digits-length)

    text : substr announcing (length pre + 8) (length digits) ≡ some digits
    unfolding substr
    text = rw (le→leb (length pre + 8) (length announcing) (omega (arith, digits-length))) (
        ap (λ t. some (take (length digits) t)) behind ∙ ap some (take_append digits (b' ' ∷ rest)))

    -- Of a message whose first `m=audio ` announces a port that fits an `int` and a space, and that is
    -- shorter than 2^32 bytes by more than one, `parse_sip` takes that port.
    pub audio_port-print_int : port < 2 ^ 31 → audio_port announcing ≡ some (pos port)
    unfolding audio_port
    audio_port-print_int in_int =
        ap (λ o. o >>= λ t. some (atoi (c_str t)))
          ((λ i. substr announcing (place i) (size i)) ∙ text)
        ∙ ap (λ t. some (atoi t)) (c_str_lem digits nonzero)
        ∙ ap some (ap atoi (sym (append-nil digits)) ∙ atoi-print_int (pos port) [] refl)
      where
        size : span (audio_start announcing) 8 (audio_end announcing) ≡ length digits
        size = omega (arith, start, end, fits, digits-length)

        nonzero : All NonZero digits
        nonzero = All-implies IsDigit NonZero digits (λ c d. omega arith) are_digits

module _ (rest : List ℕ) where
  abbrev pub answer : List ℕ
  answer = codes "SIP/2.0 " ++ rest

  module _ (absent : contains answer (codes "m=audio ") 0 ≡ false) where
    missing : audio_start answer ≡ 4294967295
    unfolding audio_start contains
    missing =
        let nowhere : find answer (codes "m=audio ") 0 ≡ npos = ground (arith, absent) in
        ap word nowhere

    eighth : word (audio_start answer + 8) ≡ 7
    eighth = omega (arith, missing)

    space : audio_end answer ≡ 7
    unfolding audio_end find_first_of find_any_at is_in
    space = ap (λ k. word (find_any_at (codes " ") k (drop k answer))) eighth

    -- Of an answer, a message that begins with "SIP/2.0 ", without a `m=audio ` the port is read in
    -- front of the space there, since the place of what is missing wraps around: it becomes 0.
    pub audio_port-missing : audio_port answer ≡ some (pos 0)
    unfolding audio_port substr c_str atoi
    audio_port-missing =
        ap (λ o. o >>= λ t. some (atoi (c_str t)))
          ((λ i. substr answer (eighth i) (size i)) ∙ empty)
      where
        empty : substr answer 7 0 ≡ some []
        empty = rw (le→leb 7 (length answer) (omega arith))

        size : span (audio_start answer) 8 (audio_end answer) ≡ 0
        size = omega (arith, missing, space)
