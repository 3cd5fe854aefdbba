-- ===== src/Options/Negotiate.antt =====
-- The options that one end prints in a HELLO or a HELLO ACK message, as the other end reads them.
use dionysius.Common.{
  ℕ, suc, ◌^◌, ◌<◌, ◌≤◌, List, [], ◌∷◌, ◌++◌, append-nil, append_assoc, length, length-append,
  take_all, All, ◌≡◌, refl, ap, sym, ◌∙◌, arith, true, pos,
}
use dionysius.Options.{
  print_digits, print_int, before_comma, has_comma, past_comma, after_comma, first_option,
  second_option, hello_options, hello_ack_options, atoi, yes_, two_more, three_defaults,
  comma_space,
}
use dionysius.Options.Decimal.{ends, IsDigit, print_digits-All, length-print_digits, atoi-print_int}

module _ (rest : List ℕ) where
  before_comma_digits : (ds : List ℕ) → All IsDigit ds → before_comma (ds ++ b',' ∷ rest) ≡ ds
  unfolding before_comma
  before_comma_digits [] h = refl
  before_comma_digits (d ∷ ds) h = ground (arith, before_comma_digits ds h.1)

  past_comma_digits : (ds : List ℕ) → All IsDigit ds → past_comma (ds ++ b',' ∷ rest) ≡ rest
  unfolding past_comma
  past_comma_digits [] h = refl
  past_comma_digits (d ∷ ds) h = ground (arith, past_comma_digits ds h.1)

  has_comma_digits : (ds : List ℕ) → All IsDigit ds → has_comma (ds ++ b',' ∷ rest) ≡ true
  unfolding has_comma
  has_comma_digits [] h = refl
  has_comma_digits (d ∷ ds) h = ground (arith, has_comma_digits ds h.1)

  before_comma-yes :
      (ds : List ℕ) → All IsDigit ds → before_comma (ds ++ (yes_ ++ b',' ∷ rest)) ≡ ds ++ yes_
  unfolding before_comma
  before_comma-yes [] h = refl
  before_comma-yes (d ∷ ds) h = ground (arith, before_comma-yes ds h.1)

module _ (n : ℕ) where
  abbrev digits_of : List ℕ
  digits_of = print_digits (suc n) n

  printed-All : All IsDigit digits_of
  printed-All = print_digits-All (suc n) n

  atoi-printed : (rest : List ℕ) → ends rest ≡ true → atoi (digits_of ++ rest) ≡ pos n
  atoi-printed rest e = unfold print_int in atoi-print_int (pos n) rest e

  -- A printed number and a comma are read back, with anything behind.
  first_option-printed : (rest : List ℕ) → first_option (digits_of ++ b',' ∷ rest) ≡ pos n
  unfolding first_option
  first_option-printed rest =
      ap atoi (before_comma_digits rest digits_of printed-All ∙ sym (append-nil digits_of))
      ∙ atoi-printed [] refl

  -- So is a number in front of "YES,".
  first_option-printed_yes :
      (rest : List ℕ) → first_option (digits_of ++ (yes_ ++ b',' ∷ rest)) ≡ pos n
  unfolding first_option
  first_option-printed_yes rest =
      ap atoi (before_comma-yes rest digits_of printed-All) ∙ atoi-printed yes_ refl

-- The second number is the first of what follows the comma.
second_option-printed :
    (n : ℕ) (rest : List ℕ) → second_option (digits_of n ++ b',' ∷ rest) ≡ first_option rest
unfolding second_option first_option after_comma
second_option-printed n rest =
    rw (has_comma_digits rest (digits_of n) (printed-All n))
      (rw (past_comma_digits rest (digits_of n) (printed-All n)))

-- What stands behind the two numbers of a HELLO message.
abbrev behind : List ℕ → List ℕ
behind junk = b' ' ∷ (yes_ ++ (comma_space ++ (yes_ ++ (two_more ++ (three_defaults ++ junk)))))

hello_options_shape :
    (key psize : ℕ) (junk : List ℕ)
    → key < 10 ^ 5
    → psize < 10 ^ 8
    → hello_options (pos key) (pos psize) ++ junk
      ≡ digits_of key ++ b',' ∷ (digits_of psize ++ b',' ∷ behind junk)
unfolding hello_options print_int
hello_options_shape key psize junk h k =
    rw (take_all 14 (digits_of key ++ b',' ∷ digits_of psize) short) (simp append_assoc)
  where
    short : length (digits_of key ++ b',' ∷ digits_of psize) ≤ 14
    short = omega (
      arith,
      length-append (digits_of key) (b',' ∷ digits_of psize),
      length-print_digits 4 (suc key) key h,
      length-print_digits 7 (suc psize) psize k,
    )

-- From the options of a HELLO message, with anything behind them, the receiver reads the sender's
-- key, if it is below 100000, and packet size, if it is below 100000000.
pub options-hello_options :
    (key psize : ℕ) (junk : List ℕ)
    → key < 10 ^ 5
    → psize < 10 ^ 8
    → (first_option (hello_options (pos key) (pos psize) ++ junk) ≡ pos key)
      × (second_option (hello_options (pos key) (pos psize) ++ junk) ≡ pos psize)
options-hello_options key psize junk h k = rw (hello_options_shape key psize junk h k) (
  first_option-printed key (digits_of psize ++ b',' ∷ behind junk),
  second_option-printed key (digits_of psize ++ b',' ∷ behind junk)
      ∙ first_option-printed psize (behind junk),
)

-- From the options of a HELLO ACK message, with anything behind them, the receiver reads the
-- sender's packet size, if it is below 100000.
pub option-hello_ack_options :
    (psize : ℕ) (junk : List ℕ)
    → psize < 10 ^ 5
    → first_option (hello_ack_options (pos psize) ++ junk) ≡ pos psize
unfolding hello_ack_options print_int
option-hello_ack_options psize junk h =
    rw (take_all 5 (digits_of psize) (length-print_digits 4 (suc psize) psize h)) (
      rw append_assoc (
        first_option-printed_yes psize
          (b' ' ∷ (yes_ ++ (comma_space ++ (yes_ ++ (three_defaults ++ junk)))))))
