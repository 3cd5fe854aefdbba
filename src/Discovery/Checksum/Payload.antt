-- ===== src/Discovery/Checksum/Payload.antt =====
-- What `form_checksums` of sqrkal_discovery.cpp leaves of the payload of an IP packet.
use dionysius.Common.{
  ℕ, ◌+◌, ◌-◌, ◌*◌, ◌%◌, ◌≤◌, List, ◌∷◌, ◌++◌, length, take, drop, drop_within, All, ◌≡◌, ap, ◌∙◌,
  arith,
}
use dionysius.Machine.{le16, length-patched, drop-patched, All-patched, get_or-patched}
use dionysius.Message.{IsByte}
use dionysius.Discovery.Checksum.{header_words}
use dionysius.Discovery.Checksum.Header.{
  with_check, check, done, length-with_check, drop-with_check,
}

module _ (buff : List ℕ) (bytes : All IsByte buff) (options : 5 ≤ header_words buff)
    (room : 4 * header_words buff + 8 ≤ length buff) where
  abbrev result : List ℕ
  result = done buff bytes options room

  abbrev checked : List ℕ
  checked = with_check buff bytes options room (check buff bytes options room)

  abbrev w : ℕ
  w = check buff bytes options room

  abbrev at : ℕ
  at = 4 * header_words buff + 6

  length-checked : length checked ≡ length buff
  length-checked = length-with_check buff bytes options room w

  fits : at + 2 ≤ length checked
  fits = omega (arith, length-checked)

  -- `done` is written in two steps.
  pub length-done : length result ≡ length buff
  length-done = length-patched checked at (le16 0) fits ∙ length-checked

  -- Behind the UDP checksum nothing changes.
  pub drop-done : (m : ℕ) → 4 * header_words buff + 8 ≤ m → drop m result ≡ drop m buff
  drop-done m h =
      drop-patched checked at (le16 0) fits m (omega arith)
      ∙ drop-with_check buff bytes options room w m (omega arith)

  -- The payload, with the UDP checksum cleared.
  pub payload-done :
      drop 20 result
      ≡ take (4 * header_words buff - 14) (drop 20 buff)
        ++ (0 ∷ 0 ∷ drop (4 * header_words buff + 8) buff)
  payload-done = drop_within 20 at checked _ (omega arith) (omega (arith, fits)) ∙ λ i.
      (take ((let e : at - 20 ≡ 4 * header_words buff - 14 = omega arith in e) i)
          (drop-with_check buff bytes options room w 20 (omega arith) i)
        ++ 0 ∷ 0 ∷ rest i)
    where
      rest : drop (at + 2) checked ≡ drop (4 * header_words buff + 8) buff
      rest =
          drop-with_check buff bytes options room w (at + 2) (omega arith)
          ∙ ap (λ k. drop k buff) (omega arith)

  pub All-done : All IsByte result
  All-done =
      All-patched checked at (le16 0) fits IsByte
        (All-patched buff 10 (le16 w) (omega arith) IsByte bytes (omega arith, (omega arith, tt)))
        (omega arith, (omega arith, tt))

  pub header_words-done : header_words result ≡ header_words buff
  header_words-done =
      ap (λ b. b % 16)
        (get_or-patched checked at (le16 0) 0 (omega arith) (omega (arith, fits))
          ∙ get_or-patched buff 10 (le16 w) 0 (omega arith) (omega arith))
