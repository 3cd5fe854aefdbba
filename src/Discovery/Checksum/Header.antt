-- ===== src/Discovery/Checksum/Header.antt =====
-- What `form_checksums` of sqrkal_discovery.cpp leaves in a packet.
use dionysius.Common.{
  subst, ℕ, zero, suc, ◌+◌, ◌-◌, ◌*◌, ◌<◌, ◌≤◌, List, [], ◌∷◌, ◌++◌, append-nil, length,
  length-append, length-take, length-drop, take, drop, take_behind, drop_behind, take_within,
  drop-take, drop-drop, All, All-append, All-take, All-drop, some, ◌≡◌, refl, ap, sym, ◌∙◌, arith,
}
use dionysius.Machine.{le16, write_behind, write_lem, read_lem}
use dionysius.Message.{IsByte}
use dionysius.Discovery.Checksum.{sum_words, fold_sum, in_cksum, header_words, form_checksums}
use dionysius.Discovery.Checksum.Reference.{sum_words-le}

-- A number that is added first can be added last.
sum_words-add : (s d : ℕ) (bs : List ℕ) → sum_words (s + d) bs ≡ sum_words s bs + d
unfolding sum_words
sum_words-add s d [] = refl
sum_words-add s d (a ∷ []) = omega arith
sum_words-add s d (a ∷ b ∷ rest) =
    ap (λ t. sum_words t rest) (omega arith) ∙ sum_words-add (s + (a + b * 256)) d rest

-- The sum over a prefix of whole words.
sum_words-append :
    (n s : ℕ) (xs ys : List ℕ)
    → length xs ≡ 2 * n
    → sum_words s (xs ++ ys) ≡ sum_words (sum_words s xs) ys
unfolding sum_words
sum_words-append n s [] ys e = refl
sum_words-append n s (a ∷ []) ys e = absurd (omega arith)
sum_words-append zero s (a ∷ b ∷ rest) ys e = absurd (omega arith)
sum_words-append (suc n) s (a ∷ b ∷ rest) ys e =
    sum_words-append n (s + (a + b * 256)) rest ys (omega arith)

-- A sum with its own checksum added folds to 0.
fold_sum_self : (s : ℕ) → s ≤ 2147450880 → fold_sum (s + fold_sum s) ≡ 0
unfolding fold_sum
fold_sum_self s h = ground arith

fold_sum-word : (s : ℕ) → fold_sum s < 65536
unfolding fold_sum
fold_sum-word s = omega arith

sum_words-word :
    (s w : ℕ) (bs : List ℕ) → w < 65536 → sum_words s (le16 w ++ bs) ≡ sum_words s bs + w
unfolding sum_words
sum_words-word s w bs h = ap (λ t. sum_words t bs) (omega arith) ∙ sum_words-add s w bs

-- A header of whole words, with the checksum in the place of a cleared one.
in_cksum_self :
    (n : ℕ) (pre post : List ℕ)
    → length pre ≡ 2 * n
    → length pre + length post < 65534
    → All IsByte pre
    → All IsByte post
    → in_cksum (pre ++ (le16 (in_cksum (pre ++ (le16 0 ++ post))) ++ post)) ≡ 0
unfolding in_cksum
in_cksum_self n pre post even fits bytes_pre bytes_post =
    ap fold_sum renewed ∙ fold_sum_self cleared bound
  where
    cleared : ℕ
    cleared = sum_words 0 (pre ++ (le16 0 ++ post))

    sum :
        (w : ℕ)
        → w < 65536
        → sum_words 0 (pre ++ (le16 w ++ post)) ≡ sum_words (sum_words 0 pre) post + w
    sum w h =
        sum_words-append n 0 pre (le16 w ++ post) even ∙ sum_words-word (sum_words 0 pre) w post h

    renewed : sum_words 0 (pre ++ (le16 (fold_sum cleared) ++ post)) ≡ cleared + fold_sum cleared
    renewed = sum (fold_sum cleared) (fold_sum-word cleared) ∙ omega (arith, sum 0 (omega arith))

    bound : cleared ≤ 2147450880
    bound = omega (
      arith,
      sum_words-le 0 (pre ++ (le16 0 ++ post))
          (All-append IsByte pre _ bytes_pre (omega arith, (omega arith, bytes_post))),
      length-append pre (le16 0 ++ post),
    )

-- The packet with a header checksum in place, as a list in three parts.
module _ (buff : List ℕ) (bytes : All IsByte buff) (options : 5 ≤ header_words buff)
    (room : 4 * header_words buff + 8 ≤ length buff) where
  abbrev pub head : List ℕ
  head = take 10 buff

  abbrev pub tail : List ℕ
  tail = drop 12 buff

  abbrev pub with_check : ℕ → List ℕ
  with_check w = head ++ (le16 w ++ tail)

  abbrev pub check : ℕ
  check = in_cksum (head ++ (le16 0 ++ take 8 tail))

  abbrev pub udp : ℕ
  udp = 4 * header_words buff + 6

  abbrev pub done : List ℕ
  done = take udp (with_check check) ++ (le16 0 ++ drop (udp + 2) (with_check check))

  length-head : length head ≡ 10
  length-head = omega (arith, length-take 10 buff)

  pub length-with_check : (w : ℕ) → length (with_check w) ≡ length buff
  length-with_check w =
      omega (arith, length-head, length-drop 12 buff, length-append head (le16 w ++ tail))

  pub take-with_check : (w : ℕ) → take 20 (with_check w) ≡ head ++ (le16 w ++ take 8 tail)
  take-with_check w = take_behind head (le16 w ++ tail) 20 10 (omega (arith, length-head))

  -- Behind the checksum the packet is as it was.
  pub drop-with_check : (w m : ℕ) → 12 ≤ m → drop m (with_check w) ≡ drop m buff
  drop-with_check w m h =
      drop_behind head (le16 w ++ tail) m (suc (suc (m - 12))) (omega (arith, length-head))
      ∙ drop-drop (m - 12) 12 buff
      ∙ ap (λ k. drop k buff) (omega arith)

  pub form_checksums-done : form_checksums buff ≡ some done
  unfolding form_checksums
  form_checksums-done = rw (write_lem buff 10 (le16 0) (omega arith)) (
      rw (read_lem (with_check 0) 0 20 (omega (arith, length-with_check 0))) (
        rw (take-with_check 0) (
          rw
            (write_behind head (le16 0 ++ tail) (le16 check) 10 (omega (arith, length-head))
              (omega arith))
            (write_lem (with_check check) udp (le16 0) (omega (arith, length-with_check check))))))

  pub within : (n : ℕ) → n ≤ udp → take n done ≡ take n (with_check check)
  within n h = take_within n udp (with_check check) _ h (omega (arith, length-with_check check))

  pub in_cksum-done : in_cksum (take 20 done) ≡ 0
  in_cksum-done =
      ap in_cksum (within 20 (omega arith) ∙ take-with_check check)
      ∙ in_cksum_self 5 head (take 8 tail) (omega (arith, length-head))
          (omega (arith, length-head, length-take 8 tail)) (All-take IsByte 10 buff bytes)
          (All-take IsByte 8 tail (All-drop IsByte 12 buff bytes))

  -- A packet of bytes whose IP header has no options, and so 20 bytes, with room for the header of UDP:
  -- `form_checksums` returns it with a checksum of the IP header that verifies and a cleared one of
  -- UDP; all other bytes stay.
  pub form_checksums-verifies :
      header_words buff ≡ 5
      → (done : List ℕ) × (form_checksums buff ≡ some done)
        × (in_cksum (take 20 done) ≡ 0)
        × (take 10 done ≡ take 10 buff)
        × (drop 12 (take 26 done) ≡ drop 12 (take 26 buff))
        × (drop 26 done ≡ 0 ∷ 0 ∷ drop 28 buff)
  form_checksums-verifies no_options = (
    done,
    form_checksums-done,
    in_cksum-done,
    start,
    subst (λ k. drop 12 (take k done) ≡ drop 12 (take k buff)) place middle,
    subst (λ k. drop k done ≡ 0 ∷ 0 ∷ drop (k + 2) buff) place end,
  )
    where
      place : udp ≡ 26
      place = omega (arith, no_options)

      start : take 10 done ≡ take 10 buff
      start =
          within 10 (omega arith)
          ∙ take_behind head (le16 check ++ tail) 10 0 (omega (arith, length-head))
          ∙ append-nil head

      middle : drop 12 (take udp done) ≡ drop 12 (take udp buff)
      middle =
          ap (drop 12) (within udp (omega arith))
          ∙ drop-take 12 udp (with_check check) (omega arith)
          ∙ ap (take (udp - 12)) (drop-with_check check 12 (omega arith))
          ∙ sym (drop-take 12 udp buff (omega arith))

      end : drop udp done ≡ 0 ∷ 0 ∷ drop (udp + 2) buff
      end =
          drop_behind (take udp (with_check check)) _ udp 0
            (omega (arith, length-take udp (with_check check), length-with_check check))
          ∙ ap (λ t. 0 ∷ 0 ∷ t) (drop-with_check check (udp + 2) (omega arith))
