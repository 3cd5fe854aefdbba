-- ===== src/Sdp/Laws.antt =====
-- What `process_sdp_srpp` makes of the options of the other end.
use dionysius.Common.{
  ℕ, ◌^◌, ◌<◌, ltb, [], ◌≡◌, ◌∙◌, ap, sym, append-nil, arith, pos, if◌then◌else◌,
}
use dionysius.Options.{first_option, second_option, hello_options}
use dionysius.Options.Negotiate.{options-hello_options}
use dionysius.Sdp.{Sdp, process_sdp_srpp}

module _ (key ours theirs : ℕ) (d : Sdp) (short : key < 10 ^ 5) (small : theirs < 10 ^ 8) where
  -- A description with a packet size that is not negative, which processes the options string of
  -- a key below 100000 and a packet size below 100000000, becomes valid, with that key and the
  -- smaller packet size of the two.
  pub process_sdp_srpp-hello_options :
      d.maxpacketlength ≡ pos ours
      → process_sdp_srpp (hello_options (pos key) (pos theirs)) d ≡ record d {
        options = hello_options (pos key) (pos theirs);
        key = pos key;
        maxpacketlength = if ltb theirs ours then pos theirs else pos ours;
        valid = 1;
      }
  unfolding process_sdp_srpp
  process_sdp_srpp-hello_options h = rw (h, read_first, read_second) (ground arith)
    where
      read_first : first_option (hello_options (pos key) (pos theirs)) ≡ pos key
      read_first =
          ap first_option (sym (append-nil (hello_options (pos key) (pos theirs))))
          ∙ (options-hello_options key theirs [] short small).0

      read_second : second_option (hello_options (pos key) (pos theirs)) ≡ pos theirs
      read_second =
          ap second_option (sym (append-nil (hello_options (pos key) (pos theirs))))
          ∙ (options-hello_options key theirs [] short small).1
