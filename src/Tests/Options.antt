-- ===== src/Tests/Options.antt =====
-- Option strings on concrete numbers.
use dionysius.Common.{[], ◌∷◌, ◌++◌, ◌≡◌, refl, arith, pos, negsuc}
use dionysius.Options.{print_digits, print_int, atoi, first_option, second_option, hello_options}
use dionysius.Options.Decimal.{atoi-print_int}
use dionysius.Options.Negotiate.{options-hello_options}
use dionysius.Sdp.{Sdp, process_sdp_srpp}
use dionysius.Sdp.Laws.{process_sdp_srpp-hello_options}

print_42 : print_int (pos 42) ≡ b'4' ∷ b'2' ∷ []
unfolding print_int print_digits
print_42 = refl

atoi-print_int_example : atoi (print_int (negsuc 41) ++ b',' ∷ []) ≡ negsuc 41
atoi-print_int_example = atoi-print_int (negsuc 41) (b',' ∷ []) refl

options-hello_options_example :
    (first_option (hello_options (pos 65000) (pos 1464) ++ 9 ∷ []) ≡ pos 65000)
    × (second_option (hello_options (pos 65000) (pos 1464) ++ 9 ∷ []) ≡ pos 1464)
options-hello_options_example =
    options-hello_options 65000 1464 (9 ∷ []) (omega arith) (omega arith)

abbrev offer : Sdp
offer = record { valid = 0; srpp_active = 1; options = []; key = pos 7; maxpacketlength = pos 1500 }

process_sdp_srpp-hello_options_example :
    process_sdp_srpp (hello_options (pos 4321) (pos 1000)) offer ≡ record offer {
      options = hello_options (pos 4321) (pos 1000);
      key = pos 4321;
      maxpacketlength = pos 1000;
      valid = 1;
    }
process_sdp_srpp-hello_options_example =
    process_sdp_srpp-hello_options 4321 1500 1000 offer (omega arith) (omega arith) refl
