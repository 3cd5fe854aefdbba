-- ===== src/Sdp.antt =====
-- libSRPP/include/sdp_srpp.hpp: SRPP in a session description.
pub mod Laws
use dionysius.Common.{
  ℕ, List, [], ◌∷◌, ◌++◌, Bool, true, false, if◌then◌else◌, ◌||◌, ℤ, pos, negsuc, is_negative,
  int_ltb, int_min,
}
use dionysius.Options.{first_option, second_option}

-- The class has no constructor: the fields hold anything at first.
pub record Sdp : Type 0 where
  pub valid : ℕ
  pub srpp_active : ℕ
  pub options : List ℕ
  pub key : ℤ
  pub maxpacketlength : ℤ

-- "a=srpp\na=srppmap:" and the options.
unfoldable pub get_sdp_srpp : Sdp → List ℕ
get_sdp_srpp d =
    (b'a' ∷ b'=' ∷ b's' ∷ b'r' ∷ b'p' ∷ b'p' ∷ 10 ∷ b'a' ∷ b'=' ∷ b's' ∷ b'r' ∷ b'p' ∷ b'p' ∷ b'm'
      ∷ b'a' ∷ b'p' ∷ b':' ∷ [])
    ++ d.options

unfoldable pub deactivate_srpp : Sdp → Sdp
deactivate_srpp d = record d { srpp_active = 0 }

unfoldable pub activate_srpp : Sdp → Sdp
activate_srpp d = record d { srpp_active = 1 }

-- `process_sdp_srpp`; an offer and an answer are handled alike.
pub process_sdp_srpp : List ℕ → Sdp → Sdp
process_sdp_srpp options d =
    let key = first_option options in
    let received = second_option options in
    let length = if int_ltb received d.maxpacketlength then received else d.maxpacketlength in
    record d {
      options = options;
      key = key;
      maxpacketlength = length;
      valid = if is_negative key || is_negative length then 0 else 1;
    }
