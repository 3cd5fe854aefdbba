-- ===== src/Tests/Data.antt =====
-- The states and messages of the tests.
use dionysius.Common.{
  ℕ, zero, suc, ◌+◌, ◌<◌, List, [], ◌∷◌, get_elem?, Option, none, some, true, pos, ◌≡◌, refl, arith,
}
use dionysius.Message.{SrppHeader, SrppEncrypted, SrppMessage, IsInRange, no_csrc}
use dionysius.Wire.{toggle_count}
use dionysius.Wire.Layout.{IsHeader}
use dionysius.Wire.Send.{IsSendable, IsMedia}
use dionysius.Timer.{Timer}
use dionysius.World.Host.{new_host}
use dionysius.World.{World, failed, pure}
use dionysius.Transport.{Library}
use dionysius.Signaling.{new_signaling}
use dionysius.Signaling.Flags.{IsValid}
use dionysius.Padding.Filling.{IsFilled}

abbrev pub some_rand : ℕ → ℕ
some_rand seed = seed + 41

abbrev pub some_library : Library
some_library = record {
  first_rand = some_rand;
  scaled = λ pay_size m l. 1366;
  receive_processor = pure none;
}

abbrev pub header_of : ℕ → ℕ → SrppHeader
header_of pt signal = record {
  version = 2;
  p = 0;
  x = 1;
  cc = 0;
  m = 0;
  pt = pt;
  seq = 513;
  ts = 70000;
  ssrc = 99;
  csrc = no_csrc;
  defined_by_profile = 9999;
  extension_header = 1;
  srpp_signalling = signal;
}

-- Three bytes of payload, two of padding, and the count 2 under the key 1655.
abbrev pub media_part : SrppEncrypted
media_part = record {
  original_payload = 72 ∷ 105 ∷ 33 ∷ [];
  srpp_padding = 7 ∷ 200 ∷ [];
  pad_count = 1653;
  original_padding_bit = 1;
  dummy_flag = 0;
  original_seq_number = 513;
}

abbrev pub media_message : SrppMessage
media_message = record {
  srpp_header = header_of 121 0;
  encrypted_part = media_part;
  authentication_tag = 305419896;
}

abbrev pub signal_message : SrppMessage
signal_message = record {
  srpp_header = header_of 124 12;
  encrypted_part = record media_part { srpp_padding = []; pad_count = 0 };
  authentication_tag = 0;
}

abbrev pub blank_message : SrppMessage
blank_message = record media_message {
  encrypted_part = record media_part { original_payload = [] };
}

pub media_part-IsInRange : IsInRange media_part
media_part-IsInRange = record {
  payload_bytes = (omega arith, (omega arith, (omega arith, tt)));
  padding_bytes = (omega arith, (omega arith, tt));
  pad_count_word = omega arith;
  padding_bit = omega arith;
  flag_word = omega arith;
  seq_word = omega arith;
}

header-IsHeader : (pt signal : ℕ) → pt < 128 → signal < 4294967296 → IsHeader (header_of pt signal)
header-IsHeader pt signal h k = record {
  version_bits = omega arith;
  p_bit = omega arith;
  x_bit = omega arith;
  no_sources = refl;
  m_bit = omega arith;
  pt_bits = h;
  seq_word = omega arith;
  ts_word = omega arith;
  ssrc_word = omega arith;
  profile_word = omega arith;
  extension_word = omega arith;
  signalling_word = k;
}

pub media_message-IsMedia : IsMedia (pos 1655) media_message
unfolding toggle_count
media_message-IsMedia = record {
  sendable = record {
    header = header-IsHeader 121 0 (omega arith) (omega arith);
    fields = media_part-IsInRange;
    payload_text = (omega arith, (omega arith, (omega arith, tt)));
  };
  media = refl;
  padding_text = (omega arith, (omega arith, tt));
  counted = refl;
}

pub signal_message-IsSendable : IsSendable signal_message
signal_message-IsSendable = record {
  header = header-IsHeader 124 12 (omega arith) (omega arith);
  fields = record {
    payload_bytes = (omega arith, (omega arith, (omega arith, tt)));
    padding_bytes = tt;
    pad_count_word = omega arith;
    padding_bit = omega arith;
    flag_word = omega arith;
    seq_word = omega arith;
  };
  payload_text = (omega arith, (omega arith, (omega arith, tt)));
}

abbrev pub copies : {A : Type 0} → ℕ → A → List A
copies zero a = []
copies (suc n) a = a ∷ copies n a

get_elem?-copies : {A : Type 0} (n i : ℕ) (a : A) → i < n → get_elem? (copies n a) i ≡ some a
get_elem?-copies zero i a h = absurd (omega arith)
get_elem?-copies (suc n) zero a h = refl
get_elem?-copies (suc n) (suc i) a h = get_elem?-copies n i a (omega arith)

abbrev pub some_timer : Timer
some_timer = record {
  packet_interval = 300;
  silence_interval = 400;
  packet_counter = 350;
  silence_counter = 12;
  packet_on = true;
  silence_on = true;
}

-- Full bandwidth, and one hundred copies of a dummy in the cache.
abbrev pub some_world : World
some_world = record {
  signaling = new_signaling;
  session = record { encryption_key = 1655; maxpacketsize = pos 1464; sender_port = 5000 };
  timer = some_timer;
  padding = record {
    dummy_cache = copies 100 media_message;
    is_full_bandwidth = 1;
    gradual_ascent_bandwidth = 0;
    is_burst_padding = 0;
    is_min_bin_padding = 0;
    is_small_perturbation = 0;
    lastmaxbandwidth = 0;
  };
  last_sequence_no = 40;
  rtp_sequence_no = 0;
  maxpacketsize = pos 1464;
  srppssrc = 99;
  nonsrpp_message_count = 0;
  packet_to_send = 0;
  srpp_enabled = 1;
  signaling_by_srpp = 1;
  send_external = 0;
  receive_external = 0;
  host = new_host blank_message;
  outbox = [];
  arrivals = λ n. failed;
  answers = λ n. n + 5;
}

pub some_world-IsValid : IsValid some_world
some_world-IsValid = omega arith

pub some_world-IsFilled : IsFilled some_world.padding.dummy_cache
some_world-IsFilled i h =
    (media_message, get_elem?-copies 100 i media_message (omega arith), omega arith)

abbrev pub no_message : Option SrppMessage
no_message = none
