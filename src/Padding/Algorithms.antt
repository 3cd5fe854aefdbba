-- ===== src/Padding/Algorithms.antt =====
-- libSRPP/src/Padding_Algorithms.cpp: packet size, current burst and extra burst padding; and the
-- functions of Padding_functions.cpp and srpp_timer.cpp that start them.
use dionysius.Common.{ℕ, zero, suc, if◌then◌else◌, ltb, leb, ◌==◌, ◌||◌, length, ℤ, pos, sub_ℕ}
use dionysius.Machine.{to_unsigned}
use dionysius.Message.{SrppMessage}
use dionysius.Timer.{count_tick, packet_due, silence_due}
use dionysius.World.{
  M, pure, ◌>>=◌, ◌>>◌, gets, modify, srpp_rand, reset_packet_timer, reset_silence_timer,
}
use dionysius.Transport.{Library, encrypt_with_session, send_message}
use dionysius.Padding.Cache.{
  with_dummy_flag, add_to_dummy_cache, generate_dummy_data, generate_dummy_pkt,
}

-- `PaddingAlgos::set_options`.
unfoldable pub set_options : ℕ → M (Unit {0})
set_options i = modify λ w. record w {
  padding =
      let p = w.padding in
      if i == 1
      then record p { is_full_bandwidth = 1 }
      else if i == 2
      then record p { is_burst_padding = 1 }
      else if i == 3
      then record p { gradual_ascent_bandwidth = 1 }
      else if i == 4
      then record p { is_min_bin_padding = 1 }
      else if i == 5
      then record p { is_small_perturbation = 1 }
      else p;
}

module _ (lib : Library) where
  -- The gradual ascent raises `lastmaxbandwidth` where the payload is past it.
  unfoldable pub ascend : ℕ → M (Unit {0})
  ascend pay_size = do
    last ← gets (λ w. w.padding.lastmaxbandwidth)
    if ltb last pay_size
        then (do
          l ← srpp_rand pay_size (pos 1366)
          m ← srpp_rand l (pos 1366)
          modify (λ w. record w {
            padding = record w.padding { lastmaxbandwidth = lib.scaled pay_size m l };
          }))
        else pure tt

  -- How much `default_psp_pad_algo` adds; three options override one another in turn.
  unfoldable pub bandwidth_size : ℕ → M ℤ
  bandwidth_size pay_size = do
    full ← gets (λ w. w.padding.is_full_bandwidth)
    let room = sub_ℕ 1366 pay_size
    if full == 0 then (srpp_rand 1 room >>= λ n. pure (pos n)) else pure room

  unfoldable pub ascent_size : ℕ → ℤ → M ℤ
  ascent_size pay_size extra = do
    gradual ← gets (λ w. w.padding.gradual_ascent_bandwidth)
    if gradual == 1
        then (do
          ascend pay_size
          last ← gets (λ w. w.padding.lastmaxbandwidth)
          n ← srpp_rand 1 (sub_ℕ last pay_size)
          pure (pos n))
        else pure extra

  unfoldable pub small_size : ℤ → M ℤ
  small_size extra = do
    p ← gets (λ w. w.padding)
    if p.is_small_perturbation == 1 || p.is_burst_padding == 1
        then (srpp_rand 0 (pos 10) >>= λ n. pure (pos n))
        else pure extra

  unfoldable pub extra_size : ℕ → M ℤ
  extra_size pay_size = do
    room ← bandwidth_size pay_size
    ascent ← ascent_size pay_size room
    small_size ascent

  -- `default_psp_pad_algo`, which `psp_pad_algo` and `packet_size_padding` call.
  unfoldable pub default_psp_pad_algo : SrppMessage → M SrppMessage
  default_psp_pad_algo msg = do
    extra ← extra_size (length msg.encrypted_part.original_payload)
    padding ← generate_dummy_data extra
    reset_packet_timer
    reset_silence_timer
    pure (record msg {
      encrypted_part = record msg.encrypted_part {
        srpp_padding = padding;
        pad_count = to_unsigned extra;
      };
    })

  -- `PaddingFunctions::pad`: on heads of a coin, the padded message goes to the cache too.
  unfoldable pub pad : SrppMessage → M SrppMessage
  pad msg = do
    padded ← default_psp_pad_algo msg
    let media = with_dummy_flag 0 padded
    coin ← srpp_rand 0 (pos 10)
    if leb coin 5 then (add_to_dummy_cache media >> pure media) else pure media

  -- The body of the loop of `default_cbp_pad_algo`.
  unfoldable pub burst_round : M (Unit {0})
  burst_round = do
    last ← gets (λ w. w.padding.lastmaxbandwidth)
    size ← srpp_rand 100 (pos last)
    dummy ← generate_dummy_pkt size
    encrypted ← encrypt_with_session dummy
    waiting ← gets (λ w. w.packet_to_send)
    if waiting == 0
        then (send_message lib encrypted >>= λ _. pure tt)
        else modify (λ w. record w { packet_to_send = 0 })
    reset_packet_timer
    reset_silence_timer

  unfoldable pub burst_rounds : ℕ → M (Unit {0})
  burst_rounds zero = pure tt
  burst_rounds (suc n) = do burst_round; burst_rounds n

  -- `default_cbp_pad_algo`, which `current_burst_padding` calls.
  unfoldable pub default_cbp_pad_algo : M (Unit {0})
  default_cbp_pad_algo = do
    burst ← gets (λ w. w.padding.is_burst_padding)
    if burst == 0
        then pure tt
        else do dummies ← srpp_rand 0 (pos 3); burst_rounds dummies; reset_packet_timer

  -- `default_ebp_pad_algo`, which `extra_burst_padding` calls.
  unfoldable pub default_ebp_pad_algo : M (Unit {0})
  default_ebp_pad_algo = do
    burst ← gets (λ w. w.padding.is_burst_padding)
    if burst == 0 then pure tt else do
      last ← gets (λ w. w.padding.lastmaxbandwidth)
      size ← srpp_rand 100 (pos last)
      dummy ← generate_dummy_pkt size
      encrypted ← encrypt_with_session dummy
      _ ← send_message lib encrypted
      pure tt

  -- `pkt_timer_fired` and `silence_timer_fired` of srpp_timer.cpp.
  unfoldable pub pkt_timer_fired : M (Unit {0})
  pkt_timer_fired = do default_cbp_pad_algo; reset_packet_timer

  unfoldable pub silence_timer_fired : M (Unit {0})
  silence_timer_fired = do default_ebp_pad_algo; reset_silence_timer

  -- `timer_fired` of srpp_timer.cpp, once in each millisecond.
  unfoldable pub timer_fired : M (Unit {0})
  timer_fired = do
    modify (λ w. record w { timer = count_tick w.timer })
    packet ← gets (λ w. packet_due w.timer)
    if packet then pkt_timer_fired else pure tt
    silence ← gets (λ w. silence_due w.timer)
    if silence then silence_timer_fired else pure tt
