-- ===== src/Padding/Signals.antt =====
-- The signals that drive the timers of srpp_timer.cpp, while burst padding is off.
use native.Mathlib.Nat.{mod-eq_of_lt, mod-add-mod, mod-lt, mod_self}
use dionysius.Common.{
  ℕ, zero, suc, ◌+◌, ◌%◌, ◌^◌, ◌<◌, ◌≤◌, Bool, true, false, Bool-cases, inl, inr, if◌then◌else◌,
  ◌==◌, ==_iff, ◌&&◌, some, ◌≡◌, refl, ap, ◌∙◌, sym, arith,
}
use dionysius.Timer.{
  Timer, count_tick, packet_due, silence_due, start_packet, reset_packet, reset_silence,
}
use dionysius.World.{
  World, M, pure, ◌>>=◌, ◌>>◌, gets, modify, reset_packet_timer, reset_silence_timer,
}
use dionysius.World.Frames.{bind-some}
use dionysius.Transport.{Library}
use dionysius.Padding.Algorithms.{
  default_cbp_pad_algo, default_ebp_pad_algo, pkt_timer_fired, silence_timer_fired, timer_fired,
}

-- Some signals in a row.
abbrev pub signals : Library → ℕ → M (Unit {0})
signals lib zero = pure tt
signals lib (suc n) = timer_fired lib >>= λ _. signals lib n

-- A counter after a signal: it is reset where the timer fires.
abbrev next_count : Bool → ℕ → ℕ → ℕ
next_count on interval count = if count + 1 == interval && on then 0 else count + 1

abbrev with_counts : ℕ → ℕ → World → World
with_counts packet silence w = record w {
  timer = record w.timer { packet_counter = packet; silence_counter = silence };
}

module _ (lib : Library) (w : World) (off : w.padding.is_burst_padding ≡ 0) where
  abbrev t : Timer
  t = w.timer

  no_burst :
      (v : World) → v.padding.is_burst_padding ≡ 0 → default_cbp_pad_algo lib v ≡ some (tt, v)
  unfolding default_cbp_pad_algo gets pure
  no_burst v none = bind-some (gets _) _ refl ∙ rw (ap (λ k. k == 0) none) refl

  no_extra_burst :
      (v : World) → v.padding.is_burst_padding ≡ 0 → default_ebp_pad_algo lib v ≡ some (tt, v)
  unfolding default_ebp_pad_algo gets pure
  no_extra_burst v none = bind-some (gets _) _ refl ∙ rw (ap (λ k. k == 0) none) refl

  fire_packet :
      pkt_timer_fired lib (with_counts (t.packet_counter + 1) (t.silence_counter + 1) w)
      ≡ some (tt, with_counts 0 (t.silence_counter + 1) w)
  unfolding pkt_timer_fired reset_packet_timer reset_packet modify ◌>>◌
  fire_packet = bind-some (default_cbp_pad_algo lib) _ (no_burst _ off) ∙ refl

  fire_silence :
      (packet : ℕ)
      → silence_timer_fired lib (with_counts packet (t.silence_counter + 1) w)
        ≡ some (tt, with_counts packet 0 w)
  unfolding silence_timer_fired reset_silence_timer reset_silence modify ◌>>◌
  fire_silence packet = bind-some (default_ebp_pad_algo lib) _ (no_extra_burst _ off) ∙ refl

  abbrev packet_next : ℕ
  packet_next = next_count t.packet_on t.packet_interval t.packet_counter

  abbrev silence_next : ℕ
  silence_next = next_count t.silence_on t.silence_interval t.silence_counter

  packet_part :
      (if t.packet_counter + 1 == t.packet_interval && t.packet_on
          then pkt_timer_fired lib
          else pure tt)
        (with_counts (t.packet_counter + 1) (t.silence_counter + 1) w)
      ≡ some (tt, with_counts packet_next (t.silence_counter + 1) w)
  unfolding pure
  packet_part = elim (Bool-cases (t.packet_counter + 1 == t.packet_interval && t.packet_on)) [
    | inl due ↦ rw due fire_packet
    | inr early ↦ rw early refl
  ]

  silence_part :
      (packet : ℕ)
      → (if t.silence_counter + 1 == t.silence_interval && t.silence_on
            then silence_timer_fired lib
            else pure tt)
          (with_counts packet (t.silence_counter + 1) w)
        ≡ some (tt, with_counts packet silence_next w)
  unfolding pure
  silence_part packet =
      elim (Bool-cases (t.silence_counter + 1 == t.silence_interval && t.silence_on)) [
        | inl due ↦ rw due (fire_silence packet)
        | inr early ↦ rw early refl
      ]

  timer_fired_lem : timer_fired lib w ≡ some (tt, with_counts packet_next silence_next w)
  unfolding timer_fired count_tick packet_due silence_due gets modify ◌>>◌
  timer_fired_lem =
      bind-some (modify _) _ refl
      ∙ bind-some (gets _) _ refl
      ∙ bind-some
          (if t.packet_counter + 1 == t.packet_interval && t.packet_on
            then pkt_timer_fired lib
            else pure tt)
          _ packet_part
      ∙ bind-some (gets _) _ refl
      ∙ silence_part packet_next

below :
    (interval count : ℕ) → count < interval → (count + 1 == interval) ≡ false → count + 1 < interval
below interval count h more = ground (arith, h, more)

next_mod :
    (interval count : ℕ)
    → count < interval
    → next_count true interval count ≡ (count + 1) % interval
next_mod interval count h = elim (Bool-cases (count + 1 == interval)) [
  | inl last ↦ rw last (
      sym (mod_self interval) ∙ ap (λ n. n % interval) (sym ((==_iff (count + 1) interval).0 last)))
  | inr more ↦ rw more (sym (mod-eq_of_lt (below interval count h more)))
]

mod_step :
    (interval count n : ℕ) → ((count + 1) % interval + n) % interval ≡ (count + suc n) % interval
mod_step interval count n =
    mod-add-mod (count + 1) interval n ∙ ap (λ k. k % interval) (omega arith)

-- Both timers run, with counters below their intervals.
pub record IsRunning (t : Timer) : Type 0 where
  pub packet : t.packet_on ≡ true
  pub silence : t.silence_on ≡ true
  pub packet_below : t.packet_counter < t.packet_interval
  pub silence_below : t.silence_counter < t.silence_interval

-- While burst padding is off and both timers run, with counters below their intervals, each counter,
-- which is reset when its timer fires, is after any number of signals the sum of what it was and that
-- number, modulo the interval: the timers fire once in each interval. Nothing else changes.
pub signals-periodic :
    (lib : Library) (n : ℕ) (w : World)
    → w.padding.is_burst_padding ≡ 0
    → IsRunning w.timer
    → signals lib n w
      ≡ some (
        tt,
        record w {
          timer = record w.timer {
            packet_counter = (w.timer.packet_counter + n) % w.timer.packet_interval;
            silence_counter = (w.timer.silence_counter + n) % w.timer.silence_interval;
          };
        },
      )
unfolding pure
signals-periodic lib zero w off r = λ i. some (tt, with_counts (packet i) (silence i) w)
  where
    packet : w.timer.packet_counter ≡ (w.timer.packet_counter + 0) % w.timer.packet_interval
    packet = sym (mod-eq_of_lt r.packet_below) ∙ ap (λ n. n % w.timer.packet_interval) (omega arith)

    silence : w.timer.silence_counter ≡ (w.timer.silence_counter + 0) % w.timer.silence_interval
    silence =
        sym (mod-eq_of_lt r.silence_below) ∙ ap (λ n. n % w.timer.silence_interval) (omega arith)
signals-periodic lib (suc n) w off r =
    bind-some (timer_fired lib) _
      (timer_fired_lem lib w off ∙ λ i. some (tt, with_counts (packet i) (silence i) w))
    ∙ signals-periodic lib n (with_counts packet_count silence_count w) off (record {
      packet = r.packet;
      silence = r.silence;
      packet_below = mod-lt (w.timer.packet_counter + 1) (omega (arith, r.packet_below));
      silence_below = mod-lt (w.timer.silence_counter + 1) (omega (arith, r.silence_below));
    })
    ∙ (λ i. some (
      tt,
      with_counts (mod_step w.timer.packet_interval w.timer.packet_counter n i)
          (mod_step w.timer.silence_interval w.timer.silence_counter n i) w,
    ))
  where
    packet_count : ℕ
    packet_count = (w.timer.packet_counter + 1) % w.timer.packet_interval

    silence_count : ℕ
    silence_count = (w.timer.silence_counter + 1) % w.timer.silence_interval

    packet : packet_next lib w off ≡ packet_count
    packet =
        ap (λ on. next_count on w.timer.packet_interval w.timer.packet_counter) r.packet
        ∙ next_mod w.timer.packet_interval w.timer.packet_counter r.packet_below

    silence : silence_next lib w off ≡ silence_count
    silence =
        ap (λ on. next_count on w.timer.silence_interval w.timer.silence_counter) r.silence
        ∙ next_mod w.timer.silence_interval w.timer.silence_counter r.silence_below

missed :
    (on : Bool) (interval count : ℕ) → interval ≤ count → next_count on interval count ≡ count + 1
missed on interval count h = rw past refl
  where
    past : (count + 1 == interval) ≡ false
    past = ground (arith, h)

signals_missed :
    (lib : Library) (n : ℕ) (w : World)
    → w.padding.is_burst_padding ≡ 0
    → w.timer.packet_interval ≤ w.timer.packet_counter
    → (w' : World) × (signals lib n w ≡ some (tt, w'))
      × (w'.timer.packet_counter ≡ w.timer.packet_counter + n)
      × (w'.outbox ≡ w.outbox)
unfolding pure
signals_missed lib zero w off h = (w, refl, omega arith, refl)
signals_missed lib (suc n) w off h =
    let rest =
      signals_missed lib n (with_counts (packet_next lib w off) (silence_next lib w off) w) off (
        omega
          (arith, h, missed w.timer.packet_on w.timer.packet_interval w.timer.packet_counter h)) in
    (
      rest.0,
      bind-some (timer_fired lib) _ (timer_fired_lem lib w off) ∙ rest.1,
      omega (
        arith,
        rest.2,
        missed w.timer.packet_on w.timer.packet_interval w.timer.packet_counter h,
      ),
      rest.3,
    )

-- While burst padding is off, a packet timer whose counter has reached its interval does not fire at any
-- of the signals that come after it is started, as long as the counter is below 2^31: they are all
-- counted, and the counter, which firing resets, is never reset. No packet is sent.
pub start_packet-missed :
    (lib : Library) (n : ℕ) (w : World)
    → w.padding.is_burst_padding ≡ 0
    → w.timer.packet_interval ≤ w.timer.packet_counter
    → w.timer.packet_counter + n < 2 ^ 31
    → (w' : World) × (signals lib n (record w { timer = start_packet w.timer }) ≡ some (tt, w'))
      × (w'.timer.packet_counter ≡ w.timer.packet_counter + n)
      × (w'.outbox ≡ w.outbox)
unfolding start_packet
start_packet-missed lib n w off h bounded =
    signals_missed lib n (record w { timer = start_packet w.timer }) off h
