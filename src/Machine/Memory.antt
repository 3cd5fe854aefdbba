-- ===== src/Machine/Memory.antt =====
-- A `char` array as the list of its bytes. An access outside it is undefined: `none`.
use dionysius.Common.{
  ℕ, suc, ◌+◌, ◌-◌, ◌≤◌, ◌<◌, List, [], ◌∷◌, ◌++◌, append_assoc, Option, none, some, take, drop,
  length, length-append, take_append, drop_append, drop_past, All, ◌≡◌, ◌≢◌, refl, ap, sym, ◌∙◌,
  arith, leb, le→leb, false, ◌==◌, if◌then◌else◌,
}

-- `memcpy` into an array at an offset.
pub write : List ℕ → ℕ → List ℕ → Option (List ℕ)
write buff off bs =
    if leb (off + length bs) (length buff)
    then some (take off buff ++ (bs ++ drop (off + length bs) buff))
    else none

-- `n` bytes of an array from an offset.
unfoldable pub read : List ℕ → ℕ → ℕ → Option (List ℕ)
read buff off n = if leb (off + n) (length buff) then some (take n (drop off buff)) else none

-- The C string that `c_str` of a `string` with these bytes points to: it ends at the first zero.
unfoldable pub c_str : List ℕ → List ℕ
c_str [] = []
c_str (b ∷ bs) = if b == 0 then [] else b ∷ c_str bs

-- `strcpy` writes the C string and its terminator.
pub strcpy : List ℕ → ℕ → List ℕ → Option (List ℕ)
strcpy buff off text = write buff off (c_str text ++ 0 ∷ [])

-- The distance of two addresses, which `string (const char*, size_t)` takes; a negative one is
-- converted to a length that makes it throw.
pub distance : ℕ → ℕ → Option ℕ
distance from to = if leb from to then some (to - from) else none

abbrev pub NonZero : ℕ → Type 0
NonZero b = b ≢ 0

pub c_str_lem : (bs : List ℕ) → All NonZero bs → c_str bs ≡ bs
unfolding c_str
c_str_lem [] h = refl
c_str_lem (b ∷ bs) h = ground (arith, c_str_lem bs h.1)

-- A write behind a prefix of known length.
pub write_behind :
    (done rest bs : List ℕ) (off : ℕ)
    → off ≡ length done
    → length bs ≤ length rest
    → write (done ++ rest) off bs ≡ some (done ++ (bs ++ drop (length bs) rest))
unfolding write
write_behind done rest bs off e h =
    rw (e, le→leb (length done + length bs) (length (done ++ rest)) fits, take_append done rest)
      (rw (drop_past done rest (length bs)))
  where
    fits : length done + length bs ≤ length (done ++ rest)
    fits = omega (arith, length-append done rest)

pub read_behind :
    (done mid rest : List ℕ) (off n : ℕ)
    → off ≡ length done
    → n ≡ length mid
    → read (done ++ (mid ++ rest)) off n ≡ some mid
unfolding read
read_behind done mid rest off n e h =
    rw (e, h, le→leb (length done + length mid) (length (done ++ (mid ++ rest))) fits)
      (rw (drop_append done (mid ++ rest), take_append mid rest))
  where
    fits : length done + length mid ≤ length (done ++ (mid ++ rest))
    fits = omega (arith, length-append done (mid ++ rest), length-append mid rest)

-- The same write, with what is written behind the prefix.
pub write_next :
    (done rest bs : List ℕ) (off : ℕ)
    → off ≡ length done
    → length bs ≤ length rest
    → write (done ++ rest) off bs ≡ some ((done ++ bs) ++ drop (length bs) rest)
write_next done rest bs off e h =
    write_behind done rest bs off e h ∙ ap some (sym (append_assoc done bs (drop (length bs) rest)))

-- A C string of nonzero bytes is copied whole, and its terminator lies behind it.
pub strcpy_next :
    (done rest text : List ℕ) (off : ℕ)
    → All NonZero text
    → off ≡ length done
    → length text < length rest
    → strcpy (done ++ rest) off text ≡ some ((done ++ text) ++ 0 ∷ drop (suc (length text)) rest)
unfolding strcpy
strcpy_next done rest text off nz e h =
    rw (c_str_lem text nz)
      (write_behind done rest (text ++ 0 ∷ []) off e (omega (arith, terminated)) ∙ ap some regroup)
  where
    terminated : length (text ++ 0 ∷ []) ≡ suc (length text)
    terminated = omega (arith, length-append text (0 ∷ []))

    regroup :
        done ++ ((text ++ 0 ∷ []) ++ drop (length (text ++ 0 ∷ [])) rest)
        ≡ (done ++ text) ++ 0 ∷ drop (suc (length text)) rest
    regroup = simp (terminated, append_assoc)

-- The same read, of an array that is known up to regrouping.
pub read_part :
    {buff : List ℕ} (done mid rest : List ℕ) (off n : ℕ)
    → buff ≡ done ++ (mid ++ rest)
    → off ≡ length done
    → n ≡ length mid
    → read buff off n ≡ some mid
read_part done mid rest off n shape e h = rw shape (read_behind done mid rest off n e h)

pub distance_lem : (from to : ℕ) → from ≤ to → distance from to ≡ some (to - from)
unfolding distance
distance_lem from to h = rw (le→leb from to h)

pub write_lem :
    (buff : List ℕ) (off : ℕ) (bs : List ℕ)
    → off + length bs ≤ length buff
    → write buff off bs ≡ some (take off buff ++ (bs ++ drop (off + length bs) buff))
unfolding write
write_lem buff off bs h = rw (le→leb (off + length bs) (length buff) h)

pub read_lem :
    (buff : List ℕ) (off n : ℕ)
    → off + n ≤ length buff
    → read buff off n ≡ some (take n (drop off buff))
read_lem buff off n h = unfold read in rw (le→leb (off + n) (length buff) h)

pub write-none :
    (buff : List ℕ) (off : ℕ) (bs : List ℕ)
    → length buff < off + length bs
    → write buff off bs ≡ none
unfolding write
write-none buff off bs h =
    let past : leb (off + length bs) (length buff) ≡ false = ground (arith, h) in rw past
