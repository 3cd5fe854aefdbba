-- ===== src/Discovery/Sending/Fragments.antt =====
-- The two fragments that `send_fragmented_message` of sqrkal_discovery.cpp makes of a packet.
use dionysius.Common.{
  ℕ, ◌+◌, ◌-◌, ◌%◌, ◌≤◌, List, ◌++◌, length, length-append, length-take, length-drop, take, drop,
  drop_behind, All-append, All-take, All-drop, some, ◌≡◌, ap, ◌∙◌, arith,
}
use dionysius.Machine.{
  le16, be16, read_lem, patched, write-patched, length-patched, drop-patched, get_or-take,
}
use dionysius.Message.{IsByte}
use dionysius.Discovery.Sending.Build.{set_fragment, first_fragment, second_fragment}
use dionysius.Discovery.Sending.Checked.{
  IsPacket, patched-IsPacket, patched_be-IsPacket, Checked, check,
}

module _ (buff : List ℕ) (bytes_read : ℕ) (p : IsPacket buff) (long : 1508 ≤ bytes_read)
    (held : bytes_read ≤ length buff) where
  -- The fields of the first fragment are set.
  abbrev pub numbered : ℕ → List ℕ
  numbered id = patched buff 4 (be16 id)

  abbrev pub marked : ℕ → List ℕ
  marked id = patched (numbered id) 6 (be16 8192)

  abbrev pub measured : ℕ → List ℕ
  measured id = patched (marked id) 2 (le16 1500)

  numbered-IsPacket : (id : ℕ) → IsPacket (numbered id)
  numbered-IsPacket id = patched_be-IsPacket buff 4 id p (omega arith) (omega arith)

  marked-IsPacket : (id : ℕ) → IsPacket (marked id)
  marked-IsPacket id =
      patched_be-IsPacket (numbered id) 6 8192 (numbered-IsPacket id) (omega arith) (omega arith)

  measured-IsPacket : (id : ℕ) → IsPacket (measured id)
  measured-IsPacket id =
      patched-IsPacket (marked id) 2 1500 (marked-IsPacket id) (omega arith) (omega arith)

  pub drop-measured : (id m : ℕ) → 8 ≤ m → drop m (measured id) ≡ drop m buff
  drop-measured id m h =
      drop-patched (marked id) 2 (le16 1500) (omega (arith, r.room)) m (omega arith)
      ∙ drop-patched (numbered id) 6 (be16 8192) (omega (arith, q.room)) m (omega arith)
      ∙ drop-patched buff 4 (be16 id) (omega (arith, p.room)) m (omega arith)
    where
      q : IsPacket (numbered id)
      q = numbered-IsPacket id

      r : IsPacket (marked id)
      r = marked-IsPacket id

  length-measured : (id : ℕ) → length (measured id) ≡ length buff
  length-measured id =
      length-patched (marked id) 2 (le16 1500) (omega (arith, r.room))
      ∙ length-patched (numbered id) 6 (be16 8192) (omega (arith, q.room))
      ∙ length-patched buff 4 (be16 id) (omega (arith, p.room))
    where
      q : IsPacket (numbered id)
      q = numbered-IsPacket id

      r : IsPacket (marked id)
      r = marked-IsPacket id

  pub first : (id : ℕ) → Checked (measured id)
  first id = check (measured id) (measured-IsPacket id)

  pub first_fragment_lem : (id : ℕ) → first_fragment id buff ≡ some (first id).packet
  unfolding first_fragment set_fragment
  first_fragment_lem id = rw (write-patched buff 4 (be16 id) (omega (arith, p.room))) (
      rw (write-patched (numbered id) 6 (be16 8192) (omega (arith, q.room)))
        (rw (write-patched (marked id) 2 (le16 1500) (omega (arith, r.room))) (first id).formed))
    where
      q : IsPacket (numbered id)
      q = numbered-IsPacket id

      r : IsPacket (marked id)
      r = marked-IsPacket id

  -- What the first fragment does not carry.
  abbrev pub rest : List ℕ
  rest = take (bytes_read - 1500) (drop 1500 buff)

  abbrev pub copied : ℕ → List ℕ
  copied id = take 20 (first id).packet ++ rest

  length-rest : length rest ≡ bytes_read - 1500
  length-rest =
      omega (arith, length-take (bytes_read - 1500) (drop 1500 buff), length-drop 1500 buff, held)

  pub length-first : (id : ℕ) → length (first id).packet ≡ length buff
  length-first id = (first id).size ∙ length-measured id

  pub length-copied : (id : ℕ) → length (copied id) ≡ bytes_read - 1480
  length-copied id = omega (
    arith,
    length-append (take 20 (first id).packet) rest,
    length-take 20 (first id).packet,
    length-first id,
    length-rest,
    p.room,
  )

  copied-IsPacket : (id : ℕ) → IsPacket (copied id)
  copied-IsPacket id = record {
    bytes =
        All-append IsByte (take 20 (first id).packet) rest
          (All-take IsByte 20 (first id).packet (first id).is_packet.bytes)
          (All-take IsByte (bytes_read - 1500) (drop 1500 buff)
            (All-drop IsByte 1500 buff p.bytes));
    no_options =
        ap (λ b. b % 16)
          (get_or-take (first id).packet rest 20 0 (omega arith)
            (omega (arith, length-first id, p.room)))
        ∙ (first id).is_packet.no_options;
    room = omega (arith, length-copied id);
  }

  abbrev pub offset : ℕ → List ℕ
  offset id = patched (copied id) 6 (be16 185)

  abbrev pub resized : ℕ → List ℕ
  resized id = patched (offset id) 2 (le16 (bytes_read - 1500 + 20))

  offset-IsPacket : (id : ℕ) → IsPacket (offset id)
  offset-IsPacket id =
      patched_be-IsPacket (copied id) 6 185 (copied-IsPacket id) (omega arith) (omega arith)

  resized-IsPacket : (id : ℕ) → IsPacket (resized id)
  resized-IsPacket id =
      patched-IsPacket (offset id) 2 (bytes_read - 1500 + 20) (offset-IsPacket id) (omega arith)
        (omega arith)

  pub second : (id : ℕ) → Checked (resized id)
  second id = check (resized id) (resized-IsPacket id)

  pub second_fragment_lem :
      (id : ℕ) → second_fragment (first id).packet bytes_read ≡ some (second id).packet
  unfolding second_fragment set_fragment
  second_fragment_lem id =
      rw (read_lem (first id).packet 0 20 (omega (arith, length-first id, p.room))) (
        rw
          (read_lem (first id).packet 1500 (bytes_read - 1500)
            (omega (arith, length-first id, held)))
          (rw behind (
            rw (write-patched (copied id) 6 (be16 185) (omega (arith, length-copied id))) (
              rw
                (write-patched (offset id) 2 (le16 (bytes_read - 1500 + 20))
                  (omega (arith, o.room)))
                (second id).formed))))
    where
      o : IsPacket (offset id)
      o = offset-IsPacket id

      behind : drop 1500 (first id).packet ≡ drop 1500 buff
      behind = (first id).behind 1500 (omega arith) ∙ drop-measured id 1500 (omega arith)

  pub length-second : (id : ℕ) → length (second id).packet ≡ bytes_read - 1500 + 20
  length-second id =
      (second id).size
      ∙ length-patched (offset id) 2 (le16 (bytes_read - 1500 + 20)) (omega (arith, o.room))
      ∙ length-patched (copied id) 6 (be16 185) (omega (arith, length-copied id))
      ∙ length-copied id
      ∙ omega arith
    where
      o : IsPacket (offset id)
      o = offset-IsPacket id

  -- The payload of the second fragment.
  pub drop-resized : (id : ℕ) → drop 20 (resized id) ≡ rest
  drop-resized id =
      drop-patched (offset id) 2 (le16 (bytes_read - 1500 + 20)) (omega (arith, o.room)) 20
        (omega arith)
      ∙ drop-patched (copied id) 6 (be16 185) (omega (arith, length-copied id)) 20 (omega arith)
      ∙ drop_behind (take 20 (first id).packet) rest 20 0
          (omega (arith, length-take 20 (first id).packet, length-first id, p.room))
    where
      o : IsPacket (offset id)
      o = offset-IsPacket id
