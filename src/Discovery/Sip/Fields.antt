-- ===== src/Discovery/Sip/Fields.antt =====
-- sqrkal_discovery/sqrkal_discovery.cpp: the fields that `parse_sip` cuts out of a message.
use dionysius.Common.{
  ℕ, ◌+◌, ◌-◌, ◌%◌, ◌^◌, List, [], ◌∷◌, ◌++◌, ◌==◌, if◌then◌else◌, Bool, false, ℤ, pos, negsuc,
  codes, find, find_first_of, contains, substr, Option, ◌>>=◌, some,
}
use dionysius.Machine.{c_str}
use dionysius.Options.{atoi}

-- A place as an `unsigned int`.
abbrev pub word : ℕ → ℕ
word n = n % 2 ^ 32

-- `end - start - skipped` of `unsigned int`.
abbrev pub span : ℕ → ℕ → ℕ → ℕ
span start skipped end = (end + 2 ^ 33 - start - skipped) % 2 ^ 32

abbrev pub is_no_port : ℤ → Bool
is_no_port (pos n) = n == 0
is_no_port (negsuc n) = false

-- `m=audio`, and the space behind the port.
unfoldable pub audio_start : List ℕ → ℕ
audio_start message = word (find message (codes "m=audio ") 0)

unfoldable pub audio_end : List ℕ → ℕ
audio_end message = word (find_first_of message (codes " ") (word (audio_start message + 8)))

unfoldable pub audio_port : List ℕ → Option ℤ
audio_port message = do
  let l = audio_start message
  text ← substr message (word (l + 8)) (span l 8 (audio_end message))
  some (atoi (c_str text))

-- The address behind `c=IN IP4`.
pub connection_address : List ℕ → Option (List ℕ)
connection_address message =
    let l = word (find message (codes "c=IN IP4 ") 0) in
    let m = word (find_first_of message (b' ' ∷ 10 ∷ []) (word (l + 9))) in
    substr message (word (l + 9)) (span l 9 m)

-- `"sip."` and the domain behind the `@` of an INVITE.
pub invite_host : List ℕ → Option (List ℕ)
invite_host message = do
  let at = word (find message (codes "INVITE sip:") 0)
  let m = word (find message (codes "@") (word (at + 11)))
  let l = word (find message (codes " ") m)
  name ← substr message (word (m + 1)) (span m 1 l)
  some (codes "sip." ++ name)

-- The end of the domain of a REGISTER is computed in 64 bits.
pub register_host : List ℕ → Option (List ℕ)
register_host message = do
  let l = word (find message (codes "REGISTER sip:") 0)
  let from = word (l + 13)
  name ← substr message from ((find message (codes " ") from + 2 ^ 64 - l - 13) % 2 ^ 64)
  some (codes "sip." ++ name)

-- The domain of a SUBSCRIBE or a PUBLISH.
pub subscribe_host : List ℕ → Option (List ℕ)
subscribe_host message =
    let l = word (
      if contains message (codes "SUBSCRIBE sip:") 0
      then find message (codes "SUBSCRIBE sip:") 0
      else find message (codes "PUBLISH sip:") 0) in
    let m = word (find message (codes "@") (word (l + 14))) in
    let end = word (find_first_of message (codes " :") m) in
    substr message (word (m + 1)) (span m 1 end)
