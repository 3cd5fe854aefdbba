-- ===== src/Tests/Calls.antt =====
-- SIP messages and the rules of the firewall.
use dionysius.Common.{
  ℕ, ◌%◌, ◌^◌, List, [], ◌∷◌, ◌++◌, drop, Bool, true, false, if◌then◌else◌, ◌&&◌, ◌==◌, pos, codes,
  contains, find, find_at, starts_with, some, ◌≡◌, refl, arith,
}
use dionysius.Machine.{to_int}
use dionysius.Options.{print_int, print_digits}
use dionysius.World.{World, pure, ◌>>=◌, ◌>>◌, gets, modify}
use dionysius.World.Frames.{Holds}
use dionysius.Timer.{pause_timer}
use dionysius.Session.{stop_session, pause_timers}
use dionysius.Discovery.State.{host_gets}
use dionysius.Discovery.Firewall.{add_all_rtp_rules, rtp_input, rtp_output}
use dionysius.Discovery.Firewall.Commands.{
  Iptables, table_after, appended, deleted, add_all_rtp_rules-atomic,
}
use dionysius.Discovery.Sip.{note, on_bye, on_answer, stop_srpp}
use dionysius.Discovery.Sip.Fields.{audio_port}
use dionysius.Discovery.Sip.AudioPort.{audio_port-print_int, audio_port-missing}
use dionysius.Discovery.Sip.Bye.{IsReset, ended, on_bye-resets}
use dionysius.Discovery.Sip.Answer.{begins, on_answer-begins}
use dionysius.Tests.Data.{some_library}
use dionysius.Tests.Discovery.{some_net, calling_world}

audio_port-print_int_example :
    audio_port (codes "c=IN" ++ (codes "m=audio " ++ (print_int (pos 5004) ++ b' ' ∷ codes "RTP")))
    ≡ some (pos 5004)
unfolding find find_at starts_with print_int print_digits
audio_port-print_int_example =
    audio_port-print_int (codes "c=IN") (codes "RTP") 5004 refl (omega arith) (omega arith)

audio_port-missing_example : audio_port (codes "SIP/2.0 " ++ codes "200 OK") ≡ some (pos 0)
unfolding contains find find_at starts_with
audio_port-missing_example = audio_port-missing (codes "200 OK") refl

-- A call with SRPP, agreed on by SDP.
abbrev called_world : World
called_world = record calling_world {
  host = record calling_world.host { apply_srpp = 1 };
  signaling_by_srpp = 0;
}

abbrev paused : World → World
paused w = record w { timer = pause_timer w.timer }

on_bye-resets_example :
    (w' : World) × (on_bye some_library some_net called_world ≡ some (pos 0, w'))
    × IsReset w'.host
    × (w'.host.commands
        ≡ record {
          line = deleted (rtp_output true (print_int (pos 5004)) 65);
          status = to_int (6 % 2 ^ 32);
        }
          ∷ record {
            line = deleted (rtp_input true (print_int (pos 5004)) 65);
            status = to_int (5 % 2 ^ 32);
          }
          ∷ [])
    × (w'.host.out_addr.sin_addr ≡ 0)
    × (w'.host.apply_srpp ≡ 1)
unfolding stop_srpp stop_session pause_timers pause_timer modify ◌>>◌ host_gets gets pure ◌>>=◌
    print_int print_digits
on_bye-resets_example =
    on_bye-resets some_library some_net called_world (paused (ended called_world)) refl
      (omega arith) (omega arith) refl refl

-- A table of rules, the newest first, from which the first rule that fits is deleted.
same_text : List ℕ → List ℕ → Bool
same_text [] [] = true
same_text [] (y ∷ ys) = false
same_text (x ∷ xs) [] = false
same_text (x ∷ xs) (y ∷ ys) = x == y && same_text xs ys

same_text_self : (xs : List ℕ) → same_text xs xs ≡ true
unfolding same_text
same_text_self [] = refl
same_text_self (x ∷ xs) = ground (arith, same_text_self xs)

delete_first : List ℕ → List (List ℕ) → List (List ℕ)
delete_first rule [] = []
delete_first rule (r ∷ rs) = if same_text rule r then rs else r ∷ delete_first rule rs

run_line : List ℕ → List (List ℕ) → List (List ℕ)
run_line line rules =
    if starts_with (codes "iptables -A ") line
    then drop 12 line ∷ rules
    else if starts_with (codes "iptables -D ") line
    then delete_first (drop 12 line) rules
    else rules

run_line-undo :
    (rule : List ℕ) (rules : List (List ℕ))
    → run_line (deleted rule) (run_line (appended rule) rules) ≡ rules
unfolding run_line delete_first starts_with
run_line-undo rule rules = rw (same_text_self rule)

abbrev rule_list : Iptables
rule_list = record { Table = List (List ℕ); run = run_line; undo = run_line-undo }

-- The answers 0, so that every command succeeds.
abbrev obeyed_world : World
obeyed_world = record calling_world { answers = λ n. 0 }

add_all_rtp_rules-atomic_example :
    (w' : World) × (add_all_rtp_rules true true obeyed_world ≡ some (pos 0, w'))
    × (w'.host.rtp_added ≡ 1)
    × (table_after rule_list [] w'.host.commands
        ≡ run_line
            (appended (rtp_output true (print_int (pos 5004)) 65))
            (run_line (appended (rtp_input true (print_int (pos 5004)) 65)) []))
unfolding print_int print_digits
add_all_rtp_rules-atomic_example =
    add_all_rtp_rules-atomic rule_list [] true obeyed_world refl (omega arith) refl

-- An INVITE came in.
abbrev invited_world : World
invited_world = record calling_world { host = record calling_world.host { saw_invite_already = 1 } }

on_answer-begins_example :
    Holds
      (on_answer some_library some_net (codes "ACK sip:a@b SIP/2.0 Route: c") 0 invited_world)
      (λ w'. w'.host.is_session_on ≡ (
        if begins (note (codes "ACK sip:a@b SIP/2.0 Route: c") 0 invited_world.host) then 1 else 0))
unfolding contains find find_at starts_with
on_answer-begins_example =
    on_answer-begins some_library some_net (codes "ACK sip:a@b SIP/2.0 Route: c") 0 invited_world
      refl
