-- ===== src/Discovery/Firewall/Removal.antt =====
-- The removal of the rules for RTP by `add_all_rtp_rules` of sqrkal_discovery.cpp.
use dionysius.Common.{
  ℕ, ◌%◌, ◌^◌, ◌≤◌, List, ◌++◌, length, ltb, Bool, true, false, not, ◌&&◌, pos, some, ◌≡◌, refl,
  ◌∙◌, arith,
}
use dionysius.Machine.{to_int}
use dionysius.Options.{print_int}
use dionysius.World.{World, pure, ◌>>=◌, ◌>>◌, gets, modify}
use dionysius.World.Frames.{bind-some}
use dionysius.Discovery.State.{host_gets, update_host}
use dionysius.Discovery.Firewall.{
  add_firewall_rule, append_or_delete, is_ok, change_rules, rtp_input, rtp_output,
  add_all_rtp_rules,
}
use dionysius.Discovery.Firewall.Commands.{ran, add_firewall_rule_lem}

abbrev pub removed : List ℕ → List ℕ → World → World
removed input output w =
    ran (append_or_delete false ++ output) (ran (append_or_delete false ++ input) w)

and_false : (b : Bool) → (b && false) ≡ false
and_false true = refl
and_false false = refl

-- Both rules are deleted, whatever the commands return.
change_rules-false :
    (input output : List ℕ) (w : World)
    → change_rules false input output w ≡ some (true, removed input output w)
unfolding change_rules pure
change_rules-false input output w =
    bind-some (add_firewall_rule (append_or_delete false ++ input)) _
      (add_firewall_rule_lem (append_or_delete false ++ input) w)
    ∙ rw (and_false (not (is_ok (to_int (w.answers 0 % 2 ^ 32))))) (
        bind-some (add_firewall_rule (append_or_delete false ++ output)) _ (
          add_firewall_rule_lem (append_or_delete false ++ output)
            (ran (append_or_delete false ++ input) w))
        ∙ rw (and_false (not (is_ok (to_int (w.answers 1 % 2 ^ 32))))))

module _ (is_udp : Bool) (w : World) (port_fits : length (print_int w.host.inport) ≤ 6) where
  abbrev pub without_rules : World
  without_rules =
      removed (rtp_input is_udp (print_int w.host.inport) w.host.srpp_ttl)
        (rtp_output is_udp (print_int w.host.inport) w.host.srpp_ttl) w

  pub add_all_rtp_rules-removes :
      add_all_rtp_rules false is_udp w
      ≡ some (pos 0, record without_rules { host = record without_rules.host { rtp_added = 0 } })
  unfolding add_all_rtp_rules host_gets update_host gets modify pure ◌>>=◌ ◌>>◌
  add_all_rtp_rules-removes = rw short (
      bind-some (change_rules false _ _) _ (
        change_rules-false (rtp_input is_udp (print_int w.host.inport) w.host.srpp_ttl)
          (rtp_output is_udp (print_int w.host.inport) w.host.srpp_ttl) w))
    where
      short : ltb 6 (length (print_int w.host.inport)) ≡ false
      short = ground (arith, port_fits)
