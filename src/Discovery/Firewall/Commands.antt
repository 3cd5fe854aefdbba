-- ===== src/Discovery/Firewall/Commands.antt =====
-- What the commands of `add_all_rtp_rules` of sqrkal_discovery.cpp come to in the table of the
-- firewall.
use dionysius.Common.{
  ℕ, suc, ◌%◌, ◌^◌, ◌≤◌, List, [], ◌∷◌, ◌++◌, length, ltb, Bool, true, false, if◌then◌else◌,
  Bool-cases, ◌==◌, not, ◌&&◌, inl, inr, ℤ, pos, negsuc, codes, some, ◌≡◌, refl, ap, ◌∙◌, arith,
}
use dionysius.Machine.{to_int}
use dionysius.Options.{print_int}
use dionysius.World.{World, pure, ◌>>=◌, ◌>>◌, gets, modify, ask}
use dionysius.World.Host.{Command}
use dionysius.World.Frames.{bind-some}
use dionysius.Discovery.State.{host_gets, update_host, ask_int}
use dionysius.Discovery.Firewall.{
  add_firewall_rule, is_ok, append_or_delete, change_rules, rtp_input, rtp_output,
  add_all_rtp_rules,
}

abbrev pub appended : List ℕ → List ℕ
appended rule = codes "iptables " ++ (append_or_delete true ++ rule)

abbrev pub deleted : List ℕ → List ℕ
deleted rule = codes "iptables " ++ (append_or_delete false ++ rule)

-- The table of iptables, as the multiset of its rules: a rule that was appended can be deleted.
pub record Iptables : Type 1 where
  pub Table : Type 0
  pub run : List ℕ → Table → Table
  pub undo : (rule : List ℕ) (t : Table) → run (deleted rule) (run (appended rule) t) ≡ t

-- The table after the commands, of which those that failed change nothing.
abbrev pub table_after : (ip : Iptables) → ip.Table → List Command → ip.Table
table_after ip t [] = t
table_after ip t (c ∷ older) =
    if is_ok c.status then ip.run c.line (table_after ip t older) else table_after ip t older

abbrev pub ran : List ℕ → World → World
ran rule w = record w {
  host = record w.host {
    commands =
        record { line = codes "iptables " ++ rule; status = to_int (w.answers 0 % 2 ^ 32) }
        ∷ w.host.commands;
  };
  answers = λ n. w.answers (suc n);
}

pub add_firewall_rule_lem :
    (rule : List ℕ) (w : World)
    → add_firewall_rule rule w ≡ some (to_int (w.answers 0 % 2 ^ 32), ran rule w)
unfolding add_firewall_rule ask_int update_host ask modify pure ◌>>=◌ ◌>>◌
add_firewall_rule_lem rule w = refl

module _ (ip : Iptables) (t : ip.Table) (w : World) (input output : List ℕ) where
  abbrev before : ip.Table
  before = table_after ip t w.host.commands

  abbrev one : World
  one = ran (append_or_delete true ++ input) w

  abbrev two : World
  two = ran (append_or_delete true ++ output) one

  abbrev three : World
  three = ran (append_or_delete false ++ input) two

  abbrev pub status : ℕ → ℤ
  status n = to_int (w.answers n % 2 ^ 32)

  abbrev pub both : Bool
  both = is_ok (status 0) && is_ok (status 1)

  -- The state afterwards: both rules are in the table, or the table is as before.
  pub record Atomic (added : Bool) (w' : World) : Type 0 where
    pub only_commands : w'.host ≡ record w.host { commands = w'.host.commands }
    pub table :
        table_after ip t w'.host.commands
        ≡ (if added then ip.run (appended output) (ip.run (appended input) before) else before)

  change_rules-Atomic :
      is_ok (status 2) ≡ true
      → (w' : World) × (change_rules true input output w ≡ some (both, w')) × Atomic both w'
  unfolding change_rules pure
  change_rules-Atomic third = elim (Bool-cases (is_ok (status 0))) [
    | inl first ↦ elim (Bool-cases (is_ok (status 1))) [
      | inl second ↦ (
        two,
        start
            ∙ rw first (
                bind-some (add_firewall_rule (append_or_delete true ++ output)) _
                  (add_firewall_rule_lem (append_or_delete true ++ output) one)
                ∙ rw second),
        record { only_commands = refl; table = rw (first, second) },
      )
      | inr second ↦ (
        three,
        start
            ∙ rw first (
                bind-some (add_firewall_rule (append_or_delete true ++ output)) _
                  (add_firewall_rule_lem (append_or_delete true ++ output) one)
                ∙ rw second (
                    bind-some (add_firewall_rule (append_or_delete false ++ input)) _
                      (add_firewall_rule_lem (append_or_delete false ++ input) two))),
        record { only_commands = refl; table = rw (first, second, third) (ip.undo input before) },
      )
    ]
    | inr first ↦ (one, start ∙ rw first, record { only_commands = refl; table = rw first })
  ]
    where
      start :
          change_rules true input output w
          ≡ (if not (is_ok (status 0)) && true
                then pure false
                else (add_firewall_rule (append_or_delete true ++ output) >>= λ second.
                    if not (is_ok second) && true
                    then (add_firewall_rule (append_or_delete false ++ input) >>= λ _. pure false)
                    else pure true))
              one
      start =
          bind-some (add_firewall_rule (append_or_delete true ++ input)) _
            (add_firewall_rule_lem (append_or_delete true ++ input) w)

module _ (ip : Iptables) (t : ip.Table) (is_udp : Bool) (w : World) (fresh : w.host.rtp_added ≡ 0)
    (port_fits : length (print_int w.host.inport) ≤ 6)
    (third : is_ok (to_int (w.answers 2 % 2 ^ 32)) ≡ true) where
  abbrev input_rule : List ℕ
  input_rule = rtp_input is_udp (print_int w.host.inport) w.host.srpp_ttl

  abbrev output_rule : List ℕ
  output_rule = rtp_output is_udp (print_int w.host.inport) w.host.srpp_ttl

  abbrev both_added : Bool
  both_added = both ip t w input_rule output_rule

  abbrev changed :
      (w' : World) × (change_rules true input_rule output_rule w ≡ some (both_added, w'))
      × Atomic ip t w input_rule output_rule both_added w'
  changed = change_rules-Atomic ip t w input_rule output_rule third

  abbrev flagged : World
  flagged = record changed.0 { host = record changed.0.host { rtp_added = 1 } }

  -- `add_all_rtp_rules` adds both rules or none: if no RTP rules were noted as added, the port of RTP
  -- has at most six characters, and the deletion of a rule that was just added succeeds, then either
  -- both commands succeeded, 0 is returned, the rules are noted as added, and they are in the table of
  -- the firewall; or -1 is returned, and the note and the table are as before.
  pub add_all_rtp_rules-atomic :
      (w' : World) × (add_all_rtp_rules true is_udp w
        ≡ some (if both_added then pos 0 else negsuc 0, w'))
      × (w'.host.rtp_added ≡ (if both_added then 1 else 0))
      × (table_after ip t w'.host.commands ≡ (
          if both_added
          then ip.run
              (appended output_rule)
              (ip.run (appended input_rule) (table_after ip t w.host.commands))
          else table_after ip t w.host.commands))
  unfolding add_all_rtp_rules host_gets update_host gets modify pure ◌>>=◌ ◌>>◌
  add_all_rtp_rules-atomic = elim (Bool-cases both_added) [
    | inl added ↦ (flagged, start ∙ rw added refl, rw added refl, changed.2.table)
    | inr lost ↦ (
      changed.0,
      start ∙ rw lost refl,
      rw lost (ap (λ h. h.rtp_added) changed.2.only_commands ∙ fresh),
      changed.2.table,
    )
  ]
    where
      short : ltb 6 (length (print_int w.host.inport)) ≡ false
      short = ground (arith, port_fits)

      start :
          add_all_rtp_rules true is_udp w
          ≡ (if not both_added
                then pure (negsuc 0)
                else (update_host (λ h. record h { rtp_added = 1 }) >> pure (pos 0)))
              changed.0
      start =
          rw (ap (λ k. not (k == 0)) fresh)
            (rw short (bind-some (change_rules true input_rule output_rule) _ changed.1))
