-- ===== src/Discovery/Firewall.antt =====
-- sqrkal_discovery/sqrkal_discovery.cpp: `add_firewall_rule`, `add_all_rules`, `add_all_rtp_rules`.
pub mod Commands
pub mod Removal
pub mod Kept
use dionysius.Common.{
  ℕ, suc, ◌+◌, ◌-◌, ◌%◌, ◌^◌, List, [], ◌∷◌, ◌++◌, length, ltb, ◌==◌, if◌then◌else◌, Bool, true,
  false, not, ◌&&◌, ◌||◌, ℤ, pos, negsuc, codes,
}
use dionysius.Machine.{to_int}
use dionysius.Options.{print_int}
use dionysius.World.{World, M, pure, ◌>>=◌, ◌>>◌, gets, modify, fault, ask}
use dionysius.Discovery.State.{host_gets, update_host, ask_int}

-- `add_firewall_rule(rule)`: the status of `system`.
pub add_firewall_rule : List ℕ → M ℤ
unfolding ask_int update_host
add_firewall_rule rule = do
  status ← ask_int
  update_host (λ h. record h {
    commands = record { line = codes "iptables " ++ rule; status = status } ∷ h.commands;
  })
  pure status

abbrev pub is_ok : ℤ → Bool
is_ok (pos n) = n == 0
is_ok (negsuc n) = false

abbrev pub append_or_delete : Bool → List ℕ
append_or_delete is_adding = if is_adding then codes "-A " else codes "-D "

abbrev pub protocol : Bool → List ℕ
protocol is_udp = if is_udp then codes "udp" else codes "tcp"

-- What a rule says behind `-A` or `-D`: the chain, the protocol, the port, and the time to live that
-- marks the packets that are let through.
pub queue_rule : List ℕ → Bool → List ℕ → List ℕ → ℕ → List ℕ
queue_rule chain is_udp side port ttl =
    chain
    ++ (codes " -p "
        ++ (protocol is_udp
            ++ (side
                ++ (port
                    ++ (codes " -m ttl ! --ttl-eq "
                        ++ (print_int (pos ttl) ++ codes " -j QUEUE"))))))

-- The two rules that both functions share: the second is only tried if the first was added, and the
-- first is deleted again if the second was not. The answer tells whether the caller goes on.
pub change_rules : Bool → List ℕ → List ℕ → M Bool
change_rules is_adding input output = do
  first ← add_firewall_rule (append_or_delete is_adding ++ input)
  if not (is_ok first) && is_adding then pure false else do
    second ← add_firewall_rule (append_or_delete is_adding ++ output)
    if not (is_ok second) && is_adding
        then (do _ ← add_firewall_rule (append_or_delete false ++ input); pure false)
        else pure true

abbrev pub sip_input : Bool → ℕ → List ℕ
sip_input is_udp ttl =
    queue_rule (codes "INPUT") is_udp (codes " --destination-port ") (codes "5060") ttl

abbrev pub sip_output : Bool → ℕ → List ℕ
sip_output is_udp ttl =
    queue_rule (codes "OUTPUT") is_udp (codes " --destination-port ") (codes "5060") ttl

-- `add_all_rules(is_adding, is_udp)`.
pub add_all_rules : Bool → Bool → M ℤ
unfolding host_gets update_host
add_all_rules is_adding is_udp = do
  added ← host_gets (λ h. if is_udp then h.udp_added else h.tcp_added)
  if is_adding && not (added == 0) then pure (pos 0) else do
    _ ← (if is_adding then add_firewall_rule (codes " -F") else pure (pos 0))
    ttl ← host_gets (λ h. h.srpp_ttl)
    changed ← change_rules is_adding (sip_input is_udp ttl) (sip_output is_udp ttl)
    if not changed then pure (negsuc 0) else do
      update_host (λ h.
          if is_udp
          then record h { udp_added = if is_adding then 1 else 0 }
          else record h { tcp_added = if is_adding then 1 else 0 })
      pure (pos 0)

abbrev pub rtp_input : Bool → List ℕ → ℕ → List ℕ
rtp_input is_udp port ttl =
    queue_rule (codes "INPUT") is_udp (codes " --destination-port ") port ttl

abbrev pub rtp_output : Bool → List ℕ → ℕ → List ℕ
rtp_output is_udp port ttl = queue_rule (codes "OUTPUT") is_udp (codes " --source-port ") port ttl

-- `add_all_rtp_rules(is_adding, is_udp)`: the port is printed into an array of 7 characters. The
-- array for the time to live has 2 characters and no room for the terminator of a number with two
-- digits; the byte behind it is taken to be unused.
pub add_all_rtp_rules : Bool → Bool → M ℤ
unfolding host_gets update_host
add_all_rtp_rules is_adding is_udp = do
  added ← host_gets (λ h. h.rtp_added)
  if is_adding && not (added == 0) then pure (pos 0) else do
    port ← host_gets (λ h. print_int h.inport)
    ttl ← host_gets (λ h. h.srpp_ttl)
    if ltb 6 (length port) then fault else do
      changed ← change_rules is_adding (rtp_input is_udp port ttl) (rtp_output is_udp port ttl)
      if not changed then pure (negsuc 0) else do
        update_host (λ h. record h { rtp_added = if is_adding then 1 else 0 })
        pure (pos 0)
