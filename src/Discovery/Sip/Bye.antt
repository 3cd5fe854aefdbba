-- ===== src/Discovery/Sip/Bye.antt =====
-- What a BYE does to the state of sqrkal_discovery.cpp.
use dionysius.Common.{
  ◌%◌, ◌^◌, ◌≤◌, [], ◌∷◌, length, ltb, true, false, ◌==◌, pos, some, ◌≡◌, refl, ap, ◌∙◌, arith,
}
use dionysius.Machine.{to_int}
use dionysius.Options.{print_int}
use dionysius.World.{World, pure, ◌>>=◌, ◌>>◌, gets, modify}
use dionysius.World.Host.{Host}
use dionysius.World.Frames.{bind-some}
use dionysius.Transport.{Library}
use dionysius.Discovery.State.{Net, host_gets, update_host}
use dionysius.Discovery.Firewall.{rtp_input, rtp_output, add_all_rtp_rules}
use dionysius.Discovery.Firewall.Commands.{deleted}
use dionysius.Discovery.Firewall.Removal.{without_rules, add_all_rtp_rules-removes}
use dionysius.Discovery.Sip.{to_last_dest, stop_srpp, on_bye}

-- The state when `stop_session` is called.
abbrev pub ended : World → World
ended w = record w {
  host = record w.host {
    saw_bye_already = 1;
    input_packet_sizes = [];
    output_packet_sizes = [];
    is_session_on = 0;
  };
}

-- What a BYE resets.
pub record IsReset (h : Host) : Type 0 where
  pub is_session_on : h.is_session_on ≡ 0
  pub rtp_added : h.rtp_added ≡ 0
  pub sent_count : h.sent_count ≡ 0
  pub recv_count : h.recv_count ≡ 0
  pub saw_invite_already : h.saw_invite_already ≡ 0
  pub saw_bye_already : h.saw_bye_already ≡ 0
  pub input_packet_sizes : h.input_packet_sizes ≡ []
  pub output_packet_sizes : h.output_packet_sizes ≡ []

module _ (lib : Library) (net : Net) (w stopped : World) (fresh : w.host.saw_bye_already ≡ 0)
    (sizes : length w.host.input_packet_sizes ≤ length w.host.output_packet_sizes)
    (port_fits : length (print_int w.host.inport) ≤ 6)
    (stops : stop_srpp lib net (ended w) ≡ some (tt, stopped))
    (alone : stopped.host ≡ (ended w).host) where
  abbrev unruled : World
  unruled = without_rules true (record stopped { host = (ended w).host }) port_fits

  abbrev finished : World
  finished = record unruled {
    host = record unruled.host {
      rtp_added = 0;
      sent_count = 0;
      recv_count = 0;
      saw_invite_already = 0;
      saw_bye_already = 0;
      out_addr = record w.host.out_addr { sin_addr = w.host.last_out_dest };
    };
  }

  -- A BYE that is not handled within another one, with an output size for each input size and a port
  -- of at most six characters, ends the call: if `stop_session`, where SRPP is applied, returns and
  -- leaves the globals of the discovery alone, `parse_sip` returns 0, both commands that delete the
  -- rules for the RTP port are given, whatever their status, and the packet goes to where the last one
  -- went. `is_session_on`, `rtp_added`, `sent_count`, `recv_count`, `saw_invite_already` and
  -- `saw_bye_already` are 0 then, and no sizes are kept. Whether SRPP is applied stays as it is.
  pub on_bye-resets :
      (w' : World) × (on_bye lib net w ≡ some (pos 0, w'))
      × IsReset w'.host
      × (w'.host.commands
          ≡ record {
            line = deleted (rtp_output true (print_int w.host.inport) w.host.srpp_ttl);
            status = to_int (stopped.answers 1 % 2 ^ 32);
          }
            ∷ record {
              line = deleted (rtp_input true (print_int w.host.inport) w.host.srpp_ttl);
              status = to_int (stopped.answers 0 % 2 ^ 32);
            }
            ∷ w.host.commands)
      × (w'.host.out_addr.sin_addr ≡ w.host.last_out_dest)
      × (w'.host.apply_srpp ≡ w.host.apply_srpp)
  unfolding on_bye to_last_dest host_gets update_host gets modify pure ◌>>=◌ ◌>>◌
  on_bye-resets = (
    finished,
    rw (ap (λ k. k == 1) fresh) (
        rw enough (
          bind-some (stop_srpp lib net) _ stops
          ∙ bind-some (add_all_rtp_rules false true) _ (
              ap (λ h. add_all_rtp_rules false true (record stopped { host = h })) alone
              ∙ add_all_rtp_rules-removes true (record stopped { host = (ended w).host })
                  port_fits))),
    record {
      is_session_on = refl;
      rtp_added = refl;
      sent_count = refl;
      recv_count = refl;
      saw_invite_already = refl;
      saw_bye_already = refl;
      input_packet_sizes = refl;
      output_packet_sizes = refl;
    },
    refl,
    refl,
    refl,
  )
    where
      enough : ltb (length w.host.output_packet_sizes) (length w.host.input_packet_sizes) ≡ false
      enough = ground (arith, sizes)
