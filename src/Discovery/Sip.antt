-- ===== src/Discovery/Sip.antt =====
-- sqrkal_discovery/sqrkal_discovery.cpp: `parse_sip`, with `resolve_and_set` and `stop_discovering`.
-- The places in the message are kept in `unsigned int`, so that `npos`, which has 64 bits, becomes
-- 2^32 - 1, and a comparison of the two never finds them equal.
pub mod Fields
pub mod AudioPort
pub mod Bye
pub mod Answer
use dionysius.Common.{
  ℕ, zero, suc, ◌+◌, ◌-◌, ◌%◌, ◌^◌, List, [], ◌∷◌, ◌++◌, length, ltb, ◌==◌, if◌then◌else◌, Bool,
  true, false, not, ◌&&◌, ◌||◌, ℤ, pos, negsuc, codes, find, contains, substr, Option, none, some,
}
use dionysius.Machine.{ntohs, c_str}
use dionysius.World.{World, M, pure, ◌>>=◌, ◌>>◌, gets, modify, lift, fault}
use dionysius.World.Host.{Host, SocketAddress}
use dionysius.Transport.{Library}
use dionysius.Session.{stop_session, receive_message}
use dionysius.Discovery.State.{Net, host_gets, update_host}
use dionysius.Discovery.Firewall.{add_all_rules, add_all_rtp_rules}
use dionysius.Discovery.Sip.Fields.{
  audio_end, audio_port, connection_address, invite_host, register_host, subscribe_host, is_no_port,
}

abbrev pub set_address : ℕ → Host → Host
set_address address h = record h { out_addr = record h.out_addr { sin_addr = address } }

-- `out_addr.sin_addr.s_addr = last_out_dest`.
pub to_last_dest : M (Unit {0})
unfolding update_host
to_last_dest = update_host λ h. set_address h.last_out_dest h

-- The address of a server, by `inet_addr` or by `resolve_and_set`, and the port of SIP.
pub set_server : Net → List ℕ → M (Unit {0})
unfolding update_host
set_server net hostname = do
  let name = c_str hostname
  update_host (λ h.
      if net.is_address name
      then set_address (net.inet_addr name) h
      else elim (net.resolve name) [ none ↦ h | some address ↦ set_address address h ])
  update_host (λ h. record h { out_addr = record h.out_addr { sin_port = ntohs 5060 } })

-- The port of the media: that of the other end in a message that comes in, else this end's.
pub set_media_port : List ℕ → ℕ → M (Unit {0})
unfolding update_host
set_media_port message direction = do
  port ← lift (audio_port message)
  update_host
      (λ h. if direction == 0 then record h { outport = port } else record h { inport = port })

pub set_media_address : Net → List ℕ → ℕ → M (Unit {0})
unfolding update_host
set_media_address net message direction = do
  text ← lift (connection_address message)
  let address = net.inet_addr (c_str text)
  update_host (λ h.
      if direction == 0 then record h { rtp_dest = address } else record h { rtp_src = address })

-- What a 200 OK or an ACK tells about the handshake.
unfoldable pub note : List ℕ → ℕ → Host → Host
note message direction h =
    if contains message (codes "200 OK") 0
    then (if h.sent_invite == 1 && direction == 0 then record h { saw_200ok = 1 } else h)
    else (if h.saw_invite_already == 1 && contains message (codes "Route:") 0
        then record h { saw_ack = 1 }
        else h)

-- Both ways into a media session: an INVITE came in and its ACK was seen, or an INVITE went out and
-- its 200 OK and ACK were seen.
abbrev pub is_ready : Host → Bool
is_ready h =
    (h.sent_invite == 0 && h.saw_ack == 1)
    || (h.sent_invite == 1 && (h.saw_200ok == 1 && h.saw_ack == 1))

module _ (lib : Library) (net : Net) where
  -- `srpp::stop_session` if SRPP is applied.
  unfoldable pub stop_srpp : M (Unit {0})
  unfolding host_gets
  stop_srpp = do
    applied ← host_gets (λ h. h.apply_srpp)
    if applied == 1 then (stop_session lib (receive_message lib) >>= λ _. pure tt) else pure tt

  -- `stop_discovering(0)`.
  pub stop_discovering : M (Unit {0})
  unfolding update_host
  stop_discovering = do
    stop_srpp
    update_host (λ h. record h { is_discovering = 0 })
    _ ← add_all_rules false true
    pure tt

  -- The kind of the media behind the port; the answer tells whether `parse_sip` returns at once.
  pub check_media : List ℕ → ℕ → M Bool
  unfolding update_host
  check_media message direction =
      let m = audio_end message in
      if contains message (codes "RTP/SAVP ") m || contains message (codes "zrtp") m
      then (do update_host (λ h. record h { is_srtp = 1 }); pure false)
      else if contains message (codes "RTP/AVP ") m
      then (do update_host (λ h. record h { is_srtp = 0 }); pure false)
      else if contains message (codes "SRPP:") m
      then (if direction == 1
          then (do stop_discovering; pure true)
          else (do update_host (λ h. record h { is_srpp = 1 }); pure false))
      else pure false

  -- BYE. The sizes are written to a file, the output sizes by the indices of the input sizes.
  pub on_bye : M ℤ
  unfolding host_gets update_host
  on_bye = do
    seen ← host_gets (λ h. h.saw_bye_already)
    if seen == 1 then pure (negsuc 0) else do
      update_host (λ h. record h { saw_bye_already = 1 })
      missing ← host_gets (λ h. ltb (length h.output_packet_sizes) (length h.input_packet_sizes))
      if missing then fault else do
        update_host
            (λ h. record h { input_packet_sizes = []; output_packet_sizes = []; is_session_on = 0 })
        stop_srpp
        _ ← add_all_rtp_rules false true
        update_host (λ h. record h {
          sent_count = 0;
          recv_count = 0;
          saw_invite_already = 0;
          saw_bye_already = 0;
        })
        to_last_dest
        pure (pos 0)

  pub start_media : List ℕ → ℕ → M (Unit {0})
  unfolding host_gets update_host
  start_media message direction = do
    acked ← host_gets (λ h. h.saw_ack)
    if acked == 0 then set_media_address net message direction else pure tt
    update_host (λ h. record h { rtp_ports = h.rtp_ports ++ h.inport ∷ h.outport ∷ [] })
    ready ← host_gets is_ready
    if ready
        then (do
          _ ← add_all_rtp_rules true true
          update_host (λ h. record h {
            sent_invite = 0;
            saw_ack = 0;
            saw_200ok = 0;
            saw_invite_already = 0;
            is_session_on = 1;
          }))
        else pure tt

  -- The description in an answer, if it has one.
  pub read_description : List ℕ → ℕ → M Bool
  read_description message direction =
      if contains message (codes "Content-Type: application/sdp") 0
      then (do set_media_port message direction; check_media message direction)
      else pure false

  -- 200 OK or ACK.
  pub on_answer : List ℕ → ℕ → M ℤ
  unfolding host_gets update_host
  on_answer message direction = do
    update_host (note message direction)
    stopped ← read_description message direction
    if stopped then pure (pos 0) else do
      missing ← host_gets (λ h. is_no_port h.inport || is_no_port h.outport)
      if missing then pure (pos 0) else do
        begins ← host_gets (λ h. h.is_session_on == 0 && not (h.saw_invite_already == 0))
        if begins then start_media message direction else pure tt
        to_last_dest
        pure (pos 0)

  -- INVITE with a session description.
  pub on_invite : List ℕ → ℕ → M ℤ
  unfolding update_host
  on_invite message direction = do
    update_host (λ h. record h { saw_invite_already = 1 })
    set_media_port message direction
    stopped ← check_media message direction
    if stopped then pure (pos 0) else do
      set_media_address net message direction
      if direction == 0 then pure (pos 0) else do
        update_host (λ h. record h { sent_invite = 1 })
        name ← lift (invite_host message)
        set_server net name
        update_host (λ h. record h { last_out_dest = h.out_addr.sin_addr })
        pure (pos 0)

  -- REGISTER, and SUBSCRIBE or PUBLISH, whose server is named in other ways.
  pub on_server : Option (List ℕ) → ℕ → M ℤ
  unfolding update_host
  on_server hostname direction = do
    name ← lift hostname
    set_server net name
    update_host
        (λ h. if direction == 1 then record h { last_out_dest = h.out_addr.sin_addr } else h)
    pure (pos 0)

  -- `parse_sip(message, direction)`.
  pub parse_sip : List ℕ → ℕ → M ℤ
  parse_sip message direction =
      if contains message (codes "BYE ") 0
      then on_bye
      else if contains message (codes "SIP/2.0 4") 0
      then (do to_last_dest; pure (pos 0))
      else if contains message (codes "200 OK") 0 || contains message (codes "ACK ") 0
      then on_answer message direction
      else if contains message (codes "INVITE sip:") 0
          && contains message (codes "Content-Type: application/sdp") 0
      then on_invite message direction
      else if contains message (codes "REGISTER sip:") 0
      then on_server (register_host message) direction
      else if contains message (codes "SUBSCRIBE sip:") 0
          || contains message (codes "PUBLISH sip:") 0
      then on_server (subscribe_host message) direction
      else (do to_last_dest; pure (pos 0))
