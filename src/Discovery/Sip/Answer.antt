-- ===== src/Discovery/Sip/Answer.antt =====
-- When a media session begins, by `parse_sip` of sqrkal_discovery.cpp.
use dionysius.Common.{
  ℕ, List, [], ◌∷◌, ◌++◌, Bool, true, false, Bool-cases, inl, inr, if◌then◌else◌, not, ◌&&◌, ◌||◌,
  ◌==◌, codes, contains, ◌≡◌, refl, ap, ◌∙◌, arith, sym,
}
use dionysius.Machine.{c_str}
use dionysius.World.{World, pure, ◌>>=◌, ◌>>◌, gets, modify}
use dionysius.World.Host.{Host}
use dionysius.World.Frames.{
  Holds, Holds-bind, Keeps, Keeps-nothing, Keeps-pure, Keeps-if, Keeps-bind, Keeps-lift,
  Keeps-modify,
}
use dionysius.Transport.{Library}
use dionysius.Discovery.State.{Net, host_gets, update_host}
use dionysius.Discovery.Firewall.{add_all_rtp_rules}
use dionysius.Discovery.Sip.Fields.{connection_address, is_no_port}
use dionysius.Discovery.Sip.{
  to_last_dest, note, is_ready, set_media_address, start_media, read_description, on_answer,
}

-- What the start of a media session depends on.
abbrev Handshake : Type 0
Handshake = ℕ × ℕ × ℕ × ℕ

abbrev handshake : World → Handshake
handshake w = (w.host.sent_invite, w.host.saw_ack, w.host.saw_200ok, w.host.is_session_on)

-- The media of a call can begin: both ports are known, no session is on, an INVITE was seen, and the
-- handshake is complete.
abbrev pub begins : Host → Bool
begins h =
    not (is_no_port h.inport || is_no_port h.outport)
    && ((h.is_session_on == 0 && not (h.saw_invite_already == 0)) && is_ready h)

set_media_address-Keeps :
    (net : Net) (message : List ℕ) (direction : ℕ)
    → Keeps handshake (set_media_address net message direction)
unfolding set_media_address update_host
set_media_address-Keeps net message direction =
    Keeps-bind handshake _ _ (Keeps-lift handshake (connection_address message)) (λ text.
      Keeps-modify handshake _ (λ w. chosen (direction == 0) w (net.inet_addr (c_str text))))
  where
    chosen :
        (b : Bool) (w : World) (address : ℕ)
        → handshake (record w {
          host =
              if b
              then record w.host { rtp_dest = address }
              else record w.host { rtp_src = address };
        })
          ≡ handshake w
    chosen true w address = refl
    chosen false w address = refl

to_last_dest-Keeps : Keeps handshake to_last_dest
unfolding to_last_dest update_host
to_last_dest-Keeps = Keeps-modify handshake _ (λ w. refl)

-- `is_ready` of what it depends on.
ready : Handshake → Bool
ready (sent, acked, ok, on) = (sent == 0 && acked == 1) || (sent == 1 && (ok == 1 && acked == 1))

ready_lem : (w v : World) → handshake w ≡ handshake v → is_ready w.host ≡ is_ready v.host
unfolding ready
ready_lem w v e = ap ready e

module _ (lib : Library) (net : Net) (message : List ℕ) (direction : ℕ) where
  -- The start of the media begins a session exactly if the handshake is complete.
  start_media-session :
      (w : World)
      → Holds
          (start_media lib net message direction w)
          (λ w'. w'.host.is_session_on ≡ (if is_ready w.host then 1 else w.host.is_session_on))
  unfolding start_media host_gets update_host gets modify pure ◌>>=◌ ◌>>◌
  start_media-session w =
      Holds-bind Begun Same
        (if w.host.saw_ack == 0 then set_media_address net message direction else pure tt) _ w
        ((Keeps-if handshake (w.host.saw_ack == 0) _ _
            (set_media_address-Keeps net message direction) (Keeps-pure handshake tt)).at
          w)
        (λ _ u same. elim (Bool-cases (is_ready u.host)) [
          | inl complete ↦ rw complete (
              Holds-bind Begun (λ v. tt {0} ≡ tt) (add_all_rtp_rules true true) _
                (record u {
                  host = record u.host {
                    rtp_ports = u.host.rtp_ports ++ u.host.inport ∷ u.host.outport ∷ [];
                  };
                })
                ((Keeps-nothing (add_all_rtp_rules true true)).at _)
                (λ _ v h. rw (sym (ready_lem u w same) ∙ complete) refl))
          | inr incomplete ↦
              rw incomplete (ap (λ k. k.3) same ∙ rw (sym (ready_lem u w same) ∙ incomplete) refl)
        ])
    where
      Begun : World → Type 0
      Begun w' = w'.host.is_session_on ≡ (if is_ready w.host then 1 else w.host.is_session_on)

      Same : World → Type 0
      Same u = handshake u ≡ handshake w

note-session :
    (message : List ℕ) (direction : ℕ) (h : Host)
    → (note message direction h).is_session_on ≡ h.is_session_on
unfolding note
note-session message direction h = ground arith

module _ (lib : Library) (net : Net) (message : List ℕ) (direction : ℕ) (w : World)
    (plain : contains message (codes "Content-Type: application/sdp") 0 ≡ false) where
  abbrev noted : Host
  noted = note message direction w.host

  -- A 200 OK or ACK without a session description begins a session exactly if then both ports are
  -- known and not 0, no session is on, an INVITE was seen, and the handshake is complete: an INVITE
  -- came in and an ACK was seen, or an INVITE went out and its 200 OK and an ACK were seen. Else a
  -- session that is on stays on.
  pub on_answer-begins : Holds (on_answer lib net message direction w) (λ w'.
      w'.host.is_session_on
      ≡ (if begins (note message direction w.host) then 1 else w.host.is_session_on))
  unfolding on_answer read_description to_last_dest host_gets update_host gets modify pure ◌>>=◌
      ◌>>◌
  on_answer-begins =
      rw plain (elim (Bool-cases (is_no_port noted.inport || is_no_port noted.outport)) [
        | inl missing ↦ rw missing (note-session message direction w.host)
        | inr known ↦ rw known (elim (Bool-cases invited) [
          | inl calling ↦ rw calling (
              Holds-bind _ Started (start_media lib net message direction) _ _
                (start_media-session lib net message direction (record w { host = noted }))
                (λ _ v h. h ∙ ap (λ k. if is_ready noted then 1 else k) unchanged))
          | inr idle ↦ rw idle unchanged
        ])
      ])
    where
      invited : Bool
      invited = noted.is_session_on == 0 && not (noted.saw_invite_already == 0)

      unchanged : noted.is_session_on ≡ w.host.is_session_on
      unchanged = note-session message direction w.host

      Started : World → Type 0
      Started v = v.host.is_session_on ≡ (if is_ready noted then 1 else noted.is_session_on)
