-- ===== src/World/Host.antt =====
-- The globals of sqrkal_discovery/sqrkal_discovery.cpp.
use dionysius.Common.{ℕ, zero, suc, List, [], ◌∷◌, ℤ, pos}
use dionysius.Message.{SrppMessage}

-- `struct sockaddr_in`: the address and the port as the host loads them, in the network's order.
pub record SocketAddress : Type 0 where
  pub sin_addr : ℕ
  pub sin_port : ℕ

-- What a raw socket was given: the destination and the bytes.
pub record Datagram : Type 0 where
  pub to : SocketAddress
  pub bytes : List ℕ

-- A command that `system` was given, and its status.
pub record Command : Type 0 where
  pub line : List ℕ
  pub status : ℤ

-- `commands` are those that were given to `system`, `sent` what `sendto` was given, the newest first.
pub record Host : Type 0 where
  pub udp_added : ℕ
  pub tcp_added : ℕ
  pub rtp_added : ℕ
  pub is_discovering : ℕ
  pub is_sip : ℕ
  pub is_rtp : ℕ
  pub is_udp : ℕ
  pub is_srtp : ℕ
  pub is_srpp : ℕ
  pub apply_srpp : ℕ
  pub is_session_on : ℕ
  pub inport : ℤ
  pub outport : ℤ
  pub saw_invite_already : ℕ
  pub saw_bye_already : ℕ
  pub sent_invite : ℕ
  pub saw_ack : ℕ
  pub saw_200ok : ℕ
  pub recv_count : ℕ
  pub sent_count : ℕ
  pub sip_ports : List ℤ
  pub rtp_ports : List ℤ
  pub out_addr : SocketAddress
  pub last_out_dest : ℕ
  pub rtp_dest : ℕ
  pub rtp_src : ℕ
  pub rtp_header : List ℕ
  pub rtp_hdset : ℕ
  pub frag_id : ℕ
  pub srpp_ttl : ℕ
  pub ssrc_value : ℕ
  pub input_packet_sizes : List ℕ
  pub output_packet_sizes : List ℕ
  pub srpp_msg : SrppMessage
  pub commands : List Command
  pub sent : List Datagram

abbrev pub zeros : ℕ → List ℕ
zeros zero = []
zeros (suc n) = 0 ∷ zeros n

-- The initial values; `srpp_msg` is constructed when the program starts.
abbrev pub new_host : SrppMessage → Host
new_host msg = record {
  udp_added = 0;
  tcp_added = 0;
  rtp_added = 0;
  is_discovering = 0;
  is_sip = 0;
  is_rtp = 0;
  is_udp = 0;
  is_srtp = 0;
  is_srpp = 0;
  apply_srpp = 0;
  is_session_on = 0;
  inport = pos 0;
  outport = pos 0;
  saw_invite_already = 0;
  saw_bye_already = 0;
  sent_invite = 0;
  saw_ack = 0;
  saw_200ok = 0;
  recv_count = 0;
  sent_count = 0;
  sip_ports = pos 5060 ∷ [];
  rtp_ports = pos 5000 ∷ [];
  out_addr = record { sin_addr = 0; sin_port = 0 };
  last_out_dest = 0;
  rtp_dest = 0;
  rtp_src = 0;
  rtp_header = zeros 40;
  rtp_hdset = 0;
  frag_id = 0;
  srpp_ttl = 65;
  ssrc_value = 0;
  input_packet_sizes = [];
  output_packet_sizes = [];
  srpp_msg = msg;
  commands = [];
  sent = [];
}
