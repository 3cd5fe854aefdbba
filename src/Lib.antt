-- ===== src/Lib.antt =====
-- SRPP, the padding protocol of libSRPP: its messages and packets, the signaling of sessions, the
-- padding and the timers; and SQRKal, which brings SRPP to a program for Internet calls that does not
-- know it.
--
-- An end of SRPP hides the sizes of its media packets. A media message is padded (Padding), encrypted
-- with the key of the session (Message), stored as a packet (Wire) and sent (Transport). Two ends agree
-- on the key and the packet size either by HELLO and HELLO ACK messages of SRPP itself (Signaling,
-- Options), or by an attribute of a session description (Sdp). `receive_message` loads a packet and
-- hands a signaling message to its handler, which may send and receive in its turn (Session). RTP
-- packets become SRPP messages and back (Convert). A signal each millisecond drives the two timers that
-- start the burst padding (Timer, Padding).
--
-- SQRKal (Discovery) stands between such a program and the network. The firewall queues the packets of
-- the program for it: `discover_sessions` takes them one by one, `process_packet` sorts them by their
-- ports, `parse_sip` finds the calls in the SIP messages and has the firewall queue the media too, and
-- the RTP packets of a call are converted by Convert, padded and sent on in place of the ones that are
-- dropped. libSRPP calls back into SQRKal by two functors that SQRKal sets at the start.
--
-- Files and code:
--   Common, Machine: Boolean tests, lists, bits, signed numbers; words and arrays of C.
--   Message: src/libSRPP/include/SRPPMessage.hpp, the structs, the constructor, encrypt and decrypt;
--     encrypt_srpp and decrypt_srpp of src/libSRPP/src/SRPP_functions.cpp.
--   Wire: srpp_to_network and network_to_srpp of src/libSRPP/include/SRPPMessage.hpp.
--   Options: the option strings of src/libSRPP/include/Signaling_functions.hpp and their readers in
--     src/libSRPP/src/SRPP_functions.cpp and src/libSRPP/include/sdp_srpp.hpp.
--   Timer: src/libSRPP/src/srpp_timer.cpp.
--   World: the globals of src/libSRPP/src/SRPP_functions.cpp, src/libSRPP/include/SRPPSession.hpp and
--     src/libSRPP/src/Padding_Algorithms.cpp as one record, the state monad on it, srpp_rand and the
--     creation of messages. Frames, Agreement, Invariants and Returns hold the rules for parts of
--     the state that steps keep, steps that do the same, predicates that steps preserve, and steps that
--     return. Host is what SQRKal has
--     set up and what it sends: its sockets, the datagrams it has sent, its commands to the firewall.
--   Transport: send_message and isSignalingMessage of src/libSRPP/src/SRPP_functions.cpp.
--   Padding: src/libSRPP/src/Padding_functions.cpp (Cache), src/libSRPP/src/Padding_Algorithms.cpp and
--     the handlers of the timers (Algorithms). Filling, Filled, Dummies, Cutting, Sizes,
--     FullBandwidth and Padded hold the proofs on the cache, the dummies and the padded message,
--     Signals those on the timers and their handlers.
--   Signaling: the class SignalingFunctions of src/libSRPP/include/Signaling_functions.hpp. Flags, Kept
--     and Answered hold the proofs on its flags.
--   Sdp: src/libSRPP/include/sdp_srpp.hpp.
--   Session: sessions, verifySignalling, processReceivedData and receive_message of
--     src/libSRPP/src/SRPP_functions.cpp; Setup: init_SRPP and its setters.
--   Convert: rtp_to_srpp, srpp_to_rtp, srpp_to_srtp and the creation of RTP messages of
--     src/libSRPP/src/SRPP_functions.cpp, with src/libSRPP/include/rtp.hpp; its
--     child Network is RTPMessage::rtp_to_network.
--   Discovery: src/sqrkal_discovery/sqrkal_discovery.cpp and its headers under
--     include/sqrkal_discovery. Checksum: in_cksum and form_checksums; Firewall: the rules that are
--     added and removed; Sending: send_raw_message, send_fragmented_message and get_direction; Sip:
--     parse_sip and stop_discovering; Packet: process_packet; Queue: discover_sessions and the two
--     functors, send_rtp_message and receive_rtp_message; Startup: SQRKal.cpp, initialize_srpp and what
--     comes before the loop.
--   Tests: concrete states and messages.
--
-- A step of the program is a function from the state to a result and the next state, or to `none` for
-- undefined behaviour: an access out of bounds, or an exception that nothing catches. Random numbers,
-- the clock, the codes of system calls and memory that nothing has set are taken from an arbitrary
-- sequence of answers in the state, and the results of `recvfrom` from an arbitrary sequence of
-- arrivals: a datagram or an error. A call of `recvfrom` that waits for ever is no arrival, and so a
-- theorem on what is received speaks of calls that return. The first `rand()` after `srand`, a float expression and the function of
-- `setReceiveFunctor` are parameters, the record Library.
--
-- Numbers are those of the source: bytes, fields and words keep their width as a remainder, bit-fields
-- are laid out from the lowest bit of a little-endian word. Counters that are an `int` (sequence
-- numbers, timers, counts of messages) are natural numbers without a bound, and option numbers past an
-- `int`, which C leaves undefined, are read as they are.
--
-- Fuel: receive_nested counts how deep calls of receive_message nest; 2 is enough, since a handler
-- receives only in front of the first HELLO ACK. gather has a round for each byte that is missing and
-- one more; each round finds a byte where the dummy has a payload. It reads the memory of the vector
-- object, and past its 24 bytes (on x86_64) is out of bounds. print_digits has one round more than
-- the number, which has fewer digits. The waits for signaling have the counts of the source.
--
-- receive_rtp_message counts the calls of itself that nest by a depth of its own; one that is used up is
-- undefined behaviour of the model, so that a theorem on a result speaks of the runs that end.
--
-- In Discovery the packets of the queue are arrivals, and the statuses of iptables, of verdicts and of
-- sendto are answers; the resolver, the conversions of addresses and the interfaces of the host are a
-- parameter, the record Net. A `size_t` has 64 bits and an `unsigned int` 32, so that `string::npos`
-- that is kept in an `unsigned int` is 2^32 - 1. After a failed `ipq_read` the loop goes on with the
-- buffer as it is, whose contents are then arbitrary answers.
--
-- Not modelled: the conversions that take a struct of SRTP for text (src/libSRPP/include/srtp.hpp). Of
-- the discovery: the creation of sockets (create_sockets), the file of sizes, and isLocalIP, whose
-- result nothing reads; src/SQRKal_functions.cpp, which SQRKal.cpp calls behind a `return`. The model of
-- send_message notes the packet and takes any status, but does not run the functor that SQRKal sets for
-- sending. Console output and threads; CryptoProfile.hpp, which nothing reads; md5.cpp and 3rd_party,
-- which are copies of other projects' code.
pub mod Common
pub mod Machine
pub mod Message
pub mod Wire
pub mod Options
pub mod Timer
pub mod World
pub mod Transport
pub mod Padding
pub mod Signaling
pub mod Sdp
pub mod Session
pub mod Convert
pub mod Discovery
pub mod Tests
