-- ===== src/UdpSocket.antt =====
-- template_cpp/src/include/udp_scocket.hpp and template_cpp/src/src/udp_socket.cpp: packets as
-- datagrams. What recvfrom and sendto do is an argument. The buffers keep what earlier packets
-- left.
pub mod Exchange
use localized_causal_broadca.Prelude.{
  ℕ, ◌<◌, Bool, true, false, List, [], ◌∷◌, ltb, if◌then◌else◌, length, take, Result, ok, err,
  Fault, overrun,
}
use localized_causal_broadca.Decimal.{Bytes}
use localized_causal_broadca.Packet.{Packet, max_length, get_length}
use localized_causal_broadca.Packet.Codec.{to_bytes, decode_data}

pub record UdpSocket : Type 0 where
  pub buffer_received : Bytes
  pub buffer_send : Bytes

-- how a call ends: it returns, throws, throws TimeoutException, or ends the program
pub data Outcome (A : Type 0) : Type 0 where
  returns : (value : A) → Outcome A
  throws : (fault : Fault) → Outcome A
  times_out exits : Outcome A

-- what recvfrom gives: a datagram, EAGAIN or EWOULDBLOCK, or another error
pub data Received : Type 0 where
  datagram : (bytes : Bytes) → Received
  would_block fails : Received

-- Bytes written to the front of a buffer. What is longer than the buffer is cut, as recvfrom does.
unfoldable pub write : Bytes → Bytes → Bytes
write bytes [] = []
write [] (b ∷ buffer) = b ∷ buffer
write (c ∷ bytes) (b ∷ buffer) = c ∷ write bytes buffer

abbrev pub outcome_of : Result Packet → Outcome Packet
outcome_of (ok p) = returns p
outcome_of (err fault) = throws fault

unfoldable pub receive_packet : UdpSocket → Received → UdpSocket × Outcome Packet
receive_packet s (datagram bytes) =
    let buffer = write bytes s.buffer_received in
    (record s { buffer_received = buffer }, outcome_of (decode_data buffer))
receive_packet s would_block = (s, times_out)
receive_packet s fails = (s, exits)

-- The socket afterwards and the datagram; the Boolean is whether sendto returns no error. A packet
-- longer than the buffer is written behind it.
unfoldable pub send : UdpSocket → Packet → Bool → Outcome (UdpSocket × Bytes)
send s p sent =
    let buffer = write (to_bytes p) s.buffer_send in
    if ltb (length s.buffer_send) (length (to_bytes p))
    then throws overrun
    else if sent
    then returns (record s { buffer_send = buffer }, take (get_length p) buffer)
    else exits
