-- ===== src/UdpSocket/Exchange.antt =====
-- A packet from one socket to another.
use localized_causal_broadca.Prelude.{[], ◌∷◌}
use localized_causal_broadca.Decimal.{Bytes}
use localized_causal_broadca.VectorClock.{VectorClock}
use localized_causal_broadca.Packet.{Packet}
use localized_causal_broadca.UdpSocket.{UdpSocket}

-- what is left of a buffer behind some bytes
behind : Bytes → Bytes → Bytes
behind [] buffer = buffer
behind (c ∷ bytes) [] = []
behind (c ∷ bytes) (b ∷ buffer) = behind bytes buffer
