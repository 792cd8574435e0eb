-- ===== src/Transport/Quic.antt =====
-- libs/ingest/src/quic_transport.cpp: the transport that the program uses. Its `UdpTransport` exists as
-- long as it does.
use mmperp.Prelude.{ℕ, Bool, Option, some, ◌>>=◌, List, []}
use mmperp.Prelude.Int.{ℤ}
use mmperp.Transport.Udp.{
  UdpTransport, SocketCalls, TransportStats, new_transport, start, stop, stats,
}

pub record QuicTransport : Type 0 where
  pub transport : UdpTransport
  pub endpoint : List ℕ

abbrev pub new_quic_transport : QuicTransport
new_quic_transport = record { transport = new_transport; endpoint = [] }

abbrev pub with_transport : QuicTransport → List ℕ → Bool × UdpTransport → Bool × QuicTransport
with_transport q endpoint (answer, t) = (answer, record { transport = t; endpoint = endpoint })

unfoldable pub start_quic : SocketCalls → QuicTransport → List ℕ → Option (Bool × QuicTransport)
unfolding start
start_quic calls q endpoint_uri = do
  started ← start calls q.transport endpoint_uri
  some (with_transport q endpoint_uri started)

unfoldable pub stop_quic : QuicTransport → QuicTransport
unfolding stop
stop_quic q = record { transport = stop q.transport; endpoint = [] }

unfoldable pub is_running : QuicTransport → Bool
is_running q = q.transport.running

unfoldable pub stats_quic : QuicTransport → ℤ → TransportStats × QuicTransport
unfolding stats
stats_quic q now = let (answer, t) = stats q.transport now in (answer, record q { transport = t })
