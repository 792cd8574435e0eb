-- ===== src/Transport/Tests.antt =====
-- The transport on concrete datagrams.
use mmperp.Prelude.{◌≡◌, refl, some, List, [], ◌∷◌, ◌++◌, arith, lookup, length, All}
use mmperp.Prelude.Int.{pos}
use mmperp.Transport.Wire.{WireHeader, frame_of, parse_frame}
use mmperp.Transport.Endpoint.{
  parsed, parse_endpoint, strip_scheme, strip_prefix, split_colon, endpoint_at, decimal, udp_scheme,
}
use mmperp.Transport.Udp.{new_transport, receive}
use mmperp.Transport.Frames.{wire_bytes, parse_frame-wire_bytes}
use mmperp.Transport.Counters.{
  Datagram, Counted, IsFresh, receive_all, frames_in, nonempty, receive_all-frames_in,
  receive-IsFresh,
}

abbrev sent : WireHeader
sent = record {
  magic = 0x54524443;
  version = 1;
  flags = 0;
  account = 7;
  nonce = 1;
  timestamp_ns = 5;
  priority = 0;
  kind = 1;
  payload_len = 2;
}

parse_frame-wire_bytes_example :
    parse_frame (wire_bytes sent ++ ((8 ∷ 9 ∷ []) ++ (1 ∷ []))) ≡ some (frame_of sent (8 ∷ 9 ∷ []))
parse_frame-wire_bytes_example =
    parse_frame-wire_bytes sent (8 ∷ 9 ∷ []) (1 ∷ []) (omega arith) refl refl (omega arith) refl

abbrev arrived : List Datagram
arrived = (pos 10, 4, wire_bytes sent ++ (8 ∷ 9 ∷ [])) ∷ (pos 11, 4, []) ∷ (pos 12, 5, 1 ∷ []) ∷ []

receive_all-frames_in_example :
    ((receive_all new_transport arrived).0 ≡ frames_in arrived)
    × Counted new_transport
        (receive_all new_transport arrived).1
        (length (frames_in arrived))
        (nonempty arrived)
receive_all-frames_in_example = receive_all-frames_in new_transport arrived

receive-IsFresh_example :
    let peers = (receive new_transport (pos 10) 4 (1 ∷ 2 ∷ [])).1.peer_last_seen in
    (lookup 4 peers ≡ some (pos 10)) × All (IsFresh (pos 10)) peers
receive-IsFresh_example = receive-IsFresh new_transport (pos 10) 4 1 (2 ∷ [])

-- A port beyond 16 bits is cut to its low bits.
wrapped_port :
    parse_endpoint (udp_scheme ++ (b'h' ∷ b':' ∷ b'7' ∷ b'0' ∷ b'0' ∷ b'0' ∷ b'0' ∷ []))
    ≡ parsed record { host = b'h' ∷ []; port = 4464 }
unfolding parse_endpoint strip_scheme strip_prefix split_colon endpoint_at decimal
wrapped_port = refl
