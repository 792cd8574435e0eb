-- ===== src/Transport/Udp.antt =====
-- libs/ingest/src/transport.cpp: the state of `UdpTransport`. A datagram comes with the time and the
-- sender's key; the socket calls are the environment's, and their outcomes arguments.
use Prim.Native.Nat.{bit_or}
use mmperp.Prelude.{
  ℕ, ◌+◌, ◌*◌, ◌%◌, ◌^◌, List, [], ◌∷◌, Bool, true, false, not, Option, none, some, Assoc, assign,
  length, if◌then◌else◌, ◌&&◌,
}
use mmperp.Prelude.Int.{ℤ, pos, ◌-ℤ◌, ltb_ℤ}
use mmperp.Ingress.{Frame}
use mmperp.Transport.Wire.{parse_frame}
use mmperp.Transport.Endpoint.{
  EndpointInfo, Endpoint, parsed, invalid, overflowed, parse_endpoint, any_host,
}

pub record UdpTransport : Type 0 where
  pub running : Bool
  pub socket_open : Bool
  pub bytes_received : ℕ
  pub frames_received : ℕ
  pub frames_malformed : ℕ
  pub peer_last_seen : Assoc ℤ

abbrev pub new_transport : UdpTransport
new_transport = record {
  running = false;
  socket_open = false;
  bytes_received = 0;
  frames_received = 0;
  frames_malformed = 0;
  peer_last_seen = [];
}

pub record TransportStats : Type 0 where
  pub bytes_received : ℕ
  pub frames_received : ℕ
  pub frames_malformed : ℕ
  pub connections_active : ℕ

abbrev pub add_u64 : ℕ → ℕ → ℕ
add_u64 a b = (a + b) % 2 ^ 64

unfoldable pub peer_key : ℕ → ℕ → ℕ
peer_key s_addr port = bit_or (s_addr * 2 ^ 16 % 2 ^ 64) port

-- Five seconds, in nanoseconds.
abbrev pub peer_liveness_window : ℤ
peer_liveness_window = pos 5000000000

abbrev pub stale : ℤ → ℤ → Bool
stale now seen = ltb_ℤ peer_liveness_window (now -ℤ seen)

unfoldable pub prune : ℤ → Assoc ℤ → Assoc ℤ
prune now [] = []
prune now ((key, seen) ∷ peers) =
    if stale now seen then prune now peers else (key, seen) ∷ prune now peers

unfoldable pub stats : UdpTransport → ℤ → TransportStats × UdpTransport
stats t now =
    let peers = prune now t.peer_last_seen in
    (
      record {
        bytes_received = t.bytes_received;
        frames_received = t.frames_received;
        frames_malformed = t.frames_malformed;
        connections_active = length peers;
      },
      record t { peer_last_seen = peers },
    )

-- The outcome of one parse: the frame goes to the callback.
unfoldable pub deliver : UdpTransport → Option Frame → Option Frame × UdpTransport
deliver t none = (none, record t { frames_malformed = add_u64 t.frames_malformed 1 })
deliver t (some f) = (some f, record t { frames_received = add_u64 t.frames_received 1 })

-- One round of `receive_loop`. An error, a timeout or an empty datagram gives no bytes.
unfoldable pub receive : UdpTransport → ℤ → ℕ → List ℕ → Option Frame × UdpTransport
unfolding deliver prune
receive t now sender [] = (none, t)
receive t now sender (b ∷ bytes) =
    deliver
      (record t {
        bytes_received = add_u64 t.bytes_received (length (b ∷ bytes));
        peer_last_seen = prune now (assign sender now t.peer_last_seen);
      })
      (parse_frame (b ∷ bytes))

-- What the socket calls of `start` answer.
pub record SocketCalls : Type 0 where
  pub socket_made : Bool
  pub address_valid : List ℕ → Bool
  pub bound : Bool

abbrev opened : UdpTransport → UdpTransport
opened t = record t { running = true; socket_open = true }

unfoldable pub start_at : SocketCalls → UdpTransport → EndpointInfo → Bool × UdpTransport
start_at calls t endpoint =
    if not calls.socket_made
    then (false, record t { socket_open = false })
    else if not (any_host endpoint.host) && not (calls.address_valid endpoint.host)
    then (false, record t { socket_open = false })
    else if not calls.bound
    then (false, record t { socket_open = false })
    else (true, opened t)

-- `none` stands for the exception that `std::stoi` throws.
unfoldable pub start_to : SocketCalls → UdpTransport → Endpoint → Option (Bool × UdpTransport)
unfolding start_at
start_to calls t invalid = some (false, t)
start_to calls t overflowed = none
start_to calls t (parsed endpoint) = some (start_at calls t endpoint)

unfoldable pub start : SocketCalls → UdpTransport → List ℕ → Option (Bool × UdpTransport)
unfolding start_to
start calls t uri = if t.running then some (false, t) else start_to calls t (parse_endpoint uri)

unfoldable pub stop : UdpTransport → UdpTransport
stop t = record t { running = false; socket_open = false; peer_last_seen = [] }
