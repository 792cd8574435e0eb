-- ===== src/Transport/Wire.antt =====
-- libs/ingest/src/transport.cpp: `parse_frame`, on the bytes of one datagram.
use mmperp.Prelude.{ℕ, List, not, Option, none, some, ◌>>=◌, length, take, ltb, ◌==◌, if◌then◌else◌}
use mmperp.Common.Bytes.{read_word, of_word}
use mmperp.Ingress.{MessageKind, new_order, cancel, replace, heartbeat, Frame}

abbrev pub wire_magic : ℕ
wire_magic = 0x54524443

abbrev pub wire_version : ℕ
wire_version = 1

-- `sizeof(WireHeader)`; the structure is packed.
abbrev pub wire_header_size : ℕ
wire_header_size = 36

pub record WireHeader : Type 0 where
  pub magic : ℕ
  pub version : ℕ
  pub flags : ℕ
  pub account : ℕ
  pub nonce : ℕ
  pub timestamp_ns : ℕ
  pub priority : ℕ
  pub kind : ℕ
  pub payload_len : ℕ

-- The header that the pointer is cast to, and the bytes behind it; `none` if the header does not fit.
unfoldable pub read_wire_header : List ℕ → Option (WireHeader × List ℕ)
read_wire_header bytes = do
  (magic, rest) ← read_word 4 bytes
  (version, rest) ← read_word 2 rest
  (flags, rest) ← read_word 2 rest
  (account, rest) ← read_word 8 rest
  (nonce, rest) ← read_word 8 rest
  (timestamp_ns, rest) ← read_word 8 rest
  (priority, rest) ← read_word 1 rest
  (kind, rest) ← read_word 1 rest
  (payload_len, rest) ← read_word 2 rest
  some (
    record {
      magic = magic;
      version = version;
      flags = flags;
      account = account;
      nonce = nonce;
      timestamp_ns = timestamp_ns;
      priority = priority;
      kind = kind;
      payload_len = payload_len;
    },
    rest,
  )

-- `static_cast<MessageKind>`, below `kHeartbeat` or at it.
abbrev pub kind_of : ℕ → MessageKind
kind_of k =
    if k == 0 then new_order else if k == 1 then cancel else if k == 2 then replace else heartbeat

abbrev pub frame_of : WireHeader → List ℕ → Frame
frame_of h payload = record {
  header = record {
    account = h.account;
    nonce = h.nonce;
    received_time_ns = of_word h.timestamp_ns;
    priority = h.priority;
    kind = kind_of h.kind;
  };
  payload = payload;
}

-- The checks on a header in their order, with the bytes behind it.
unfoldable pub accept_header : WireHeader × List ℕ → Option Frame
accept_header (h, rest) =
    if not (h.magic == wire_magic)
    then none
    else if not (h.version == wire_version)
    then none
    else if ltb (length rest) h.payload_len
    then none
    else if ltb 3 h.kind
    then none
    else some (frame_of h (take h.payload_len rest))

unfoldable pub parse_frame : List ℕ → Option Frame
unfolding accept_header read_wire_header
parse_frame bytes =
    if ltb (length bytes) wire_header_size then none else read_wire_header bytes >>= accept_header
