-- ===== src/Transport/Frames.antt =====
-- What `parse_frame` accepts.
use mmperp.Prelude.{
  ℕ, ◌<◌, ◌≤◌, ◌^◌, ◌≡◌, List, ◌++◌, some, length, length-append, arith, append_assoc,
}
use mmperp.Common.Bytes.{to_bytes, read_word-to_bytes, length-to_bytes, take_front}
use mmperp.Transport.Wire.{
  WireHeader, wire_magic, wire_version, read_wire_header, accept_header, frame_of, parse_frame,
}

-- The layout that the comment on `WireHeader` describes:
-- magic:4, version:2, flags:2, account:8, nonce:8, timestamp:8, priority:1, kind:1, payload_len:2.
unfoldable pub wire_bytes : WireHeader → List ℕ
wire_bytes h =
    to_bytes 4 h.magic
    ++ (to_bytes 2 h.version
        ++ (to_bytes 2 h.flags
            ++ (to_bytes 8 h.account
                ++ (to_bytes 8 h.nonce
                    ++ (to_bytes 8 h.timestamp_ns
                        ++ (to_bytes 1 h.priority
                            ++ (to_bytes 1 h.kind ++ to_bytes 2 h.payload_len)))))))

-- The fields fit their types.
pub record IsWireHeader (h : WireHeader) : Type 0 where
  pub magic_fits : h.magic < 2 ^ 32
  pub version_fits : h.version < 2 ^ 16
  pub flags_fit : h.flags < 2 ^ 16
  pub account_fits : h.account < 2 ^ 64
  pub nonce_fits : h.nonce < 2 ^ 64
  pub timestamp_fits : h.timestamp_ns < 2 ^ 64
  pub priority_fits : h.priority < 2 ^ 8
  pub kind_fits : h.kind < 2 ^ 8
  pub payload_len_fits : h.payload_len < 2 ^ 16

pub read-wire_bytes :
    (h : WireHeader) (rest : List ℕ)
    → IsWireHeader h
    → read_wire_header (wire_bytes h ++ rest) ≡ some (h, rest)
unfolding read_wire_header wire_bytes
read-wire_bytes h rest v = rw (
  append_assoc,
  append_assoc,
  append_assoc,
  append_assoc,
  append_assoc,
  append_assoc,
  append_assoc,
  append_assoc,
  read_word-to_bytes 4 h.magic _ v.magic_fits,
  read_word-to_bytes 2 h.version _ v.version_fits,
  read_word-to_bytes 2 h.flags _ v.flags_fit,
  read_word-to_bytes 8 h.account _ v.account_fits,
  read_word-to_bytes 8 h.nonce _ v.nonce_fits,
  read_word-to_bytes 8 h.timestamp_ns _ v.timestamp_fits,
  read_word-to_bytes 1 h.priority _ v.priority_fits,
  read_word-to_bytes 1 h.kind _ v.kind_fits,
  read_word-to_bytes 2 h.payload_len rest v.payload_len_fits,
)

length-wire_bytes : (h : WireHeader) → length (wire_bytes h) ≡ 36
unfolding wire_bytes
length-wire_bytes h = simp (length-append, length-to_bytes)

accepted :
    (h : WireHeader) (payload rest : List ℕ)
    → h.magic ≡ wire_magic
    → h.version ≡ wire_version
    → h.kind ≤ 3
    → length payload ≡ h.payload_len
    → accept_header (h, payload ++ rest) ≡ some (frame_of h payload)
unfolding accept_header
accepted h payload rest m v k l =
    ground (arith, length-append payload rest, take_front h.payload_len payload rest)

-- A datagram that holds a header of the documented layout with the right magic and version, a known
-- kind and a payload of the stated length parses to the frame of that header and payload, whatever
-- follows.
pub parse_frame-wire_bytes :
    (h : WireHeader) (payload rest : List ℕ)
    → IsWireHeader h
    → h.magic ≡ wire_magic
    → h.version ≡ wire_version
    → h.kind ≤ 3
    → length payload ≡ h.payload_len
    → parse_frame (wire_bytes h ++ (payload ++ rest)) ≡ some (frame_of h payload)
unfolding parse_frame
parse_frame-wire_bytes h payload rest fits m v k l = ground (
  arith,
  length-append (wire_bytes h) (payload ++ rest),
  length-wire_bytes h,
  read-wire_bytes h (payload ++ rest) fits,
  accepted h payload rest,
)
