-- ===== src/Wal/Record.antt =====
-- libs/wal/include/tradecore/wal/wal_writer.hpp: the records of the log and their bytes.
use Prim.Native.Nat.{bit_xor}
use mmperp.Prelude.{ℕ, ◌*◌, ◌%◌, ◌^◌, Option, some, ◌>>=◌, List, [], ◌∷◌, ◌++◌}
use mmperp.Common.Bytes.{to_bytes, read_word}

abbrev pub wal_magic : ℕ
wal_magic = 0x5443574c

pub record RecordHeader : Type 0 where
  pub magic : ℕ
  pub version : ℕ
  pub reserved : ℕ
  pub sequence : ℕ
  pub payload_size : ℕ
  pub checksum : ℕ

pub record WalRecord : Type 0 where
  pub header : RecordHeader
  pub payload : List ℕ

-- The default header of a `RecordView`.
abbrev pub blank_header : RecordHeader
blank_header = record {
  magic = wal_magic;
  version = 1;
  reserved = 0;
  sequence = 0;
  payload_size = 0;
  checksum = 0;
}

-- `sizeof(RecordHeader)`; the structure has no padding.
abbrev pub record_header_size : ℕ
record_header_size = 24

-- The FNV-1a hash of 32 bits, from a hash so far.
unfoldable pub checksum_from : ℕ → List ℕ → ℕ
checksum_from hash [] = hash
checksum_from hash (b ∷ bytes) = checksum_from (bit_xor hash b * 16777619 % 2 ^ 32) bytes

unfoldable pub checksum32 : List ℕ → ℕ
unfolding checksum_from
checksum32 bytes = checksum_from 2166136261 bytes

-- `std::as_bytes` of a header.
unfoldable pub header_bytes : RecordHeader → List ℕ
header_bytes h =
    to_bytes 4 h.magic
    ++ (to_bytes 2 h.version
        ++ (to_bytes 2 h.reserved
            ++ (to_bytes 8 h.sequence ++ (to_bytes 4 h.payload_size ++ to_bytes 4 h.checksum))))

-- A header that is read into its structure, and what follows it; `none` if the bytes run out.
unfoldable pub read_header : List ℕ → Option (RecordHeader × List ℕ)
read_header bytes = do
  (magic, rest) ← read_word 4 bytes
  (version, rest) ← read_word 2 rest
  (reserved, rest) ← read_word 2 rest
  (sequence, rest) ← read_word 8 rest
  (payload_size, rest) ← read_word 4 rest
  (checksum, rest) ← read_word 4 rest
  some (
    record {
      magic = magic;
      version = version;
      reserved = reserved;
      sequence = sequence;
      payload_size = payload_size;
      checksum = checksum;
    },
    rest,
  )

unfoldable pub record_bytes : WalRecord → List ℕ
unfolding header_bytes
record_bytes r = header_bytes r.header ++ r.payload
