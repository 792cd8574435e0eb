-- ===== src/Node/System/Tests/Restarts.antt =====
-- The program of the tests shuts down, starts again, and is killed.
use mmperp.Prelude.{ℕ, ◌≡◌, refl, ap, none, List, [], ◌∷◌, map, arith}
use mmperp.Ingress.{Frame}
use mmperp.Wal.Reader.{scan}
use mmperp.Wal.Writer.{opened, open_writer, recovered}
use mmperp.Wal.Appends.{records_from}
use mmperp.Node.Fills.{build_wal_payload}
use mmperp.Node.Start.{shut_down, boot_log, Environment, Program, started, boot}
use mmperp.Node.System.{begin}
use mmperp.Node.System.Histories.{
  Served, killed, shut, Session, History, new_log, kills, shuts, AreKept, History-scan,
}
use mmperp.Node.System.Tests.{
  environment, config, loaded, ingress, program, boots, first, second, after_order, ran,
}

program-Served : Served [] (first ∷ []) program after_order
program-Served = record {
  env = environment;
  loaded = loaded;
  queued = first ∷ second ∷ [];
  log_lem = refl;
  boots = boots;
  run = ran;
  loggable = (omega arith, (omega arith, tt));
}

-- The first session.
abbrev left : List ℕ
left = (shut_down (record program { node = after_order })).node.wal.file

abbrev one_session : List Session
one_session = record { ending = shut; taken = first ∷ [] } ∷ []

one_session-History : History left one_session
one_session-History = shuts new_log (first ∷ []) program after_order program-Served

reopens :
    (kept : List Frame) × AreKept one_session kept
    × (scan left ≡ record { records = records_from 1 (map build_wal_payload kept); failure = none })
    × (open_writer left 128
        ≡ opened record {
          file = left;
          buffer = [];
          flush_threshold = 128;
          next_sequence = recovered 1 (records_from 1 (map build_wal_payload kept));
        })
reopens = History-scan left one_session 128 one_session-History

-- The second session starts on that log, and is killed at once.
abbrev environment_after : Environment
environment_after = record environment { log = left }

abbrev program_after : Program
program_after = record program {
  node = record program.node {
    wal = record {
      file = left;
      buffer = [];
      flush_threshold = 128;
      next_sequence = recovered 1 (records_from 1 (map build_wal_payload reopens.0));
    };
  };
}

boots_after : boot environment_after loaded ≡ started program_after
unfolding boot boot_log mmperp.Transport.Endpoint.parse_endpoint
boots_after = ap (boot_log environment_after config ingress program.transport) reopens.3

program_after-Served : Served left [] program_after program_after.node
program_after-Served = record {
  env = environment_after;
  loaded = loaded;
  queued = [];
  log_lem = refl;
  boots = boots_after;
  run = begin;
  loggable = tt;
}

abbrev two_sessions : List Session
two_sessions = record { ending = killed; taken = [] } ∷ one_session

History-scan_example :
    (kept : List Frame) × AreKept two_sessions kept
    × (scan left ≡ record { records = records_from 1 (map build_wal_payload kept); failure = none })
    × (open_writer left 128
        ≡ opened record {
          file = left;
          buffer = [];
          flush_threshold = 128;
          next_sequence = recovered 1 (records_from 1 (map build_wal_payload kept));
        })
History-scan_example =
    History-scan left two_sessions 128
      (kills one_session-History [] program_after program_after.node program_after-Served)
