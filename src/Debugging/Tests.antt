-- ===== src/Debugging/Tests.antt =====
-- src/system_debugging.rs: debugging processes over streams that take whole buffers.
use system_core_port_test.Prelude.{
  ℕ, ◌+◌, ◌≡◌, ◌⊎◌, inl, inr, refl, Bool, true, false, Option, none, some, List, [], ◌∷◌, ◌==◌,
  if◌then◌else◌, arith, ltb,
}
use system_core_port_test.Text.{Text, Bytes}
use system_core_port_test.Logging.{info, Logger, logger_new, subscribe_logs, emit}
use system_core_port_test.Net.{ok, err, answered, would_block, from_stream}
use system_core_port_test.Net.Listening.{Listeners}
use system_core_port_test.Net.Binding.{SocketAddr, v4, v6, Sockets}
use system_core_port_test.Commanding.Registry.{CommandRegistry}
use system_core_port_test.Commanding.Session.{session_new}
use system_core_port_test.Commanding.Safe.{session_new-Wf}
use system_core_port_test.Processing.{ProcessRenderOptions}
use system_core_port_test.Debugging.{
  Connection, Peer, CommandPeer, process_tree, log, SystemDebugging, debugging_new,
  listen_local_set,
}
use system_core_port_test.Debugging.Starting.{Outcome, ensure_started}
use system_core_port_test.Debugging.Settling.{Succeeds, Fails, ensure_started-settles}
use system_core_port_test.Debugging.Serving.{pump_peer, command_peers_pump}
use system_core_port_test.Debugging.Broadcasting.{drained, send_log_entries}
use system_core_port_test.Debugging.Delivering.{Served, entries_bytes, send_log_entries-Served}
use system_core_port_test.Debugging.Retaining.{Retained}
use system_core_port_test.Debugging.Pumping.{command_peers_pump-Retained}
use system_core_port_test.Debugging.Owed.{Round}
use system_core_port_test.Debugging.Streams.{Wire, wire, arrived, unread, wire-Duplex, Cell}

abbrev connection : Bytes → Connection Wire
connection bytes = from_stream (bytes, []) none none

-- One subscriber, and two entries of which the second is too quiet.
abbrev logger : Logger
logger = emit info none 1_000_000 (97 ∷ []) (subscribe_logs logger_new).0

abbrev watched : SystemDebugging Wire
watched = record (debugging_new 0 0) {
  log_rx = some 0;
  peers =
      record { kind = process_tree; connection = connection [] }
      ∷ record { kind = log; connection = connection [] }
      ∷ [];
}

send_log_entries-Served_example :
    (qs : List (Peer Wire)) × (send_log_entries wire 3 watched logger
      ≡ some (record watched { peers = qs }, drained 0 logger))
    × Served wire arrived wire-Duplex.stream log
        (entries_bytes 3 (logger.channels.queue 0))
        watched.peers
        qs
    × ((drained 0 logger).channels.queue 0 ≡ [])
send_log_entries-Served_example =
    send_log_entries-Served wire arrived wire-Duplex.stream 3 watched logger 0 refl
      (refl, (refl, tt))

abbrev no_handlers : ℕ → Text → CommandRegistry ℕ → Text
no_handlers h args registry = []

-- "x", return, Ctrl-C from the first; the second is closing, with a byte to send.
abbrev commanded : SystemDebugging Wire
commanded = record (debugging_new 0 0) {
  command_peers =
      record { connection = connection (120 ∷ 13 ∷ 3 ∷ []); session = session_new; closing = false }
      ∷ record {
        connection = record (connection []) { pending_write = 1 ∷ [] };
        session = session_new;
        closing = true;
      }
      ∷ [];
}

command_peers_pump-Retained_example :
    (qs : List (CommandPeer Wire)) × (command_peers_pump wire 4 no_handlers [] commanded
      ≡ some (record commanded { command_peers = qs }))
    × Retained
        (pump_peer wire 4 no_handlers [])
        (Round wire arrived unread wire-Duplex no_handlers [] 4)
        commanded.command_peers
        qs
command_peers_pump-Retained_example =
    command_peers_pump-Retained wire arrived unread wire-Duplex no_handlers [] 4 commanded tt
      (inr session_new-Wf, (inl refl, tt)) (omega arith)

-- A host without IPv6, and with a port that is in use. The state counts the sockets.
abbrev is_taken : SocketAddr → Bool
is_taken (v4 ip port) = port == 3104
is_taken (v6 ip port) = false

abbrev host : Sockets ℕ ℕ
host = record {
  socket_new = λ ipv4 w. (w + 1, if ipv4 then ok w else err 97);
  set_only_v6 = λ socket w. (w, ok tt);
  set_reuse_address = λ socket w. (w, ok tt);
  set_nonblocking = λ socket w. (w, ok tt);
  bind_to = λ socket addr w. (w, if is_taken addr then err 98 else ok tt);
  listen = λ socket n w. (w, ok tt);
  listener_of = λ socket. socket;
  local_addr = λ id w. (w, ok (v4 [] id));
}

-- One peer waits, who sends "x".
abbrev one_waits : Listeners ℕ Cell SocketAddr
one_waits = record {
  accept = λ listener w. if ltb w 100 then (100, answered (some 120, [])) else (w, would_block);
  adopt = λ stream. ok (stream, none, none);
}

abbrev show_code : ℕ → Text
show_code e = (48 + e) ∷ []

abbrev unstarted : SystemDebugging Cell
unstarted = listen_local_set (debugging_new 0 0)

ensure_started-settles_example :
    (r : Outcome Cell ℕ) × (ensure_started host show_code 0
        (record unstarted { port_start = 3100 })
        0
        logger_new
      ≡ some r)
    × (Succeeds host show_code 0 (record unstarted { port_start = 3100 }) 0 logger_new r
        ⊎ Fails host show_code 0 (record unstarted { port_start = 3100 }) 0 logger_new r)
ensure_started-settles_example =
    ensure_started-settles host show_code 0 (record unstarted { port_start = 3100 }) 0 logger_new
      refl (omega arith)

abbrev plain_draw : List Text → List Text → ProcessRenderOptions → Option Text
plain_draw own extra options = some (99 ∷ [])

abbrev held_connection : Option ℕ → Connection Cell
held_connection byte = from_stream (byte, []) none none

-- A peer of the tree that presses Ctrl-C, one of the log, and a command peer that presses return.
abbrev visited : SystemDebugging Cell
visited = record unstarted {
  peers =
      record { kind = process_tree; connection = held_connection (some 3) }
      ∷ record { kind = log; connection = held_connection none }
      ∷ [];
  command_peers =
      record { connection = held_connection (some 13); session = session_new; closing = false }
      ∷ [];
}
