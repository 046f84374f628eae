-- ===== src/Debugging/Accepting.antt =====
-- src/system_debugging.rs: `accept_peers`. `none`: the fuel ran out.
use system_core_port_test.Prelude.{
  ℕ, zero, suc, ◌+◌, ◌-◌, Bool, true, false, not, ◌||◌, Option, none, some, List, [], ◌∷◌, ◌++◌,
  map, if◌then◌else◌, ◌>>=◌, is_empty, length,
}
use system_core_port_test.Text.{Bytes}
use system_core_port_test.Net.{Socket}
use system_core_port_test.Net.Listening.{Listeners, TcpListening, next_peer, accept_ready}
use system_core_port_test.Net.Binding.{SocketAddr}
use system_core_port_test.Commanding.Session.{SystemCommanding, session_new}
use system_core_port_test.Commanding.Ingest.{mode_auto_set, on_connect, welcome_msg}
use system_core_port_test.Debugging.{
  PeerType, process_tree, log, Connection, Peer, CommandPeer, SystemDebugging, send_bytes,
}

-- `while let Some(connection) = listener.next_peer()`: the connections in the order in which they come.
unfoldable pub next_peers :
    {S : Type 0} → ℕ → TcpListening S SocketAddr → TcpListening S SocketAddr × List (Connection S)
next_peers zero t = (t, [])
next_peers (suc fuel) t =
    let (u, peer) = next_peer t in
    let (v, rest) = next_peers fuel u in elim peer [ none ↦ (u, []) | some c ↦ (v, c ∷ rest) ]

abbrev pub peer_of : {S : Type 0} → PeerType → Connection S → Peer S
peer_of kind c = record { kind = kind; connection = c }

abbrev pub new_session : Bool → SystemCommanding
new_session auto = if auto then mode_auto_set session_new else session_new

module _ {S : Type 0} (socket : Socket S) where
  -- Errors of the sending are ignored.
  unfoldable pub send_chunks : List Bytes → Connection S → Option (Connection S)
  send_chunks [] c = some c
  send_chunks (chunk ∷ chunks) c = send_bytes socket chunk c >>= (λ r. send_chunks chunks r.0)

  unfoldable pub command_peer : Bool → Connection S → Option (CommandPeer S)
  command_peer auto c =
      let (session, chunks) = on_connect welcome_msg (new_session auto) in
      send_chunks chunks c
      >>= (λ sent. some (record { connection = sent; session = session; closing = false }))

  unfoldable pub command_peers_of : Bool → List (Connection S) → Option (List (CommandPeer S))
  command_peers_of auto [] = some []
  command_peers_of auto (c ∷ cs) =
      command_peer auto c >>= (λ p. command_peers_of auto cs >>= (λ ps. some (p ∷ ps)))

module _ {S W : Type 0} (system : Listeners W S SocketAddr) where
  -- `let _ = listener.accept_ready();`, and the connections that are queued then.
  abbrev pub accepted :
      TcpListening S SocketAddr → W → Option (W × TcpListening S SocketAddr × List (Connection S))
  accepted t w =
      accept_ready system (t.max_conn_queued - length t.peers + 1) w t
      >>= (λ r. let (u, cs) = next_peers (length r.1.peers) r.1 in some (r.0, u, cs))

  -- `if let Some(listener) = …`
  unfoldable pub accept_at :
      Option (TcpListening S SocketAddr)
      → W
      → Option (W × Option (TcpListening S SocketAddr) × List (Connection S))
  accept_at none w = some (w, none, [])
  accept_at (some t) w = accepted t w >>= (λ r. some (r.0, some r.1, r.2))

-- What comes of one listener: the system, the listener, and the new connections.
abbrev pub Arrivals : Type 0 → Type 0 → Type 0
Arrivals S W = W × Option (TcpListening S SocketAddr) × List (Connection S)

module _ {S W : Type 0} where
  abbrev pub with_tree_peers : SystemDebugging S → Arrivals S W → SystemDebugging S × W
  with_tree_peers d r = (
    record d {
      proc_listener = r.1;
      peers = d.peers ++ map (peer_of process_tree) r.2;
      tree_dirty = d.tree_dirty || not (is_empty r.2);
    },
    r.0,
  )

  abbrev pub with_log_peers : SystemDebugging S → Arrivals S W → SystemDebugging S × W
  with_log_peers d r = (
    record d {
      log_listener = r.1;
      peers = d.peers ++ map (peer_of log) r.2;
      peer_log_once_connected = d.peer_log_once_connected || not (is_empty r.2);
    },
    r.0,
  )

  abbrev pub with_command_peers :
      SystemDebugging S → Arrivals S W → List (CommandPeer S) → SystemDebugging S × W
  with_command_peers d r ps =
      (record d { cmd_listener = r.1; command_peers = d.command_peers ++ ps }, r.0)

  abbrev pub with_auto_peers :
      SystemDebugging S → Arrivals S W → List (CommandPeer S) → SystemDebugging S × W
  with_auto_peers d r ps =
      (record d { cmd_auto_listener = r.1; command_peers = d.command_peers ++ ps }, r.0)

module _ {S W : Type 0} (system : Listeners W S SocketAddr) where
  abbrev pub accept_tree : SystemDebugging S → W → Option (SystemDebugging S × W)
  accept_tree d w = accept_at system d.proc_listener w >>= (λ r. some (with_tree_peers d r))

  abbrev pub accept_log : SystemDebugging S → W → Option (SystemDebugging S × W)
  accept_log d w = accept_at system d.log_listener w >>= (λ r. some (with_log_peers d r))

module _ {S W : Type 0} (socket : Socket S) (system : Listeners W S SocketAddr) where
  abbrev pub accept_cmd : SystemDebugging S → W → Option (SystemDebugging S × W)
  accept_cmd d w =
      accept_at system d.cmd_listener w
      >>= (λ r. command_peers_of socket false r.2 >>= (λ ps. some (with_command_peers d r ps)))

  abbrev pub accept_auto : SystemDebugging S → W → Option (SystemDebugging S × W)
  accept_auto d w =
      accept_at system d.cmd_auto_listener w
      >>= (λ r. command_peers_of socket true r.2 >>= (λ ps. some (with_auto_peers d r ps)))

  unfoldable pub accept_peers : SystemDebugging S → W → Option (SystemDebugging S × W)
  accept_peers d w = accept_tree system d w >>= (λ r.
      accept_log system r.0 r.1 >>= (λ r. accept_cmd r.0 r.1 >>= (λ r. accept_auto r.0 r.1)))
