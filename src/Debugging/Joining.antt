-- ===== src/Debugging/Joining.antt =====
-- src/system_debugging.rs: the peers that `accept_peers` adds.
use system_core_port_test.Prelude.{
  ℕ, ◌+◌, ◌-◌, ◌≡◌, Bool, true, false, not, ◌||◌, Option, none, some, List, [], ◌∷◌, ◌++◌, map,
  length, is_empty,
}
use system_core_port_test.Text.{Bytes}
use system_core_port_test.Net.{Io, Socket}
use system_core_port_test.Net.Listening.{Listeners, TcpListening, accept_ready}
use system_core_port_test.Net.Binding.{SocketAddr}
use system_core_port_test.Commanding.Ingest.{on_connect, welcome_msg}
use system_core_port_test.Debugging.{process_tree, log, Connection, CommandPeer, SystemDebugging}
use system_core_port_test.Debugging.Accepting.{peer_of, new_session}
use system_core_port_test.Debugging.Sending.{Stream, handed}
use system_core_port_test.Debugging.Answering.{joined}

module _ {S W : Type 0} (system : Listeners W S SocketAddr) where
  -- A listener, and the state of the system, before and after; and the connections that are taken from its
  -- queue. Where a listener stands, all who wait are accepted, as far as its limit allows, and its queue
  -- is emptied.
  pub data Came
      : Option (TcpListening S SocketAddr)
        → W
        → Option (TcpListening S SocketAddr)
        → W
        → List (Connection S)
        → Type 0 where
    absent : (w : W) → Came none w none w []
    stands :
        (t u : TcpListening S SocketAddr) (w v : W) (e : Io ℕ)
        → accept_ready system (t.max_conn_queued - length t.peers + 1) w t ≡ some (v, u, e)
        → Came (some t) w (some (record u { peers = [] })) v u.peers

module _ {S : Type 0} (socket : Socket S) (taken : S → Bytes) (stream : Stream socket taken) where
  -- Each connection gets a new session, and was handed what the session says at its start.
  pub data Greeted (auto : Bool) : List (Connection S) → List (CommandPeer S) → Type 0 where
    nobody_new : Greeted auto [] []
    greeted :
        (c : Connection S) (p : CommandPeer S) {cs : List (Connection S)}
        {ps : List (CommandPeer S)}
        → p.session ≡ (on_connect welcome_msg (new_session auto)).0
        → p.closing ≡ false
        → handed socket taken stream p.connection
          ≡ handed socket taken stream c ++ joined (on_connect welcome_msg (new_session auto)).1
        → Greeted auto cs ps
        → Greeted auto (c ∷ cs) (p ∷ ps)

  module _ {W : Type 0} (system : Listeners W S SocketAddr) where
    -- The four listeners one after the other; the new peers stand behind the old ones.
    pub data Joined (d : SystemDebugging S) (w : W) : SystemDebugging S → W → Type 0 where
      all_joined :
          (trees logs cmds autos : List (Connection S)) (ps qs : List (CommandPeer S))
          (proc lg cmd auto : Option (TcpListening S SocketAddr)) (w1 w2 w3 v : W)
          → Came system d.proc_listener w proc w1 trees
          → Came system d.log_listener w1 lg w2 logs
          → Came system d.cmd_listener w2 cmd w3 cmds
          → Came system d.cmd_auto_listener w3 auto v autos
          → Greeted false cmds ps
          → Greeted true autos qs
          → Joined d w
              (record d {
                proc_listener = proc;
                log_listener = lg;
                cmd_listener = cmd;
                cmd_auto_listener = auto;
                peers = (d.peers ++ map (peer_of process_tree) trees) ++ map (peer_of log) logs;
                command_peers = (d.command_peers ++ ps) ++ qs;
                tree_dirty = d.tree_dirty || not (is_empty trees);
                peer_log_once_connected = d.peer_log_once_connected || not (is_empty logs);
              })
              v
