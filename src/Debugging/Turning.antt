-- ===== src/Debugging/Turning.antt =====
-- src/system_debugging.rs: what one call of `process` does, part by part.
use system_core_port_test.Prelude.{
  ℕ, ◌-◌, ◌≡◌, Bool, true, false, not, ◌&&◌, Option, none, some, List, ◌++◌, ltb, if◌then◌else◌,
}
use system_core_port_test.Text.{Text, Bytes, encode}
use system_core_port_test.Logging.{Logger}
use system_core_port_test.Net.{Io, ok, err, Socket, read_available, done_set}
use system_core_port_test.Net.Listening.{Listeners}
use system_core_port_test.Net.Binding.{SocketAddr, Sockets}
use system_core_port_test.Commanding.Registry.{CommandRegistry, eq_text}
use system_core_port_test.Processing.{ProcessRenderOptions, pending}
use system_core_port_test.Debugging.{
  Connection, disconnect_requested, Peer, process_tree, log, SystemDebugging, is_open,
}
use system_core_port_test.Debugging.Starting.{Outcome, is_some}
use system_core_port_test.Debugging.Settling.{Succeeds, Fails}
use system_core_port_test.Debugging.Joining.{Joined}
use system_core_port_test.Debugging.Serving.{check_peer, pump_peer}
use system_core_port_test.Debugging.Broadcasting.{tree_options, clear_screen, drained}
use system_core_port_test.Debugging.Sending.{Stream}
use system_core_port_test.Debugging.Delivering.{entries_bytes, AllOpen, Served}
use system_core_port_test.Debugging.Retaining.{Retained}
use system_core_port_test.Debugging.Owed.{Duplex, Round}
use system_core_port_test.Debugging.Listing.{process_info, process_tree_extra_lines}

-- Ctrl-C, Ctrl-D or an error shuts the connection of a peer that was read from; else it is as the reading
-- left it.
abbrev pub Reacts : {S : Type 0} → Socket S → Peer S → Connection S → Io Bytes → Peer S → Type 0
Reacts socket p c (ok bytes) q =
    q ≡ record p { connection = if disconnect_requested bytes then done_set socket c else c }
Reacts socket p c (err e) q = q ≡ record p { connection = done_set socket c }

-- A peer is read from, and stays exactly if its connection is open then.
abbrev pub Checks : {S : Type 0} → Socket S → ℕ → Peer S → Peer S × Bool → Type 0
Checks {S} socket reads p r =
    (c : Connection S) × (a : Io Bytes) × (read_available socket reads p.connection ≡ some (c, a))
    × Reacts socket p c a r.0
    × (r.1 ≡ is_open r.0.connection)

-- It is too early for the tree of the processes.
abbrev pub too_early : {S : Type 0} → ℕ → SystemDebugging S → Bool
too_early now d = not d.tree_dirty && ltb (now - d.last_tree_send) d.update_period

-- The tree is the one that was sent last.
abbrev pub unchanged : {S : Type 0} → Text → SystemDebugging S → Bool
unchanged tree d = eq_text tree d.tree_cache && not d.tree_dirty

module _ {S : Type 0} (socket : Socket S) (taken : S → Bytes) (stream : Stream socket taken) where
  -- The tree of the processes goes to its peers, if it is time and the tree is a new one, and the process
  -- remembers it. The process before, and after.
  pub data Shown (draw : ProcessRenderOptions → Option Text) (now : ℕ) (d : SystemDebugging S)
      : SystemDebugging S → Type 0 where
    is_early : too_early now d ≡ true → Shown draw now d d
    is_same :
        (tree : Text)
        → too_early now d ≡ false
        → draw tree_options ≡ some tree
        → unchanged tree d ≡ true
        → Shown draw now d d
    is_shown :
        (tree : Text) (qs : List (Peer S))
        → too_early now d ≡ false
        → draw tree_options ≡ some tree
        → unchanged tree d ≡ false
        → Served socket taken stream process_tree (encode (clear_screen ++ tree)) d.peers qs
        → Shown draw now d
            (record d { tree_cache = tree; tree_dirty = false; last_tree_send = now; peers = qs })

  -- What waits in the log's channel goes to the log's peers.
  pub data Logged (level : ℕ) (d : SystemDebugging S) (l : Logger)
      : SystemDebugging S → Logger → Type 0 where
    unsubscribed : d.log_rx ≡ none → Logged level d l d l
    subscribed :
        (c : ℕ) (qs : List (Peer S))
        → d.log_rx ≡ some c
        → Served socket taken stream log (entries_bytes level (l.channels.queue c)) d.peers qs
        → Logged level d l (record d { peers = qs }) (drained c l)

module _ {S W K H : Type 0} (socket : Socket S) (taken input : S → Bytes)
    (duplex : Duplex socket taken input) (sockets : Sockets W K) (system : Listeners W S SocketAddr)
    (show_error : ℕ → Text) (call : H → Text → CommandRegistry H → Text) (reads level : ℕ)
    (registry : CommandRegistry H)
    (draw : List Text → List Text → ProcessRenderOptions → Option Text) (now : ℕ) where
  -- One turn: new peers are accepted, the peers of the tree and of the log are read from, the command
  -- peers have their round, then the tree and the log go out.
  pub record Turn (r u : Outcome S W) : Type 0 where
    pub with_new : SystemDebugging S
    pub joined_lem : Joined socket taken duplex.stream system r.debugging r.system with_new u.system
    pub checked : List (Peer S)
    pub checked_lem :
        Retained (check_peer socket reads) (Checks socket reads) with_new.peers checked
    pub pumped : SystemDebugging S
    pub pumped_lem :
        pumped ≡ record with_new { peers = checked; command_peers = pumped.command_peers }
    pub rounds_lem :
        Retained
          (pump_peer socket reads call registry)
          (Round socket taken input duplex call registry reads)
          with_new.command_peers
          pumped.command_peers
    pub shown : SystemDebugging S
    pub shown_lem :
        Shown socket taken duplex.stream
          (draw (process_info pumped) (process_tree_extra_lines pumped))
          now
          pumped
          shown
    pub logged_lem : Logged socket taken duplex.stream level shown r.logger u.debugging u.logger
    pub pending_lem : u.result ≡ pending
    pub all_open : AllOpen u.debugging.peers

  -- A call: a turn where the listeners stood, or where they were given now; else the failed start, and
  -- no turn.
  pub data Leaves (d : SystemDebugging S) (w : W) (l : Logger) (u : Outcome S W) : Type 0 where
    stood :
        (r : Outcome S W)
        → is_some d.proc_listener ≡ true
        → r.debugging ≡ d
        → r.system ≡ w
        → r.logger ≡ l
        → Turn r u
        → Leaves d w l u
    given_now :
        (r : Outcome S W)
        → is_some d.proc_listener ≡ false
        → Succeeds sockets show_error now d w l r
        → Turn r u
        → Leaves d w l u
    failed_now :
        is_some d.proc_listener ≡ false → Fails sockets show_error now d w l u → Leaves d w l u
