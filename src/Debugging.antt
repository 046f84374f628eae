-- ===== src/Debugging.antt =====
-- src/system_debugging.rs: the state of `SystemDebugging`. Times are milliseconds; `now` is an argument.
pub mod Starting
pub mod Accepting
pub mod Serving
pub mod Broadcasting
pub mod Listing
pub mod Running
pub mod Commands
pub mod Sending
pub mod Ending
pub mod Delivering
pub mod Retaining
pub mod Answering
pub mod Owed
pub mod Replying
pub mod Pumping
pub mod Joining
pub mod Accepted
pub mod Settling
pub mod Turning
pub mod Turned
pub mod Rounds
pub mod Streams
mod Tests
use system_core_port_test.Prelude.{
  ℕ, ◌+◌, Bool, true, false, not, ◌&&◌, ◌||◌, Option, none, some, List, [], ◌∷◌, ◌++◌, ◌==◌,
  if◌then◌else◌, ◌>>=◌, is_empty, length,
}
use system_core_port_test.Text.{Text, Bytes, decimal}
use system_core_port_test.Logging.{Logger, level_log_set}
use system_core_port_test.Net.{Io, ok, err, Socket, TcpTransfering, flush_pending, queue_send}
use system_core_port_test.Net.Listening.{TcpListening}
use system_core_port_test.Net.Binding.{SocketAddr}
use system_core_port_test.Commanding.Session.{SystemCommanding}
use system_core_port_test.Commanding.Numbers.{from_str_radix}
use system_core_port_test.Commanding.Registry.{starts_with}

abbrev pub ctrl_c_telnet_seq : Bytes
ctrl_c_telnet_seq = 0xff ∷ 0xf4 ∷ 0xff ∷ 0xfd ∷ 0x06 ∷ []

pub data PeerType : Type 0 where
  process_tree log : PeerType

abbrev pub Connection : Type 0 → Type 0
Connection S = TcpTransfering S SocketAddr

pub record Peer (S : Type 0) : Type 0 where
  pub kind : PeerType
  pub connection : Connection S

pub record CommandPeer (S : Type 0) : Type 0 where
  pub connection : Connection S
  pub session : SystemCommanding
  pub closing : Bool

-- `log_rx` is the channel that the logger sends to.
pub record SystemDebugging (S : Type 0) : Type 0 where
  pub root : ℕ
  pub listen_local : Bool
  pub port_start : ℕ
  pub proc_listener : Option (TcpListening S SocketAddr)
  pub log_listener : Option (TcpListening S SocketAddr)
  pub cmd_listener : Option (TcpListening S SocketAddr)
  pub cmd_auto_listener : Option (TcpListening S SocketAddr)
  pub peers : List (Peer S)
  pub command_peers : List (CommandPeer S)
  pub log_rx : Option ℕ
  pub tree_cache : Text
  pub tree_dirty : Bool
  pub peer_log_once_connected : Bool
  pub update_period : ℕ
  pub last_tree_send : ℕ

module _ {S : Type 0} where
  -- The two commands that `new` registers are below.
  abbrev pub debugging_new : ℕ → ℕ → SystemDebugging S
  debugging_new root now = record {
    root = root;
    listen_local = false;
    port_start = 3000;
    proc_listener = none;
    log_listener = none;
    cmd_listener = none;
    cmd_auto_listener = none;
    peers = [];
    command_peers = [];
    log_rx = none;
    tree_cache = [];
    tree_dirty = true;
    peer_log_once_connected = false;
    update_period = 500;
    last_tree_send = now;
  }

  abbrev pub listen_local_set : SystemDebugging S → SystemDebugging S
  listen_local_set d = record d { listen_local = true }

  abbrev pub port_start_set : ℕ → SystemDebugging S → SystemDebugging S
  port_start_set port d = record d { port_start = port }

  abbrev pub ready : SystemDebugging S → Bool
  ready d = d.peer_log_once_connected

  abbrev pub is_open : Connection S → Bool
  is_open c = not c.done

  abbrev pub has_pending_write : Connection S → Bool
  has_pending_write c = not (is_empty c.pending_write)

-- "Log level set to "
abbrev pub log_level_answer : Text
log_level_answer =
    76 ∷ 111 ∷ 103 ∷ 32 ∷ 108 ∷ 101 ∷ 118 ∷ 101 ∷ 108 ∷ 32 ∷ 115 ∷ 101 ∷ 116 ∷ 32 ∷ 116 ∷ 111 ∷ 32
    ∷ []

-- "System log level set to "
abbrev pub socket_level_answer : Text
socket_level_answer =
    83 ∷ 121 ∷ 115 ∷ 116 ∷ 101 ∷ 109 ∷ 32 ∷ 108 ∷ 111 ∷ 103 ∷ 32 ∷ 108 ∷ 101 ∷ 118 ∷ 101 ∷ 108 ∷ 32
    ∷ 115 ∷ 101 ∷ 116 ∷ 32 ∷ 116 ∷ 111 ∷ 32 ∷ []

abbrev pub level_of : Text → ℕ
level_of args = elim (from_str_radix 10 args) [ none ↦ 3 | some level ↦ level ]

-- The handler of "levelLog".
unfoldable pub log_level_command : Text → Logger → Logger × Text
log_level_command args l =
    (level_log_set (level_of args) l, log_level_answer ++ decimal (level_of args))

-- The handler of "levelLogSys"; `SOCKET_LOG_LEVEL` is the first result.
unfoldable pub socket_level_command : Text → ℕ × Text
socket_level_command args = (level_of args, socket_level_answer ++ decimal (level_of args))

-- The first byte is Ctrl-C or Ctrl-D, or the bytes begin with what a telnet client sends for Ctrl-C.
unfoldable pub disconnect_requested : Bytes → Bool
disconnect_requested [] = false
disconnect_requested (b ∷ bs) = b == 3 || b == 4 || starts_with (b ∷ bs) ctrl_c_telnet_seq

-- `retain_mut`. `none` is a panic of the test.
unfoldable pub retain_mut {ℓ} : {A : Type ℓ} → (A → Option (A × Bool)) → List A → Option (List A)
retain_mut test [] = some []
retain_mut test (x ∷ xs) =
    test x >>= (λ r. retain_mut test xs >>= (λ ys. some (if r.1 then r.0 ∷ ys else ys)))

-- The two calls that write, with fuel for what waits.
module _ {S : Type 0} (socket : Socket S) where
  unfoldable pub send_bytes : Bytes → Connection S → Option (Connection S × Io (Unit {0}))
  send_bytes bytes c = queue_send socket (length c.pending_write + length bytes + 1) bytes c

  unfoldable pub flush : Connection S → Option (Connection S × Io Bool)
  flush c = flush_pending socket (length c.pending_write + 1) c
