-- ===== src/Debugging/Starting.antt =====
-- src/system_debugging.rs: `ensure_started`. A port is a `u16`; a sum past it is a panic, `none`, as in
-- a build with overflow checks. The clock does not move meanwhile.
use system_core_port_test.Prelude.{
  ℕ, ◌+◌, Bool, true, false, Option, none, some, [], ◌∷◌, ◌++◌, ltb, if◌then◌else◌, ◌>>=◌,
}
use system_core_port_test.Text.{Text, decimal}
use system_core_port_test.Logging.{error, info, Logger, emit, subscribe_logs}
use system_core_port_test.Net.{Io, ok, err}
use system_core_port_test.Net.Listening.{TcpListening, max_conn_queued_set}
use system_core_port_test.Net.Binding.{SocketAddr, Sockets, bind}
use system_core_port_test.Processing.{Success, positive, negative}
use system_core_port_test.Debugging.{SystemDebugging}

-- "SystemDebugging"
abbrev pub debugging_name : Text
debugging_name =
    83 ∷ 121 ∷ 115 ∷ 116 ∷ 101 ∷ 109 ∷ 68 ∷ 101 ∷ 98 ∷ 117 ∷ 103 ∷ 103 ∷ 105 ∷ 110 ∷ 103 ∷ []

-- "failed to bind process tree listener: "
abbrev pub proc_bind_failed : Text
proc_bind_failed =
    102 ∷ 97 ∷ 105 ∷ 108 ∷ 101 ∷ 100 ∷ 32 ∷ 116 ∷ 111 ∷ 32 ∷ 98 ∷ 105 ∷ 110 ∷ 100 ∷ 32 ∷ 112 ∷ 114
    ∷ 111 ∷ 99 ∷ 101 ∷ 115 ∷ 115 ∷ 32 ∷ 116 ∷ 114 ∷ 101 ∷ 101 ∷ 32 ∷ 108 ∷ 105 ∷ 115 ∷ 116 ∷ 101
    ∷ 110 ∷ 101 ∷ 114 ∷ 58 ∷ 32 ∷ []

-- "failed to bind log listener: "
abbrev pub log_bind_failed : Text
log_bind_failed =
    102 ∷ 97 ∷ 105 ∷ 108 ∷ 101 ∷ 100 ∷ 32 ∷ 116 ∷ 111 ∷ 32 ∷ 98 ∷ 105 ∷ 110 ∷ 100 ∷ 32 ∷ 108 ∷ 111
    ∷ 103 ∷ 32 ∷ 108 ∷ 105 ∷ 115 ∷ 116 ∷ 101 ∷ 110 ∷ 101 ∷ 114 ∷ 58 ∷ 32 ∷ []

-- "failed to bind command listener: "
abbrev pub cmd_bind_failed : Text
cmd_bind_failed =
    102 ∷ 97 ∷ 105 ∷ 108 ∷ 101 ∷ 100 ∷ 32 ∷ 116 ∷ 111 ∷ 32 ∷ 98 ∷ 105 ∷ 110 ∷ 100 ∷ 32 ∷ 99 ∷ 111
    ∷ 109 ∷ 109 ∷ 97 ∷ 110 ∷ 100 ∷ 32 ∷ 108 ∷ 105 ∷ 115 ∷ 116 ∷ 101 ∷ 110 ∷ 101 ∷ 114 ∷ 58 ∷ 32 ∷ []

-- "failed to bind auto-command listener: "
abbrev pub auto_bind_failed : Text
auto_bind_failed =
    102 ∷ 97 ∷ 105 ∷ 108 ∷ 101 ∷ 100 ∷ 32 ∷ 116 ∷ 111 ∷ 32 ∷ 98 ∷ 105 ∷ 110 ∷ 100 ∷ 32 ∷ 97 ∷ 117
    ∷ 116 ∷ 111 ∷ 45 ∷ 99 ∷ 111 ∷ 109 ∷ 109 ∷ 97 ∷ 110 ∷ 100 ∷ 32 ∷ 108 ∷ 105 ∷ 115 ∷ 116 ∷ 101
    ∷ 110 ∷ 101 ∷ 114 ∷ 58 ∷ 32 ∷ []

-- "debug listeners ready on ports "
abbrev pub listeners_ready : Text
listeners_ready =
    100 ∷ 101 ∷ 98 ∷ 117 ∷ 103 ∷ 32 ∷ 108 ∷ 105 ∷ 115 ∷ 116 ∷ 101 ∷ 110 ∷ 101 ∷ 114 ∷ 115 ∷ 32 ∷ 114
    ∷ 101 ∷ 97 ∷ 100 ∷ 121 ∷ 32 ∷ 111 ∷ 110 ∷ 32 ∷ 112 ∷ 111 ∷ 114 ∷ 116 ∷ 115 ∷ 32 ∷ []

abbrev pub add_port : ℕ → ℕ → Option ℕ
add_port port n = if ltb (port + n) 65_536 then some (port + n) else none

-- What the process changes: itself, the system below, the logger. And its result.
pub record Outcome (S W : Type 0) : Type 0 where
  pub debugging : SystemDebugging S
  pub system : W
  pub logger : Logger
  pub result : Success

abbrev pub is_some {ℓ} : {A : Type ℓ} → Option A → Bool
is_some none = false
is_some (some a) = true

-- `-1` as an `i16`: its bits as a number.
abbrev pub minus_one : ℕ
minus_one = 65_535

-- The four listeners, once they are bound, with the limits of their queues.
abbrev pub with_listeners :
    {S : Type 0}
    → (proc log cmd auto : TcpListening S SocketAddr) → SystemDebugging S
    → SystemDebugging S
with_listeners proc log cmd auto d = record d {
  proc_listener = some (max_conn_queued_set 200 proc);
  log_listener = some log;
  cmd_listener = some (max_conn_queued_set 4 cmd);
  cmd_auto_listener = some (max_conn_queued_set 4 auto);
}

abbrev pub ports_text : ℕ → Text
ports_text port =
    listeners_ready
    ++ (decimal port
        ++ ((44 ∷ 32 ∷ decimal (port + 2))
            ++ ((44 ∷ 32 ∷ decimal (port + 4)) ++ (44 ∷ 32 ∷ decimal (port + 6)))))

module _ {S W K : Type 0} (sockets : Sockets W K) (show_error : ℕ → Text) (now : ℕ) where
  -- `ctx.error`: one entry of the log, and -1.
  abbrev pub failed_to_bind : Text → ℕ → SystemDebugging S → W → Logger → Outcome S W
  failed_to_bind text e d w l = record {
    debugging = d;
    system = w;
    logger = emit error (some debugging_name) now (text ++ show_error e) l;
    result = negative minus_one;
  }

  abbrev pub started :
      (proc log cmd auto : TcpListening S SocketAddr) → SystemDebugging S → W → Logger → Outcome S W
  started proc log cmd auto d w l =
      let (subscribed, channel) = subscribe_logs l in
      record {
        debugging = record (with_listeners proc log cmd auto d) { log_rx = some channel };
        system = w;
        logger = emit info (some debugging_name) now (ports_text d.port_start) subscribed;
        result = positive;
      }

  -- What follows a `bind`: the next one, or the end with an error.
  abbrev pub on_bound :
      Text
      → SystemDebugging S
      → Logger
      → (TcpListening S SocketAddr → W → Option (Outcome S W))
      → W × Io (TcpListening S SocketAddr)
      → Option (Outcome S W)
  on_bound text d l rest (v, ok listener) = rest listener v
  on_bound text d l rest (v, err e) = some (failed_to_bind text e d v l)

  -- A listener on the port that many above the first one, or the error.
  abbrev pub next_listener :
      ℕ
      → Text
      → SystemDebugging S
      → Logger
      → (TcpListening S SocketAddr → W → Option (Outcome S W))
      → W
      → Option (Outcome S W)
  next_listener offset text d l rest w =
      add_port d.port_start offset
      >>= (λ port. on_bound text d l rest (bind sockets port d.listen_local w))

  unfoldable pub ensure_started : SystemDebugging S → W → Logger → Option (Outcome S W)
  ensure_started d w l =
      if is_some d.proc_listener
      then some (record { debugging = d; system = w; logger = l; result = positive })
      else next_listener 0 proc_bind_failed d l
          (λ proc. next_listener 2 log_bind_failed d l (λ log.
            next_listener 4 cmd_bind_failed d l (λ cmd.
              next_listener 6 auto_bind_failed d l
                (λ auto v. some (started proc log cmd auto d v l)))))
          w
