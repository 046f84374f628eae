-- ===== src/Debugging/Settling.antt =====
-- src/system_debugging.rs: what `ensure_started` comes to.
use system_core_port_test.Prelude.{
  ℕ, suc, ◌+◌, true, false, List, [], ◌∷◌, ◌==◌, if◌then◌else◌, Option, some, ◌++◌, ◌<◌, ◌≡◌, ◌⊎◌,
  inl, inr, refl, lt→ltb, arith,
}
use system_core_port_test.Text.{Text, decimal}
use system_core_port_test.Logging.{error, info, Logger, emit, subscribe_logs}
use system_core_port_test.Net.{Io, ok, err}
use system_core_port_test.Net.Listening.{TcpListening, max_conn_queued_set}
use system_core_port_test.Net.Binding.{SocketAddr, Sockets, bind}
use system_core_port_test.Processing.{positive, negative}
use system_core_port_test.Debugging.{SystemDebugging}
use system_core_port_test.Debugging.Starting.{
  listeners_ready, debugging_name, proc_bind_failed, log_bind_failed, cmd_bind_failed,
  auto_bind_failed, minus_one, Outcome, is_some, failed_to_bind, started, on_bound, next_listener,
  ensure_started,
}

-- The four listeners, in the order in which they are tried: how far above the first port, and what is
-- said of an error.
abbrev pub listeners : List (ℕ × Text)
listeners =
    (0, proc_bind_failed) ∷ (2, log_bind_failed) ∷ (4, cmd_bind_failed) ∷ (6, auto_bind_failed) ∷ []

-- The line that names the ports.
abbrev pub ready_line : ℕ → Text
ready_line port =
    listeners_ready
    ++ (decimal port
        ++ (44 ∷ 32 ∷ decimal (port + 2)
            ++ (44 ∷ 32 ∷ decimal (port + 4) ++ (44 ∷ 32 ∷ decimal (port + 6)))))

-- A new channel, empty, whose sender is the last subscriber.
abbrev pub with_subscriber : Logger → Logger
with_subscriber l = record l {
  state = record l.state { subscribers = l.state.subscribers ++ l.channels.next ∷ [] };
  channels = record {
    next = suc l.channels.next;
    queue = λ c. if c == l.channels.next then [] else l.channels.queue c;
    alive = λ c. if c == l.channels.next then true else l.channels.alive c;
  };
}

module _ {S W K : Type 0} (sockets : Sockets W K) (show_error : ℕ → Text) (now : ℕ) where
  -- The system gives these listeners one after the other, from the first of its states to the last.
  pub data Given (d : SystemDebugging S)
      : List (ℕ × Text) → W → List (TcpListening S SocketAddr) → W → Type 0 where
    none_tried : (w : W) → Given d [] w [] w
    one_given :
        (offset : ℕ) (text : Text) (t : TcpListening S SocketAddr) (w v u : W)
        {rest : List (ℕ × Text)} {ts : List (TcpListening S SocketAddr)}
        → bind sockets {S = S} (d.port_start + offset) d.listen_local w ≡ (v, ok t)
        → Given d rest v ts u
        → Given d ((offset, text) ∷ rest) w (t ∷ ts) u

  Given-last :
      (d : SystemDebugging S) (tried : List (ℕ × Text)) (ts : List (TcpListening S SocketAddr))
      (offset : ℕ) (text : Text) (t : TcpListening S SocketAddr) (w v u : W)
      → Given d tried w ts v
      → bind sockets {S = S} (d.port_start + offset) d.listen_local v ≡ (u, ok t)
      → Given d (tried ++ (offset, text) ∷ []) w (ts ++ t ∷ []) u
  Given-last d tried ts offset text t w v u (none_tried x) e =
      one_given offset text t x u u e (none_tried u)
  Given-last d tried ts offset text t w v u (one_given o y s x z k f g) e =
      one_given o y s x z u f (Given-last d _ _ offset text t z k u g e)

  -- All listeners stand, with their limits, the log is subscribed, and one line says so.
  abbrev pub Succeeds : SystemDebugging S → W → Logger → Outcome S W → Type 0
  Succeeds d w l r =
      (proc : TcpListening S SocketAddr) × (log : TcpListening S SocketAddr) × (cmd : TcpListening S
        SocketAddr)
      × (auto : TcpListening S SocketAddr) × Given d listeners w (proc ∷ log ∷ cmd ∷ auto ∷ [])
          r.system
      × (r.debugging ≡ record d {
        proc_listener = some (record proc { max_conn_queued = 200 });
        log_listener = some log;
        cmd_listener = some (record cmd { max_conn_queued = 4 });
        cmd_auto_listener = some (record auto { max_conn_queued = 4 });
        log_rx = some l.channels.next;
      })
      × (r.logger
          ≡ emit info (some debugging_name) now (ready_line d.port_start) (with_subscriber l))
      × (r.result ≡ positive)

  -- One listener was refused, after those before it were given; its error is logged.
  abbrev pub Fails : SystemDebugging S → W → Logger → Outcome S W → Type 0
  Fails d w l r =
      (tried : List (ℕ × Text)) × (untried : List (ℕ × Text)) × (offset : ℕ) × (text : Text)
      × (ts : List (TcpListening S SocketAddr)) × (v : W) × (e : ℕ) × (listeners
          ≡ tried ++ (offset, text) ∷ untried)
      × Given d tried w ts v
      × (bind sockets {S = S} (d.port_start + offset) d.listen_local v ≡ (r.system, err e))
      × (r.logger ≡ emit error (some debugging_name) now (text ++ show_error e) l)
      × (r.debugging ≡ d)
      × (r.result ≡ negative minus_one)

  abbrev Ends : SystemDebugging S → W → Logger → Option (Outcome S W) → Type 0
  Ends d w l o = (r : Outcome S W) × (o ≡ some r) × (Succeeds d w l r ⊎ Fails d w l r)

  next_listener-Ends :
      (tried untried : List (ℕ × Text)) (offset : ℕ) (text : Text)
      (ts : List (TcpListening S SocketAddr)) (d : SystemDebugging S) (w : W) (l : Logger)
      (rest : TcpListening S SocketAddr → W → Option (Outcome S W)) (v : W)
      → listeners ≡ tried ++ (offset, text) ∷ untried
      → d.port_start + offset < 65_536
      → Given d tried w ts v
      → ((t : TcpListening S SocketAddr) (u : W)
          → Given d (tried ++ (offset, text) ∷ []) w (ts ++ t ∷ []) u
          → Ends d w l (rest t u))
      → Ends d w l (next_listener sockets show_error now offset text d l rest v)
  next_listener-Ends tried untried offset text ts d w l rest v p b g h =
      rw (lt→ltb (d.port_start + offset) 65_536 b)
        (answers (bind sockets (d.port_start + offset) d.listen_local v) refl)
    where
      answers :
          (r : W × Io (TcpListening S SocketAddr))
          → bind sockets {S = S} (d.port_start + offset) d.listen_local v ≡ r
          → Ends d w l (on_bound sockets show_error now text d l rest r)
      answers (u, ok t) q = h t u (Given-last d tried ts offset text t w v u g q)
      answers (u, err e) q = (
        failed_to_bind sockets show_error now text e d u l,
        refl,
        inr (tried, untried, offset, text, ts, v, e, p, g, q, refl, refl, refl),
      )

  -- Where the process has not started yet and its four ports are numbers of ports, `ensure_started`
  -- returns. Either the system gave a listener for each of the four ports, one after the other; then they
  -- stand, with their limits, the log is subscribed by a new, empty channel, the line that names the ports
  -- is logged behind that, nothing else of the process changed and the result is positive. Or it refused
  -- the listener for one of the four, after it had given those before it; then the entry for this
  -- listener and this error was logged and nothing was subscribed, no further port was tried, the process
  -- is as before, so that the next call tries all ports again, and the result is the error -1.
  pub ensure_started-settles :
      (d : SystemDebugging S) (w : W) (l : Logger)
      → is_some d.proc_listener ≡ false
      → d.port_start + 6 < 65_536
      → (r : Outcome S W) × (ensure_started sockets show_error now d w l ≡ some r)
        × (Succeeds d w l r ⊎ Fails d w l r)
  unfolding ensure_started subscribe_logs max_conn_queued_set
  ensure_started-settles d w l n b = rw n (
      next_listener-Ends [] _ 0 proc_bind_failed [] d w l _ w refl (omega arith) (none_tried w)
        (λ proc v p.
          next_listener-Ends _ _ 2 log_bind_failed (proc ∷ []) d w l _ v refl (omega arith) p
            (λ log v q.
              next_listener-Ends _ _ 4 cmd_bind_failed (proc ∷ log ∷ []) d w l _ v refl
                (omega arith) q
                (λ cmd v r.
                  next_listener-Ends _ _ 6 auto_bind_failed (proc ∷ log ∷ cmd ∷ []) d w l _ v refl
                    (omega arith) r
                    (λ auto v s. (
                      started sockets show_error now proc log cmd auto d v l,
                      refl,
                      inl (proc, log, cmd, auto, s, refl, refl, refl),
                    ))))))
