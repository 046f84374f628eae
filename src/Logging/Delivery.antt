-- ===== src/Logging/Delivery.antt =====
-- src/logging.rs: which entries a subscriber gets.
use system_core_port_test.Prelude.{
  ℕ, suc, ◌<◌, ◌≡◌, ◌≢◌, refl, sym, true, false, Option, List, [], ◌∷◌, ◌++◌, ◌==◌, arith, contains,
  Distinct, All, All-map, All-append, All-retain, retain-contains, retain-Distinct, contains-append,
  append-Distinct, ==_iff, append_assoc, append-nil,
}
use system_core_port_test.Text.{Text}
use system_core_port_test.Logging.{
  LogSeverity, LogEntry, Logger, logger_new, level_log_set, subscribe_logs, drop_receiver, entry_of,
  emit,
}
use system_core_port_test.Logging.FanOut.{send_all-alive, send_all-queue, emit_lem}

-- What happens to a logger.
pub data LogOp : Type 0 where
  emitted : LogSeverity → Option Text → ℕ → Text → LogOp
  subscribed : LogOp
  level_set : ℕ → LogOp
  dropped : ℕ → LogOp

abbrev pub apply_op : LogOp → Logger → Logger
apply_op (emitted severity process now message) l = emit severity process now message l
apply_op subscribed l = (subscribe_logs l).0
apply_op (level_set n) l = level_log_set n l
apply_op (dropped c) l = drop_receiver c l

abbrev pub run : List LogOp → Logger → Logger
run [] l = l
run (o ∷ os) l = run os (apply_op o l)

abbrev pub entries_of : List LogOp → List LogEntry
entries_of [] = []
entries_of (emitted severity process now message ∷ os) =
    entry_of severity process now message ∷ entries_of os
entries_of (subscribed ∷ os) = entries_of os
entries_of (level_set n ∷ os) = entries_of os
entries_of (dropped c ∷ os) = entries_of os

abbrev pub Spares : ℕ → LogOp → Type 0
Spares c (dropped d) = c ≢ d
Spares c _ = Unit

-- Every subscriber is one channel, and a channel that exists.
pub record Inv (l : Logger) : Type 0 where
  pub distinct : Distinct l.state.subscribers
  pub known : All (λ c. c < l.channels.next) l.state.subscribers

-- The channel is subscribed, its receiver is there, and it holds these entries.
pub record Listens (c : ℕ) (q : List LogEntry) (l : Logger) : Type 0 where
  pub known : c < l.channels.next
  pub listed : contains c l.state.subscribers ≡ true
  pub connected : l.channels.alive c ≡ true
  pub holds : l.channels.queue c ≡ q

fresh_lem : (n : ℕ) (cs : List ℕ) → All (λ c. c < n) cs → contains n cs ≡ false
fresh_lem n [] h = refl
fresh_lem n (c ∷ cs) h = ground (arith, fresh_lem n cs h.1)

emit-Inv :
    (severity : LogSeverity) (process : Option Text) (now : ℕ) (message : Text) (l : Logger)
    → Inv l
    → Inv (emit severity process now message l)
emit-Inv severity process now message l i =
    let entry = entry_of severity process now message in
    let (p, q) = emit_lem severity process now message l in
    let (a, n, k) = send_all-alive entry l.state.subscribers l.channels in
    record {
      distinct = rw (q, k) (retain-Distinct l.channels.alive l.state.subscribers i.distinct);
      known =
          rw (q, k, p, n)
            (All-retain (λ c. c < l.channels.next) l.channels.alive l.state.subscribers i.known);
    }

emit-Listens :
    (severity : LogSeverity) (process : Option Text) (now : ℕ) (message : Text) (l : Logger) (c : ℕ)
    {q : List LogEntry}
    → Inv l
    → Listens c q l
    → Listens c
        (q ++ entry_of severity process now message ∷ [])
        (emit severity process now message l)
emit-Listens severity process now message l c {q} i h =
    let entry = entry_of severity process now message in
    let (e, f) = emit_lem severity process now message l in
    let (a, n, k) = send_all-alive entry l.state.subscribers l.channels in
    let r = send_all-queue entry l.state.subscribers l.channels c i.distinct in
    record {
      known = rw (e, n) h.known;
      listed =
          rw (f, k, retain-contains l.channels.alive c l.state.subscribers, h.listed, h.connected)
            refl;
      connected = rw (e, a) h.connected;
      holds = rw (e, r, h.listed, h.connected, h.holds) refl;
    }

subscribe_logs-Inv : (l : Logger) → Inv l → Inv (subscribe_logs l).0
unfolding subscribe_logs
subscribe_logs-Inv l i = record {
  distinct =
      append-Distinct l.channels.next l.state.subscribers
        (fresh_lem l.channels.next l.state.subscribers i.known) i.distinct;
  known =
      All-append (λ c. c < suc l.channels.next) l.state.subscribers (l.channels.next ∷ [])
        (All-map (λ c h. omega arith) l.state.subscribers i.known) (omega arith);
}

subscribe_logs-Listens :
    (l : Logger) (c : ℕ) (q : List LogEntry) → Listens c q l → Listens c q (subscribe_logs l).0
unfolding subscribe_logs
subscribe_logs-Listens l c q h =
    let k = h.known in
    let other : (c == l.channels.next) ≡ false = ground arith in
    record {
      known = omega arith;
      listed = rw (contains-append c l.state.subscribers (l.channels.next ∷ []), h.listed) refl;
      connected = rw other h.connected;
      holds = rw other h.holds;
    }

-- The new channel listens from now on.
subscribe_logs-new : (l : Logger) → Listens (subscribe_logs l).1 [] (subscribe_logs l).0
unfolding subscribe_logs
subscribe_logs-new l =
    let n = l.channels.next in
    let same : (n == n) ≡ true = (==_iff n n).1 refl in
    record {
      known = omega arith;
      listed = ground (arith, contains-append n l.state.subscribers (n ∷ []));
      connected = rw same refl;
      holds = rw same refl;
    }

level_set-Listens :
    (n : ℕ) (l : Logger) (c : ℕ) (q : List LogEntry)
    → Listens c q l
    → Listens c q (level_log_set n l)
unfolding level_log_set
level_set-Listens n l c q h = record {
  known = h.known;
  listed = h.listed;
  connected = h.connected;
  holds = h.holds;
}

drop_receiver-Listens :
    (l : Logger) (c d : ℕ) (q : List LogEntry)
    → c ≢ d
    → Listens c q l
    → Listens c q (drop_receiver d l)
unfolding drop_receiver
drop_receiver-Listens l c d q ne h = record {
  known = h.known;
  listed = h.listed;
  connected = ground (arith, h.connected);
  holds = h.holds;
}

apply_op-Inv : (o : LogOp) (l : Logger) → Inv l → Inv (apply_op o l)
unfolding level_log_set drop_receiver
apply_op-Inv (emitted severity process now message) l i = emit-Inv severity process now message l i
apply_op-Inv subscribed l i = subscribe_logs-Inv l i
apply_op-Inv (level_set n) l i = record { distinct = i.distinct; known = i.known }
apply_op-Inv (dropped c) l i = record { distinct = i.distinct; known = i.known }

-- Whatever happened to a logger, each subscriber is a channel of its own.
run-Inv : (os : List LogOp) (l : Logger) → Inv l → Inv (run os l)
run-Inv [] l i = i
run-Inv (o ∷ os) l i = run-Inv os (apply_op o l) (apply_op-Inv o l i)

run-Listens :
    (os : List LogOp) (l : Logger) (c : ℕ) (q : List LogEntry)
    → Inv l
    → All (Spares c) os
    → Listens c q l
    → Listens c (q ++ entries_of os) (run os l)
run-Listens [] l c q i s h = rw (append-nil q) h
run-Listens (emitted severity process now message ∷ os) l c q i s h =
    rw (sym (append_assoc q (entry_of severity process now message ∷ []) (entries_of os))) (
      run-Listens os _ c (q ++ entry_of severity process now message ∷ [])
        (emit-Inv severity process now message l i) s.1
        (emit-Listens severity process now message l c i h))
run-Listens (subscribed ∷ os) l c q i s h =
    run-Listens os _ c q (subscribe_logs-Inv l i) s.1 (subscribe_logs-Listens l c q h)
run-Listens (level_set n ∷ os) l c q i s h =
    run-Listens os _ c q (apply_op-Inv (level_set n) l i) s.1 (level_set-Listens n l c q h)
run-Listens (dropped d ∷ os) l c q i s h =
    run-Listens os _ c q (apply_op-Inv (dropped d) l i) s.1 (drop_receiver-Listens l c d q s.0 h)

-- A subscriber that registers at a logger with any past gets exactly the entries that are emitted from
-- then on, each once, in their order and whatever the console level, and stays subscribed, as long as
-- its receiver stands; other receivers may come and go. Nobody takes an entry from a channel meanwhile.
pub subscribe_logs-receives :
    (before after : List LogOp)
    → All (Spares (subscribe_logs (run before logger_new)).1) after
    → let (l, c) = subscribe_logs (run before logger_new) in
      ((run after l).channels.queue c ≡ entries_of after)
      × (contains c (run after l).state.subscribers ≡ true)
subscribe_logs-receives before after s =
    let past = run before logger_new in
    let i : Inv past = run-Inv before logger_new (record { distinct = tt; known = tt }) in
    let h =
      run-Listens after (subscribe_logs past).0 (subscribe_logs past).1 []
        (subscribe_logs-Inv past i) s (subscribe_logs-new past) in
    (h.holds, h.listed)
