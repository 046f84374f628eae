-- ===== src/Logging/Tests.antt =====
-- A logger with two subscribers, the first of which goes away.
use system_core_port_test.Prelude.{
  ◌≡◌, true, none, some, List, [], ◌∷◌, ◌++◌, arith, length, contains,
}
use system_core_port_test.Text.{Text}
use system_core_port_test.Logging.{
  error, warn, info, debug, logger_new, level_log_set, subscribe_logs, entry_of, log_line, emit,
  send_all, send, print_line,
}
use system_core_port_test.Logging.Delivery.{
  LogOp, emitted, subscribed, level_set, dropped, run, subscribe_logs-receives,
}
use system_core_port_test.Logging.Columns.{level_log_set-emit, log_line-columns}

abbrev past : List LogOp
past = subscribed ∷ emitted warn none 0 (97 ∷ []) ∷ []

abbrev future : List LogOp
future =
    emitted info none 2_000_000 (98 ∷ [])
    ∷ dropped 0
    ∷ level_set 0
    ∷ subscribed
    ∷ emitted debug (some (112 ∷ [])) 3_000_000 (99 ∷ [])
    ∷ []

subscribe_logs-receives_example :
    let (l, c) = subscribe_logs (run past logger_new) in
    ((run future l).channels.queue c
      ≡ entry_of info none 2_000_000 (98 ∷ [])
        ∷ entry_of debug (some (112 ∷ [])) 3_000_000 (99 ∷ [])
        ∷ [])
    × (contains c (run future l).state.subscribers ≡ true)
unfolding subscribe_logs emit send_all send print_line
subscribe_logs-receives_example =
    subscribe_logs-receives past future (tt, (omega arith, (tt, (tt, (tt, tt)))))

level_log_set-emit_example :
    let v = emit error none 0 (97 ∷ []) (level_log_set 0 logger_new) in
    (v.stderr ≡ log_line (entry_of error none 0 (97 ∷ [])) ∷ []) × (v.stdout ≡ [])
level_log_set-emit_example = level_log_set-emit 0 error none 0 (97 ∷ []) logger_new

log_line-columns_example :
    (front : Text) × (log_line (entry_of warn none 5_000_000 (97 ∷ [])) ≡ front ++ 97 ∷ [])
    × (length front ≡ 40)
log_line-columns_example =
    log_line-columns (entry_of warn none 5_000_000 (97 ∷ [])) (omega arith) (omega arith)
