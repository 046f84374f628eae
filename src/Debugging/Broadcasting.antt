-- ===== src/Debugging/Broadcasting.antt =====
-- src/system_debugging.rs: `send_process_tree` and `send_log_entries`. `none`: a write panicked.
use system_core_port_test.Prelude.{
  ℕ, ◌-◌, Bool, true, false, not, ◌&&◌, Option, none, some, List, [], ◌∷◌, ◌++◌, ltb, if◌then◌else◌,
  ◌>>=◌,
}
use system_core_port_test.Text.{Text, Bytes, encode}
use system_core_port_test.Logging.{LogEntry, number, log_line, Logger, set_queue}
use system_core_port_test.Net.{Socket, done_set}
use system_core_port_test.Commanding.Registry.{eq_text}
use system_core_port_test.Processing.{ProcessRenderOptions}
use system_core_port_test.Debugging.{
  PeerType, process_tree, log, Peer, SystemDebugging, is_open, retain_mut, send_bytes, flush,
}
use system_core_port_test.Debugging.Serving.{is_err}

-- `TREE_DETAILED` and `TREE_COLORED`, which nothing sets.
abbrev pub tree_options : ProcessRenderOptions
tree_options = record { detailed = true; colored = true }

abbrev pub same_kind : PeerType → PeerType → Bool
same_kind process_tree process_tree = true
same_kind process_tree log = false
same_kind log process_tree = false
same_kind log log = true

-- "\x1b[2J\x1b[H"
abbrev pub clear_screen : Text
clear_screen = 0x1b ∷ 91 ∷ 50 ∷ 74 ∷ 0x1b ∷ 91 ∷ 72 ∷ []

-- The line of an entry.
abbrev pub entry_bytes : LogEntry → Bytes
entry_bytes e = encode (log_line e ++ 13 ∷ 10 ∷ [])

abbrev pub drained : ℕ → Logger → Logger
drained c l = record l { channels = set_queue c [] l.channels }

module _ {S : Type 0} (socket : Socket S) where
  -- The test of both `retain_mut`: a peer of the other kind is left alone.
  unfoldable pub send_to_peer : PeerType → Bytes → Peer S → Option (Peer S × Bool)
  send_to_peer kind payload p =
      if not (same_kind p.kind kind)
      then some (p, is_open p.connection)
      else (send_bytes socket payload p.connection >>= (λ r.
          if is_err r.1
          then some (record p { connection = done_set socket r.0 }, false)
          else (flush socket r.0 >>= (λ u.
              let c = if is_err u.1 then done_set socket u.0 else u.0 in
              some (record p { connection = c }, is_open c)))))

  unfoldable pub send_to_all : PeerType → Bytes → SystemDebugging S → Option (SystemDebugging S)
  send_to_all kind payload d =
      retain_mut (send_to_peer kind payload) d.peers >>= (λ ps. some (record d { peers = ps }))

  -- `draw` is the `process_tree_string` of the root.
  unfoldable pub send_process_tree :
      (ProcessRenderOptions → Option Text) → ℕ → SystemDebugging S → Option (SystemDebugging S)
  send_process_tree draw now d =
      if not d.tree_dirty && ltb (now - d.last_tree_send) d.update_period
      then some d
      else (draw tree_options >>= (λ tree.
          if eq_text tree d.tree_cache && not d.tree_dirty
          then some d
          else send_to_all process_tree (encode (clear_screen ++ tree))
              (record d { tree_cache = tree; tree_dirty = false; last_tree_send = now })))

  -- An entry is left out if its severity is above the level of the sockets.
  unfoldable pub send_entries : ℕ → List LogEntry → SystemDebugging S → Option (SystemDebugging S)
  send_entries level [] d = some d
  send_entries level (e ∷ es) d =
      (if ltb level (number e.severity) then some d else send_to_all log (entry_bytes e) d)
      >>= (λ u. send_entries level es u)

  -- `while let Ok(entry) = rx.try_recv()`: nothing is emitted meanwhile.
  abbrev pub drain_log :
      ℕ → SystemDebugging S → Logger → Option ℕ → Option (SystemDebugging S × Logger)
  drain_log level d l none = some (d, l)
  drain_log level d l (some c) =
      send_entries level (l.channels.queue c) d >>= (λ u. some (u, drained c l))

  unfoldable pub send_log_entries :
      ℕ → SystemDebugging S → Logger → Option (SystemDebugging S × Logger)
  send_log_entries level d l = drain_log level d l d.log_rx
