-- ===== src/Debugging/Serving.antt =====
-- src/system_debugging.rs: `peer_check` and `command_peers_pump`. `none`: a panic, or the fuel for the
-- reading ran out. The handlers of the commands are the argument `call`, as in a session.
use system_core_port_test.Prelude.{
  ℕ, Bool, true, false, not, ◌&&◌, Option, some, List, [], ◌∷◌, if◌then◌else◌, ◌>>=◌, is_empty,
}
use system_core_port_test.Text.{Text, Bytes}
use system_core_port_test.Net.{Io, ok, err, Socket, read_available, done_set}
use system_core_port_test.Commanding.Registry.{CommandRegistry}
use system_core_port_test.Commanding.Session.{SystemCommanding, SessionOutput}
use system_core_port_test.Commanding.Ingest.{ingest, disconnect_bytes}
use system_core_port_test.Debugging.{
  Connection, Peer, CommandPeer, SystemDebugging, is_open, has_pending_write, disconnect_requested,
  retain_mut, send_bytes, flush,
}

abbrev pub is_err : {A : Type 0} → Io A → Bool
is_err (ok a) = false
is_err (err e) = true

abbrev pub asks_to_leave : Io Bytes → Bool
asks_to_leave (ok bytes) = disconnect_requested bytes
asks_to_leave (err e) = true

module _ {S : Type 0} (socket : Socket S) where
  -- A peer whose connection ends here.
  abbrev pub drop_peer : CommandPeer S → Connection S → CommandPeer S × Bool
  drop_peer p c = (record p { connection = done_set socket c }, false)

  -- The loop over the chunks of an answer: did it reach their end?
  unfoldable pub send_answer : List Bytes → Connection S → Option (Connection S × Bool)
  send_answer [] c = some (c, true)
  send_answer (chunk ∷ chunks) c =
      send_bytes socket chunk c
      >>= (λ r. let rest = send_answer chunks r.0 in if is_err r.1 then some (r.0, false) else rest)

  unfoldable pub send_goodbye : SystemCommanding → Connection S → Option (Connection S)
  send_goodbye session c =
      let bytes = disconnect_bytes session in
      if is_empty bytes then some c else (send_bytes socket bytes c >>= (λ r. some r.0))

  -- What is left of a round, once the answer is queued.
  unfoldable pub finish_round : CommandPeer S → Option (CommandPeer S × Bool)
  finish_round p = flush socket p.connection >>= (λ r. some (
      if is_err r.1
      then drop_peer p r.0
      else if p.closing && not (has_pending_write r.0)
      then drop_peer p r.0
      else (record p { connection = r.0 }, is_open r.0)))

  -- A peer that only waits until everything is sent.
  unfoldable pub close_round : CommandPeer S → Option (CommandPeer S × Bool)
  close_round p = flush socket p.connection >>= (λ r.
      let c = if is_err r.1 then done_set socket r.0 else r.0 in
      some
        (if has_pending_write c then (record p { connection = c }, is_open c) else drop_peer p c))

module _ {S : Type 0} (socket : Socket S) (reads : ℕ) where
  unfoldable pub check_peer : Peer S → Option (Peer S × Bool)
  check_peer p = read_available socket reads p.connection >>= (λ r.
      let c = if asks_to_leave r.1 then done_set socket r.0 else r.0 in
      some (record p { connection = c }, is_open c))

  unfoldable pub peer_check : SystemDebugging S → Option (SystemDebugging S)
  peer_check d = retain_mut check_peer d.peers >>= (λ ps. some (record d { peers = ps }))

  module _ {H : Type 0} (call : H → Text → CommandRegistry H → Text)
      (registry : CommandRegistry H) where
    -- The answer of a session: its chunks, and the end of the connection if it asks for that.
    unfoldable pub answer_round :
        CommandPeer S
        → Connection S
        → SystemCommanding
        → SessionOutput
        → Option (CommandPeer S × Bool)
    answer_round p c session out =
        let q = record p { session = session } in
        send_answer socket out.chunks c >>= (λ r.
          if not r.1
          then some (drop_peer socket q r.0)
          else if out.disconnect
          then (send_goodbye socket session r.0
              >>= (λ u. finish_round socket (record q { connection = u; closing = true })))
          else finish_round socket (record q { connection = r.0 }))

    unfoldable pub serve_round :
        CommandPeer S → Connection S → Io Bytes → Option (CommandPeer S × Bool)
    serve_round p c (err e) = some (drop_peer socket p c)
    serve_round p c (ok bytes) =
        if is_empty bytes
        then finish_round socket (record p { connection = c })
        else (ingest call registry bytes p.session >>= (λ run. answer_round p c run.0 run.1))

    unfoldable pub pump_peer : CommandPeer S → Option (CommandPeer S × Bool)
    pump_peer p =
        if p.closing
        then close_round socket p
        else (read_available socket reads p.connection >>= (λ r. serve_round p r.0 r.1))

    unfoldable pub command_peers_pump : SystemDebugging S → Option (SystemDebugging S)
    command_peers_pump d =
        retain_mut pump_peer d.command_peers >>= (λ ps. some (record d { command_peers = ps }))
