-- ===== src/Net/Listening.antt =====
-- src/net.rs: `TcpListening`. The listening sockets are the operating system's: `Listeners` has the
-- calls that the code makes on them. A listener is a number, and `W` is the state of all of them.
use system_core_port_test.Prelude.{
  ℕ, zero, suc, true, false, ◌+◌, Option, none, some, List, [], ◌∷◌, ◌++◌, leb, max, length, ◌>>=◌,
}
use system_core_port_test.Net.{
  Io, ok, err, Answer, answered, would_block, failed, TcpTransfering, from_stream,
}

-- `adopt` is what `from_stream` asks of a stream: to be non-blocking, and its two addresses.
pub record Listeners (W S Addr : Type 0) : Type 0 where
  pub accept : ℕ → W → W × Answer S
  pub adopt : S → Io (S × Option Addr × Option Addr)

pub record TcpListening (S Addr : Type 0) : Type 0 where
  pub listeners : List ℕ
  pub max_conn_queued : ℕ
  pub peers : List (TcpTransfering S Addr)
  pub bind_addrs : List Addr
  pub connections_created : ℕ

-- Why the inner loop ends: the queue is full, nobody waits at the listener, or an error.
pub data AcceptEnd : Type 0 where
  queue_full drained : AcceptEnd
  broken : ℕ → AcceptEnd

module _ {S Addr : Type 0} where
  abbrev pub listening_new : List ℕ → List Addr → TcpListening S Addr
  listening_new listeners addrs = record {
    listeners = listeners;
    max_conn_queued = 200;
    peers = [];
    bind_addrs = addrs;
    connections_created = 0;
  }

  unfoldable pub max_conn_queued_set : ℕ → TcpListening S Addr → TcpListening S Addr
  max_conn_queued_set n t = record t { max_conn_queued = max n 1 }

  abbrev pub enqueue : TcpTransfering S Addr → TcpListening S Addr → TcpListening S Addr
  enqueue peer t = record t {
    peers = t.peers ++ peer ∷ [];
    connections_created = t.connections_created + 1;
  }

  abbrev pop_peer :
      TcpListening S Addr
      → List (TcpTransfering S Addr)
      → TcpListening S Addr × Option (TcpTransfering S Addr)
  pop_peer t [] = (t, none)
  pop_peer t (p ∷ ps) = (record t { peers = ps }, some p)

  unfoldable pub next_peer :
      TcpListening S Addr → TcpListening S Addr × Option (TcpTransfering S Addr)
  next_peer t = pop_peer t t.peers

module _ {W S Addr : Type 0} (system : Listeners W S Addr) where
  -- The inner loop. `none`: the fuel ran out.
  unfoldable pub accept_loop :
      ℕ → ℕ → W → TcpListening S Addr → ℕ → Option (W × TcpListening S Addr × ℕ × AcceptEnd)
  accept_loop zero listener w t accepted = none
  accept_loop (suc fuel) listener w t accepted =
      let v = (system.accept listener w).0 in
      elim (leb t.max_conn_queued (length t.peers)) [
        | true ↦ some (w, t, accepted, queue_full)
        | false ↦ elim ((system.accept listener w).1) [
          | answered stream ↦ elim (system.adopt stream) [
            | ok r ↦
                accept_loop fuel listener v (enqueue (from_stream r.0 r.1 r.2) t) (accepted + 1)
            | err e ↦ some (v, t, accepted, broken e)
          ]
          | would_block ↦ some (v, t, accepted, drained)
          | failed e ↦ some (v, t, accepted, broken e)
        ]
      ]

  -- The outer loop, over the listeners.
  unfoldable pub accept_all :
      ℕ → List ℕ → W → TcpListening S Addr → ℕ → Option (W × TcpListening S Addr × Io ℕ)
  accept_all fuel [] w t accepted = some (w, t, ok accepted)
  accept_all fuel (l ∷ ls) w t accepted = accept_loop fuel l w t accepted >>= (λ r. elim (r.3) [
    | queue_full ↦ some (r.0, r.1, ok r.2)
    | drained ↦ accept_all fuel ls r.0 r.1 r.2
    | broken e ↦ some (r.0, r.1, err e)
  ])

  unfoldable pub accept_ready :
      ℕ → W → TcpListening S Addr → Option (W × TcpListening S Addr × Io ℕ)
  accept_ready fuel w t = accept_all fuel t.listeners w t 0
