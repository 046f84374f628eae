-- ===== src/Net.antt =====
-- src/net.rs: `TcpTransfering`. The socket is the operating system's, so it is a parameter: `Socket`
-- has the calls that the code makes on a non-blocking stream in state `S`. The counters are `usize`
-- and do not wrap: a transfer of 2 ^ 64 bytes is out of reach.
pub mod Flush
pub mod Refusing
pub mod Reading
pub mod Apart
pub mod Listening
pub mod Queue
pub mod Binding
mod Tests
use system_core_port_test.Prelude.{
  ℕ, zero, suc, ◌+◌, Bool, true, false, not, ◌||◌, Option, none, some, List, [], ◌∷◌, ◌++◌, leb,
  if◌then◌else◌, is_empty, length, drop, ◌>>=◌,
}

abbrev pub Bytes : Type 0
Bytes = List ℕ

-- `io::Result`; an error is its code.
pub data Io (A : Type 0) : Type 0 where
  ok : A → Io A
  err : ℕ → Io A

-- What a call on a non-blocking stream answers.
pub data Answer (A : Type 0) : Type 0 where
  answered : A → Answer A
  would_block : Answer A
  failed : ℕ → Answer A

-- `read` takes the size of the buffer and answers with the bytes that it put there.
pub record Socket (S : Type 0) : Type 0 where
  pub write : Bytes → S → S × Answer ℕ
  pub read : ℕ → S → S × Answer Bytes
  pub shutdown : S → S

pub record TcpTransfering (S Addr : Type 0) : Type 0 where
  pub stream : S
  pub pending_write : Bytes
  pub read_ready : Bool
  pub send_ready : Bool
  pub done : Bool
  pub local_addr : Option Addr
  pub remote_addr : Option Addr
  pub bytes_received : ℕ
  pub bytes_sent : ℕ

pub data ReadStatus : Type 0 where
  data_read : Bytes → ReadStatus
  read_blocked read_closed : ReadStatus

-- The stream is already non-blocking, and its addresses are known or not.
abbrev pub from_stream : {S Addr : Type 0} → S → Option Addr → Option Addr → TcpTransfering S Addr
from_stream stream local remote = record {
  stream = stream;
  pending_write = [];
  read_ready = true;
  send_ready = true;
  done = false;
  local_addr = local;
  remote_addr = remote;
  bytes_received = 0;
  bytes_sent = 0;
}

-- `drain(..n)` panics past the end.
abbrev pub drain : ℕ → Bytes → Option Bytes
drain n bs = if leb n (length bs) then some (drop n bs) else none

abbrev pub sent_more :
    {S Addr : Type 0} → S → ℕ → Bytes → TcpTransfering S Addr → TcpTransfering S Addr
sent_more s n rest t = record t { stream = s; bytes_sent = t.bytes_sent + n; pending_write = rest }

-- `let _ = ...?; Ok(())`
abbrev pub forget : Io Bool → Io (Unit {0})
forget (ok b) = ok tt
forget (err e) = err e

module _ {S Addr : Type 0} (socket : Socket S) where
  abbrev after_read :
      TcpTransfering S Addr → S × Answer Bytes → TcpTransfering S Addr × Io ReadStatus
  after_read t (s, answered []) = (record t { stream = s; done = true }, ok read_closed)
  after_read t (s, answered (b ∷ bs)) = (
    record t { stream = s; bytes_received = t.bytes_received + length (b ∷ bs) },
    ok (data_read (b ∷ bs)),
  )
  after_read t (s, would_block) = (record t { stream = s }, ok read_blocked)
  after_read t (s, failed e) = (record t { stream = s; done = true }, err e)

  unfoldable pub read : ℕ → TcpTransfering S Addr → TcpTransfering S Addr × Io ReadStatus
  read size t =
      if not t.read_ready
      then (t, ok read_blocked)
      else if t.done
      then (t, ok read_closed)
      else after_read t (socket.read size t.stream)

  -- The loop of `read_available`. `none`: the fuel ran out. An error loses what was read before it.
  unfoldable pub read_loop :
      ℕ → Bytes → TcpTransfering S Addr → Option (TcpTransfering S Addr × Io Bytes)
  read_loop zero out t = none
  read_loop (suc fuel) out t =
      let u = (read 512 t).0 in
      elim ((read 512 t).1) [
        | ok status ↦ elim status [
          | data_read bs ↦ read_loop fuel (out ++ bs) u
          | read_blocked ↦ some (u, ok out)
          | read_closed ↦ some (u, ok out)
        ]
        | err e ↦ some (u, err e)
      ]

  unfoldable pub read_available :
      ℕ → TcpTransfering S Addr → Option (TcpTransfering S Addr × Io Bytes)
  read_available fuel t = read_loop fuel [] t

  -- The loop of `flush_pending`. `none`: the fuel ran out, or `drain` panicked.
  unfoldable pub flush_loop : ℕ → TcpTransfering S Addr → Option (TcpTransfering S Addr × Io Bool)
  flush_loop zero t = none
  flush_loop (suc fuel) t =
      let s = (socket.write t.pending_write t.stream).0 in
      elim (is_empty t.pending_write) [
        | true ↦ some (t, ok true)
        | false ↦ elim ((socket.write t.pending_write t.stream).1) [
          | answered zero ↦ some (record t { stream = s; done = true }, ok false)
          | answered (suc n) ↦
              drain (suc n) t.pending_write
              >>= (λ rest. flush_loop fuel (sent_more s (suc n) rest t))
          | would_block ↦ some (record t { stream = s }, ok true)
          | failed e ↦ some (record t { stream = s; done = true }, err e)
        ]
      ]

  unfoldable pub flush_pending :
      ℕ → TcpTransfering S Addr → Option (TcpTransfering S Addr × Io Bool)
  flush_pending fuel t =
      if not t.send_ready || t.done then some (t, ok false) else flush_loop fuel t

  unfoldable pub queue_send :
      ℕ → Bytes → TcpTransfering S Addr → Option (TcpTransfering S Addr × Io (Unit {0}))
  queue_send fuel bytes t =
      flush_pending fuel (record t { pending_write = t.pending_write ++ bytes })
      >>= (λ r. some (r.0, forget r.1))

  unfoldable pub done_set : TcpTransfering S Addr → TcpTransfering S Addr
  done_set t = record t { done = true; stream = socket.shutdown t.stream }
