-- ===== src/Debugging/Owed.antt =====
-- src/system_debugging.rs: what a round owes to a command peer.
use system_core_port_test.Prelude.{
  ℕ, ◌≡◌, ◌⊎◌, Bool, true, false, Option, some, [], ◌++◌, if◌then◌else◌, is_empty,
}
use system_core_port_test.Text.{Text, Bytes}
use system_core_port_test.Net.{ok, err, Socket, read_available}
use system_core_port_test.Net.Reading.{Ordered}
use system_core_port_test.Commanding.Registry.{CommandRegistry}
use system_core_port_test.Commanding.Session.{SystemCommanding, output_new}
use system_core_port_test.Commanding.Ingest.{Run, ingest, disconnect_bytes}
use system_core_port_test.Commanding.Safe.{Wf}
use system_core_port_test.Debugging.{Connection, CommandPeer, is_open, has_pending_write}
use system_core_port_test.Debugging.Sending.{Stream, handed, Gone}
use system_core_port_test.Debugging.Answering.{joined}

-- A stream with both directions, which know nothing of one another.
pub record Duplex {S : Type 0} (socket : Socket S) (taken input : S → Bytes) : Type 0 where
  pub stream : Stream socket taken
  pub ordered : Ordered socket input
  pub apart : (n : ℕ) (s : S) → taken (socket.read n s).0 ≡ taken s

-- The peer only waits for its end, or its session is well formed.
abbrev pub Fit : {S : Type 0} → CommandPeer S → Type 0
Fit p = (p.closing ≡ true) ⊎ Wf p.session

-- A session's answer to bytes; without bytes there is none.
abbrev pub reply :
    {H : Type 0}
    → (H → Text → CommandRegistry H → Text)
    → CommandRegistry H
    → Bytes
    → SystemCommanding
    → Option Run
reply call registry bytes s =
    if is_empty bytes then some (s, output_new) else ingest call registry bytes s

-- All that a session says in a round: its answer, and what it says before it disconnects.
abbrev pub said : Run → Bytes
said (s, out) = joined out.chunks ++ (if out.disconnect then disconnect_bytes s else [])

module _ {S : Type 0} (socket : Socket S) (taken input : S → Bytes)
    (duplex : Duplex socket taken input) {H : Type 0} (call : H → Text → CommandRegistry H → Text)
    (registry : CommandRegistry H) (reads : ℕ) where
  -- These bytes are read from the peer, the next that it sends.
  abbrev pub Reads : CommandPeer S → Connection S → Bytes → Type 0
  Reads p c bytes =
      (read_available socket reads p.connection ≡ some (c, ok bytes))
      × (input p.connection.stream ≡ bytes ++ input c.stream)

  -- What a peer that had its whole round owes to the peer before it.
  pub data Answered (p q : CommandPeer S) : Type 0 where
    waits :
        p.closing ≡ true
        → q.closing ≡ true
        → handed socket taken duplex.stream q.connection
          ≡ handed socket taken duplex.stream p.connection
        → Answered p q
    answers :
        (c : Connection S) (bytes : Bytes) (run : Run)
        → p.closing ≡ false
        → Reads p c bytes
        → reply call registry bytes p.session ≡ some run
        → q.session ≡ run.0
        → q.closing ≡ run.1.disconnect
        → handed socket taken duplex.stream q.connection
          ≡ handed socket taken duplex.stream p.connection ++ said run
        → Answered p q

  -- Why a peer goes: its connection was done before; or all is sent that it waited for; or reading failed, or
  -- it found the end of the stream, which still is answered; or the stream refused what was written.
  pub data Ended (p q : CommandPeer S) : Type 0 where
    was_done : p.closing ≡ true → p.connection.done ≡ true → Ended p q
    finished : q.closing ≡ true → has_pending_write q.connection ≡ false → Answered p q → Ended p q
    unread :
        (c : Connection S) (e : ℕ)
        → p.closing ≡ false
        → read_available socket reads p.connection ≡ some (c, err e)
        → Ended p q
    at_end :
        (c : Connection S) (bytes : Bytes)
        → p.closing ≡ false
        → Reads p c bytes
        → c.done ≡ true
        → Answered p q
        → Ended p q
    refused : Gone socket taken duplex.stream q.connection → Ended p q

  -- The outcome of a round: the peer stays exactly if its connection is open.
  pub record Round (p : CommandPeer S) (r : CommandPeer S × Bool) : Type 0 where
    pub open_lem : r.1 ≡ is_open r.0.connection
    pub waiting : r.1 ≡ true → r.0.closing ≡ true → has_pending_write r.0.connection ≡ true
    pub fit : r.1 ≡ true → Fit r.0
    pub answered : r.1 ≡ true → Answered p r.0
    pub ended : r.1 ≡ false → Ended p r.0
