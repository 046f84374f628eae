-- ===== src/Logging/FanOut.antt =====
-- src/logging.rs: what `emit` does to the channels.
use system_core_port_test.Prelude.{
  ℕ, ◌≡◌, refl, ap, inl, inr, ◌&&◌, Option, List, [], ◌∷◌, ◌++◌, ◌==◌, if◌then◌else◌, arith,
  contains, Distinct, retain, Bool-cases, ==_iff,
}
use system_core_port_test.Text.{Text}
use system_core_port_test.Logging.{
  LogSeverity, LogEntry, Channels, Logger, send, send_all, print_line, entry_of, emit,
}

-- `send` touches no channel but its own.
pub send_all-alive :
    (entry : LogEntry) (cs : List ℕ) (ch : Channels)
    → ((send_all entry cs ch).0.alive ≡ ch.alive)
      × ((send_all entry cs ch).0.next ≡ ch.next)
      × ((send_all entry cs ch).1 ≡ retain ch.alive cs)
unfolding send_all send
send_all-alive entry [] ch = (refl, refl, refl)
send_all-alive entry (c ∷ cs) ch = ground (arith, send_all-alive entry cs (send entry c ch).0)

pub send_all-queue :
    (entry : LogEntry) (cs : List ℕ) (ch : Channels) (d : ℕ)
    → Distinct cs
    → (send_all entry cs ch).0.queue d
      ≡ (if contains d cs && ch.alive d then ch.queue d ++ entry ∷ [] else ch.queue d)
unfolding send_all send
send_all-queue entry [] ch d h = refl
send_all-queue entry (c ∷ cs) ch d h =
    let ih = send_all-queue entry cs (send entry c ch).0 d h.1 in
    elim (Bool-cases (c == d)) [
      | inl e ↦
          let q : c ≡ d = (==_iff c d).0 e in
          ground (arith, ih, h.0, ap (λ x. contains x cs) q, ap ch.alive q, ap ch.queue q)
      | inr e ↦ ground (arith, ih)
    ]

-- What `emit` leaves, whether it prints or not.
pub emit_lem :
    (severity : LogSeverity) (process : Option Text) (now : ℕ) (message : Text) (l : Logger)
    → let sent = send_all (entry_of severity process now message) l.state.subscribers l.channels in
      ((emit severity process now message l).channels ≡ sent.0)
      × ((emit severity process now message l).state.subscribers ≡ sent.1)
unfolding emit print_line
emit_lem severity process now message l = ground arith
