-- ===== src/Debugging/Rounds.antt =====
-- src/system_debugging.rs: a call of `process` returns and leaves what the next call needs.
use system_core_port_test.Prelude.{ℕ, ◌<◌, ◌≡◌, Option, some, List, length}
use system_core_port_test.Text.{Text, Bytes}
use system_core_port_test.Net.{Socket}
use system_core_port_test.Net.Listening.{Listeners}
use system_core_port_test.Net.Binding.{SocketAddr, Sockets}
use system_core_port_test.Commanding.Registry.{CommandRegistry}
use system_core_port_test.Commanding.Complete.{AsciiIds}
use system_core_port_test.Processing.{ProcessRenderOptions}
use system_core_port_test.Debugging.Starting.{Outcome}
use system_core_port_test.Debugging.Turning.{Turn}
use system_core_port_test.Debugging.Owed.{Duplex}

module _ {S : Type 0} (socket : Socket S) (taken input : S → Bytes)
    (duplex : Duplex socket taken input) (reads : ℕ)
    (short : (s : S) → length (input s) < reads) where
  module _ {W K H : Type 0} (sockets : Sockets W K) (system : Listeners W S SocketAddr)
      (show_error : ℕ → Text) (call : H → Text → CommandRegistry H → Text)
      (registry : CommandRegistry H) (ascii : AsciiIds registry)
      (draw : List Text → List Text → ProcessRenderOptions → Option Text)
      (drawn : (info extra : List Text) (o : ProcessRenderOptions)
        → (t : Text) × (draw info extra o ≡ some t)) where
    abbrev Turns : ℕ → ℕ → Outcome S W → Outcome S W → Type 0
    Turns level now =
        Turn socket taken input duplex sockets system show_error call reads level registry draw now
