-- ===== src/Debugging/Running.antt =====
-- src/system_debugging.rs: `process`.
use system_core_port_test.Prelude.{ℕ, Bool, true, false, Option, some, List, ◌>>=◌, if◌then◌else◌}
use system_core_port_test.Text.{Text}
use system_core_port_test.Logging.{Logger}
use system_core_port_test.Net.{Socket}
use system_core_port_test.Net.Listening.{Listeners}
use system_core_port_test.Net.Binding.{SocketAddr, Sockets}
use system_core_port_test.Commanding.Registry.{CommandRegistry}
use system_core_port_test.Processing.{ProcessRenderOptions, Success, pending, positive, negative}
use system_core_port_test.Debugging.{SystemDebugging}
use system_core_port_test.Debugging.Starting.{Outcome, ensure_started}
use system_core_port_test.Debugging.Accepting.{accept_peers}
use system_core_port_test.Debugging.Serving.{peer_check, command_peers_pump}
use system_core_port_test.Debugging.Broadcasting.{send_process_tree, send_log_entries}
use system_core_port_test.Debugging.Listing.{process_info, process_tree_extra_lines}

abbrev pub is_positive : Success → Bool
is_positive positive = true
is_positive pending = false
is_positive (negative code) = false

module _ {S W K H : Type 0} (socket : Socket S) (sockets : Sockets W K)
    (system : Listeners W S SocketAddr) (show_error : ℕ → Text)
    (call : H → Text → CommandRegistry H → Text) where
  -- The rounds of one call, once the process is started. `draw` draws the tree of the root, given the lines
  -- that the process shows of itself, which are cached before.
  unfoldable pub rounds :
      ℕ
      → ℕ
      → CommandRegistry H
      → (List Text → List Text → ProcessRenderOptions → Option Text)
      → ℕ
      → Outcome S W
      → Option (Outcome S W)
  rounds reads level registry draw now r = accept_peers socket system r.debugging r.system >>= (λ a.
      peer_check socket reads a.0 >>= (λ d.
        command_peers_pump socket reads call registry d >>= (λ d.
          send_process_tree socket (draw (process_info d) (process_tree_extra_lines d)) now d
          >>= (λ d. send_log_entries socket level d r.logger >>= (λ b.
              some (record { debugging = b.0; system = a.1; logger = b.1; result = pending }))))))

  unfoldable pub process :
      ℕ
      → ℕ
      → CommandRegistry H
      → (List Text → List Text → ProcessRenderOptions → Option Text)
      → ℕ
      → SystemDebugging S
      → W
      → Logger
      → Option (Outcome S W)
  process reads level registry draw now d w l =
      ensure_started sockets show_error now d w l >>= (λ r.
        let served = rounds reads level registry draw now r in
        if is_positive r.result then served else some r)
