-- ===== src/Debugging/Listing.antt =====
-- src/system_debugging.rs: what `SystemDebugging` shows of itself in the tree.
use system_core_port_test.Prelude.{Option, none, some, List, [], ◌∷◌, ◌++◌, map, length}
use system_core_port_test.Text.{Text, decimal}
use system_core_port_test.Net.Listening.{TcpListening}
use system_core_port_test.Net.Binding.{SocketAddr, format_socket_addr, address_summary}
use system_core_port_test.Debugging.{Connection, Peer, CommandPeer, SystemDebugging}

-- "TcpListening"
abbrev pub tcp_listening : Text
tcp_listening = 84 ∷ 99 ∷ 112 ∷ 76 ∷ 105 ∷ 115 ∷ 116 ∷ 101 ∷ 110 ∷ 105 ∷ 110 ∷ 103 ∷ []

-- "SystemCommanding"
abbrev pub system_commanding : Text
system_commanding =
    83 ∷ 121 ∷ 115 ∷ 116 ∷ 101 ∷ 109 ∷ 67 ∷ 111 ∷ 109 ∷ 109 ∷ 97 ∷ 110 ∷ 100 ∷ 105 ∷ 110 ∷ 103 ∷ []

-- "TcpTransfering"
abbrev pub tcp_transfering : Text
tcp_transfering = 84 ∷ 99 ∷ 112 ∷ 84 ∷ 114 ∷ 97 ∷ 110 ∷ 115 ∷ 102 ∷ 101 ∷ 114 ∷ 105 ∷ 110 ∷ 103 ∷ []

-- "Connections created\t"
abbrev pub connections_label : Text
connections_label =
    67 ∷ 111 ∷ 110 ∷ 110 ∷ 101 ∷ 99 ∷ 116 ∷ 105 ∷ 111 ∷ 110 ∷ 115 ∷ 32 ∷ 99 ∷ 114 ∷ 101 ∷ 97 ∷ 116
    ∷ 101 ∷ 100 ∷ 9 ∷ []

-- "Queue\t\t\t"
abbrev pub queue_label : Text
queue_label = 81 ∷ 117 ∷ 101 ∷ 117 ∷ 101 ∷ 9 ∷ 9 ∷ 9 ∷ []

-- "Bytes received\t\t"
abbrev pub received_label : Text
received_label =
    66 ∷ 121 ∷ 116 ∷ 101 ∷ 115 ∷ 32 ∷ 114 ∷ 101 ∷ 99 ∷ 101 ∷ 105 ∷ 118 ∷ 101 ∷ 100 ∷ 9 ∷ 9 ∷ []

-- "Last command\t\t"
abbrev pub command_label : Text
command_label = 76 ∷ 97 ∷ 115 ∷ 116 ∷ 32 ∷ 99 ∷ 111 ∷ 109 ∷ 109 ∷ 97 ∷ 110 ∷ 100 ∷ 9 ∷ 9 ∷ []

-- "<none>"
abbrev pub none_label : Text
none_label = 60 ∷ 110 ∷ 111 ∷ 110 ∷ 101 ∷ 62 ∷ []

-- " <--> "
abbrev pub arrow : Text
arrow = 32 ∷ 60 ∷ 45 ∷ 45 ∷ 62 ∷ 32 ∷ []

-- "Update period [ms]\t\t"
abbrev pub period_label : Text
period_label =
    85 ∷ 112 ∷ 100 ∷ 97 ∷ 116 ∷ 101 ∷ 32 ∷ 112 ∷ 101 ∷ 114 ∷ 105 ∷ 111 ∷ 100 ∷ 32 ∷ 91 ∷ 109 ∷ 115
    ∷ 93 ∷ 9 ∷ 9 ∷ []

abbrev indent : List Text → List Text
indent = map (λ detail. 32 ∷ 32 ∷ detail)

-- "- NAME()", and the details below it.
abbrev pub virtual_child : Text → List Text → List Text
virtual_child name details = ((45 ∷ 32 ∷ name) ++ 40 ∷ 41 ∷ []) ∷ indent details

abbrev pub or_none : Option Text → Text
or_none none = none_label
or_none (some command) = command

abbrev pub endpoints : Option SocketAddr → Option SocketAddr → List Text
endpoints (some local) (some remote) =
    (format_socket_addr local ++ (arrow ++ format_socket_addr remote)) ∷ []
endpoints none remote = []
endpoints (some local) none = []

module _ {S : Type 0} where
  unfoldable pub listener_details : TcpListening S SocketAddr → List Text
  listener_details t =
      address_summary t
      ∷ (connections_label ++ decimal t.connections_created)
      ∷ (queue_label ++ decimal (length t.peers))
      ∷ []

  unfoldable pub transfer_details : Connection S → List Text
  transfer_details c =
      (received_label ++ decimal c.bytes_received) ∷ endpoints c.local_addr c.remote_addr

  abbrev pub listener_lines : Option (TcpListening S SocketAddr) → List Text
  listener_lines none = []
  listener_lines (some t) = virtual_child tcp_listening (listener_details t)

  abbrev pub command_lines : List (CommandPeer S) → List Text
  command_lines [] = []
  command_lines (p ∷ ps) =
      virtual_child system_commanding ((command_label ++ or_none p.session.last_command) ∷ [])
      ++ command_lines ps

  abbrev pub transfer_lines : List (Peer S) → List Text
  transfer_lines [] = []
  transfer_lines (p ∷ ps) =
      virtual_child tcp_transfering (transfer_details p.connection) ++ transfer_lines ps

  unfoldable pub process_tree_extra_lines : SystemDebugging S → List Text
  process_tree_extra_lines d =
      listener_lines d.proc_listener
      ++ (listener_lines d.log_listener
          ++ (listener_lines d.cmd_listener
              ++ (listener_lines d.cmd_auto_listener
                  ++ (command_lines d.command_peers ++ transfer_lines d.peers))))

  unfoldable pub process_info : SystemDebugging S → List Text
  process_info d = (period_label ++ decimal d.update_period) ∷ []
