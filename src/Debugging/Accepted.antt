-- ===== src/Debugging/Accepted.antt =====
-- src/system_debugging.rs: accepting returns, and the new sessions are well formed.
use system_core_port_test.Prelude.{
  ◌+◌, ◌-◌, ◌≡◌, inl, inr, refl, sym, ap, ◌∙◌, subst, ◌++◌, append_assoc, append-nil, Bool, true,
  false, Option, none, some, List, [], ◌∷◌, if_yes, if_no, length, arith, All, All-append,
  Bool-cases,
}
use system_core_port_test.Text.{Bytes}
use system_core_port_test.Net.{Socket}
use system_core_port_test.Net.Listening.{Listeners, TcpListening, next_peer}
use system_core_port_test.Net.Queue.{accept_ready-Grown}
use system_core_port_test.Net.Binding.{SocketAddr}
use system_core_port_test.Commanding.Session.{SystemCommanding}
use system_core_port_test.Commanding.Ingest.{on_connect, mode_auto_set, welcome_msg}
use system_core_port_test.Commanding.Safe.{Wf, session_new-Wf}
use system_core_port_test.Debugging.{Connection, CommandPeer, SystemDebugging}
use system_core_port_test.Debugging.Accepting.{
  next_peers, accept_at, send_chunks, new_session, command_peer, command_peers_of, accept_peers,
  with_tree_peers, with_log_peers, with_command_peers, with_auto_peers,
}
use system_core_port_test.Debugging.Sending.{Stream, handed, send_bytes-handed}
use system_core_port_test.Debugging.Answering.{joined}
use system_core_port_test.Debugging.Joining.{
  Came, absent, stands, Greeted, nobody_new, greeted, Joined, all_joined,
}
use system_core_port_test.Debugging.Owed.{Fit}

module _ {S : Type 0} (socket : Socket S) (taken : S → Bytes) (stream : Stream socket taken) where
  send_chunks-total :
      (chunks : List Bytes) (c : Connection S)
      → (u : Connection S) × (send_chunks socket chunks c ≡ some u)
        × (handed socket taken stream u ≡ handed socket taken stream c ++ joined chunks)
  unfolding send_chunks
  send_chunks-total [] c = (c, refl, sym (append-nil _))
  send_chunks-total (chunk ∷ chunks) c =
      let (r, e, h) = send_bytes-handed socket taken stream chunk c in
      let (u, f, k) = send_chunks-total chunks r.0 in
      (
        u,
        rw e f,
        k
            ∙ ap (λ t. t ++ joined chunks) h
            ∙ append_assoc (handed socket taken stream c) chunk (joined chunks),
      )

  on_connect-Wf : (s : SystemCommanding) → Wf s → Wf (on_connect welcome_msg s).0
  unfolding on_connect
  on_connect-Wf s w = elim (Bool-cases s.started) [
    | inl e ↦ subst (λ r. Wf (result r)) (sym (if_yes _ e refl)) w
    | inr e ↦
        subst (λ r. Wf (result r)) (sym (if_no (s, []) e refl))
          (elim (Bool-cases s.mode_auto) [
            | inl f ↦ subst (λ r. Wf (result r)) (sym (if_yes _ f refl)) (same w)
            | inr f ↦ subst (λ r. Wf (result r)) (sym (if_no _ f refl)) (same w)
          ])
  ]
    where
      result : SystemCommanding × List Bytes → SystemCommanding
      result r = r.0

      same :
          {started changed : Bool}
          → Wf s
          → Wf (record s { started = started; term_changed = changed })
      same w = record {
        cursor_in = w.cursor_in;
        view_in = w.view_in;
        history_bounded = w.history_bounded;
      }

  new_session-Wf : (auto : Bool) → Wf (new_session auto)
  unfolding mode_auto_set
  new_session-Wf true = record {
    cursor_in = session_new-Wf.cursor_in;
    view_in = session_new-Wf.view_in;
    history_bounded = session_new-Wf.history_bounded;
  }
  new_session-Wf false = session_new-Wf

  command_peers_of-Fit :
      (auto : Bool) (cs : List (Connection S))
      → (ps : List (CommandPeer S)) × (command_peers_of socket auto cs ≡ some ps)
        × All Fit ps
        × Greeted socket taken stream auto cs ps
  unfolding command_peers_of command_peer
  command_peers_of-Fit auto [] = ([], refl, tt, nobody_new)
  command_peers_of-Fit auto (c ∷ cs) =
      let start = on_connect welcome_msg (new_session auto) in
      let (u, e, k) = send_chunks-total start.1 c in
      let (ps, f, h, g) = command_peers_of-Fit auto cs in
      (
        record { connection = u; session = start.0; closing = false } ∷ ps,
        rw (e, f) refl,
        (inr (on_connect-Wf (new_session auto) (new_session-Wf auto)), h),
        greeted c (record { connection = u; session = start.0; closing = false }) refl refl k g,
      )

next_peers-all :
    {S : Type 0} (ps : List (Connection S)) (t : TcpListening S SocketAddr)
    → next_peers (length ps) (record t { peers = ps }) ≡ (record t { peers = [] }, ps)
unfolding next_peers next_peer
next_peers-all [] t = refl
next_peers-all (p ∷ ps) t = rw (next_peers-all ps t) refl

module _ {S W : Type 0} (system : Listeners W S SocketAddr) where
  accept_at-Came :
      (o : Option (TcpListening S SocketAddr)) (w : W)
      → (r : W × Option (TcpListening S SocketAddr) × List (Connection S)) × (accept_at system o w
          ≡ some r)
        × Came system o w r.1 r.0 r.2
  unfolding accept_at
  accept_at-Came none w = ((w, none, []), refl, absent w)
  accept_at-Came (some t) w =
      let ((v, u, n), e, g, k) =
        accept_ready-Grown system (t.max_conn_queued - length t.peers + 1) w t (omega arith) in
      (
        (v, some (record u { peers = [] }), u.peers),
        rw e (rw (next_peers-all u.peers u) refl),
        stands t u w v n e,
      )

module _ {S W : Type 0} (socket : Socket S) (taken : S → Bytes) (stream : Stream socket taken)
    (system : Listeners W S SocketAddr) where
  -- `accept_peers` returns, and the new sessions are as fit as the old ones.
  pub accept_peers-Joined :
      (d : SystemDebugging S) (w : W)
      → All Fit d.command_peers
      → (r : SystemDebugging S × W) × (accept_peers socket system d w ≡ some r)
        × Joined socket taken stream system d w r.0 r.1
        × All Fit r.0.command_peers
  unfolding accept_peers
  accept_peers-Joined d w f =
      let (a, e1, c1) = accept_at-Came system d.proc_listener w in
      let (b, e2, c2) = accept_at-Came system d.log_listener a.0 in
      let (c, e3, c3) = accept_at-Came system d.cmd_listener b.0 in
      let (ps, g3, h3, k3) = command_peers_of-Fit socket taken stream false c.2 in
      let (x, e4, c4) = accept_at-Came system d.cmd_auto_listener c.0 in
      let (qs, g4, h4, k4) = command_peers_of-Fit socket taken stream true x.2 in
      let d1 = (with_tree_peers d a).0 in
      let d2 = (with_log_peers d1 b).0 in
      let d3 = (with_command_peers d2 c ps).0 in
      (
        with_auto_peers d3 x qs,
        rw (e1, e2, e3, g3, e4, g4) refl,
        all_joined a.2 b.2 c.2 x.2 ps qs a.1 b.1 c.1 x.1 a.0 b.0 c.0 x.0 c1 c2 c3 c4 k3 k4,
        All-append Fit (d.command_peers ++ ps) qs (All-append Fit d.command_peers ps f h3) h4,
      )
