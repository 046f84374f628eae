-- ===== src/Debugging/Turned.antt =====
-- src/system_debugging.rs: the parts of a turn that concern the peers of the tree and of the log.
use system_core_port_test.Prelude.{
  ℕ, ◌<◌, ◌≡◌, inl, inr, refl, sym, ap, Bool, true, false, Option, none, some, List, [], ◌∷◌, ◌++◌,
  if◌then◌else◌, if_yes, if_no, length, All, Bool-cases,
}
use system_core_port_test.Text.{Text, Bytes, encode}
use system_core_port_test.Logging.{Logger}
use system_core_port_test.Net.{Io, ok, err, Socket, done_set}
use system_core_port_test.Net.Reading.{read_available-takes}
use system_core_port_test.Processing.{ProcessRenderOptions}
use system_core_port_test.Debugging.{Connection, Peer, process_tree, log, SystemDebugging, is_open}
use system_core_port_test.Debugging.Serving.{asks_to_leave, check_peer, peer_check}
use system_core_port_test.Debugging.Broadcasting.{
  tree_options, clear_screen, drained, drain_log, send_process_tree, send_log_entries,
}
use system_core_port_test.Debugging.Delivering.{
  AllOpen, Served-AllOpen, send_to_all-Served, send_log_entries-Served,
}
use system_core_port_test.Debugging.Retaining.{Retained, Retained-All, retain_mut-Retained}
use system_core_port_test.Debugging.Turning.{
  Checks, Reacts, too_early, unchanged, Shown, is_early, is_same, is_shown, Logged, unsubscribed,
  subscribed,
}
use system_core_port_test.Debugging.Owed.{Duplex}

module _ {S : Type 0} (socket : Socket S) (taken input : S → Bytes)
    (duplex : Duplex socket taken input) (reads : ℕ)
    (short : (s : S) → length (input s) < reads) where
  -- `peer_check` returns, and leaves open peers.
  pub peer_check-AllOpen :
      (d : SystemDebugging S)
      → (ps : List (Peer S)) × (peer_check socket reads d ≡ some (record d { peers = ps }))
        × Retained (check_peer socket reads) (Checks socket reads) d.peers ps
        × AllOpen ps
  unfolding peer_check check_peer
  peer_check-AllOpen d =
      let (ps, e, r) =
        retain_mut-Retained (check_peer socket reads) (Checks socket reads) d.peers
          (checks d.peers) in
      (
        ps,
        rw e refl,
        r,
        Retained-All (check_peer socket reads) (Checks socket reads)
            (λ p. is_open p.connection ≡ true) d.peers ps (λ p q k. sym k.4) r,
      )
    where
      reacts :
          (p : Peer S) (c : Connection S) (a : Io Bytes)
          → Reacts socket p c a
              (record p { connection = if asks_to_leave a then done_set socket c else c })
      reacts p c (ok bytes) = refl
      reacts p c (err e) = refl

      checks :
          (ps : List (Peer S))
          → All
              (λ p.
                (r : Peer S × Bool) × (check_peer socket reads p ≡ some r)
                × Checks socket reads p r)
              ps
      checks [] = tt
      checks (p ∷ ps) =
          let (r, e, k) =
            read_available-takes socket input duplex.ordered reads p.connection
              (short p.connection.stream) in
          let c = if asks_to_leave r.1 then done_set socket r.0 else r.0 in
          (
            (
              (record p { connection = c }, is_open c),
              rw e refl,
              (r.0, r.1, e, reacts p r.0 r.1, refl),
            ),
            checks ps,
          )

  -- `send_process_tree` returns, and keeps the peers open.
  pub send_process_tree-Shown :
      (draw : ProcessRenderOptions → Option Text) (now : ℕ) (d : SystemDebugging S)
      → ((o : ProcessRenderOptions) → (t : Text) × (draw o ≡ some t))
      → AllOpen d.peers
      → (u : SystemDebugging S) × (send_process_tree socket draw now d ≡ some u)
        × Shown socket taken duplex.stream draw now d u
        × AllOpen u.peers
        × (u.command_peers ≡ d.command_peers)
  unfolding send_process_tree
  send_process_tree-Shown draw now d drawn o = elim (Bool-cases (too_early now d)) [
    | inl e ↦ (d, if_yes _ e refl, is_early e, o, refl)
    | inr e ↦
        let (tree, f) = drawn tree_options in
        elim (Bool-cases (unchanged tree d)) [
          | inl g ↦ (d, if_no _ e (rw f (if_yes _ g refl)), is_same tree e f g, o, refl)
          | inr g ↦
              let v = record d { tree_cache = tree; tree_dirty = false; last_tree_send = now } in
              let said = encode (clear_screen ++ tree) in
              let (qs, h, s) =
                send_to_all-Served socket taken duplex.stream process_tree said v o in
              (
                record v { peers = qs },
                if_no _ e (rw f (if_no _ g h)),
                is_shown tree qs e f g s,
                Served-AllOpen socket taken duplex.stream process_tree said d.peers qs s,
                refl,
              )
        ]
  ]

  pub send_log_entries-Logged :
      (level : ℕ) (d : SystemDebugging S) (l : Logger) (rx : Option ℕ)
      → d.log_rx ≡ rx
      → AllOpen d.peers
      → (r : SystemDebugging S × Logger) × (send_log_entries socket level d l ≡ some r)
        × Logged socket taken duplex.stream level d l r.0 r.1
        × AllOpen r.0.peers
        × (r.0.command_peers ≡ d.command_peers)
  unfolding send_log_entries
  send_log_entries-Logged level d l none e o =
      ((d, l), ap (drain_log socket level d l) e, unsubscribed e, o, refl)
  send_log_entries-Logged level d l (some c) e o =
      let (qs, f, s, k) = send_log_entries-Served socket taken duplex.stream level d l c e o in
      (
        (record d { peers = qs }, drained c l),
        f,
        subscribed c qs e s,
        Served-AllOpen socket taken duplex.stream log _ d.peers qs s,
        refl,
      )
