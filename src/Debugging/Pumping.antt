-- ===== src/Debugging/Pumping.antt =====
-- src/system_debugging.rs: a round with all command peers.
use system_core_port_test.Prelude.{
  ℕ, ◌<◌, ◌≡◌, ◌⊎◌, inl, inr, refl, sym, ap, ◌∙◌, subst, true, false, some, List, [], ◌∷◌, ◌++◌,
  if_yes, if_no, length, All, Bool-cases, append-nil,
}
use system_core_port_test.Text.{Text, Bytes}
use system_core_port_test.Net.{Io, ok, err, Socket, read_available}
use system_core_port_test.Net.Reading.{read_available-takes}
use system_core_port_test.Net.Apart.{read_available-keeps, read-taken}
use system_core_port_test.Commanding.Registry.{CommandRegistry}
use system_core_port_test.Commanding.Session.{output_new}
use system_core_port_test.Commanding.Safe.{Wf}
use system_core_port_test.Commanding.Complete.{AsciiIds}
use system_core_port_test.Debugging.{Connection, CommandPeer, SystemDebugging}
use system_core_port_test.Debugging.Serving.{serve_round, pump_peer, command_peers_pump}
use system_core_port_test.Debugging.Sending.{handed}
use system_core_port_test.Debugging.Answering.{
  Over, ingest-Lasts, finish_round-Settled, close_round-Settled,
}
use system_core_port_test.Debugging.Retaining.{Retained, retain_mut-Retained}
use system_core_port_test.Debugging.Owed.{
  Duplex, Fit, Answered, waits, was_done, finished, unread, refused, Round,
}
use system_core_port_test.Debugging.Ending.{Next-refl}
use system_core_port_test.Debugging.Replying.{
  Leaving, Read, Rounds, drop_peer-Rounds, Settled-Rounds, answer_round-Rounds,
}

module _ {S : Type 0} (socket : Socket S) (taken input : S → Bytes)
    (duplex : Duplex socket taken input) {H : Type 0} (call : H → Text → CommandRegistry H → Text)
    (registry : CommandRegistry H) (reads : ℕ) where
  serve_round-Rounds :
      (ascii : AsciiIds registry) (p : CommandPeer S) (c : Connection S) (a : Io Bytes)
      (got : Bytes)
      → p.closing ≡ false
      → Wf p.session
      → (a ≡ ok got → Read socket taken input duplex call registry reads p c got)
      → (a ≡ ok got)
        ⊎ ((e : ℕ) × (a ≡ err e) × (read_available socket reads p.connection ≡ some (c, err e)))
      → handed socket taken duplex.stream c ≡ handed socket taken duplex.stream p.connection
      → Rounds socket taken input duplex call registry reads p
          (serve_round socket reads call registry p c a)
  unfolding serve_round
  serve_round-Rounds ascii p c a got k w i (inr (e, q, r)) h =
      rw q (drop_peer-Rounds socket taken input duplex call registry reads p p c (unread c e k r))
  serve_round-Rounds ascii p c a [] k w i (inl q) h =
      let done =
        Settled-Rounds socket taken input duplex call registry reads p (record p { connection = c })
          c [] (p.session, output_new) _ k (i q) refl (inl w) refl k
          (h ∙ sym (append-nil (handed socket taken duplex.stream p.connection)))
          (Next-refl socket taken duplex.stream c)
          (finish_round-Settled socket taken duplex.stream (record p { connection = c })) in
      subst
        (λ x.
          Rounds socket taken input duplex call registry reads p
            (serve_round socket reads call registry p c x))
        (sym q) done
  serve_round-Rounds ascii p c a (b ∷ bs) k w i (inl q) h =
      let (run, e, l) = ingest-Lasts call registry ascii (b ∷ bs) p.session w in
      let done =
        answer_round-Rounds socket taken input duplex call registry reads p c c (b ∷ bs) run k (i q)
          e l h (Next-refl socket taken duplex.stream c) in
      subst
        (λ x.
          Rounds socket taken input duplex call registry reads p
            (serve_round socket reads call registry p c x))
        (sym q) (rw e done)

  pump_peer-Rounds :
      (ascii : AsciiIds registry) (p : CommandPeer S)
      → Fit p
      → length (input p.connection.stream) < reads
      → Rounds socket taken input duplex call registry reads p
          (pump_peer socket reads call registry p)
  unfolding pump_peer
  pump_peer-Rounds ascii p f l = elim (Bool-cases p.closing) [
    | inl k ↦
        let (r, e, fair, g, t, u, v) = close_round-Settled socket taken duplex.stream p k in
        let full = waits k (u ∙ k) g in
        (
          r,
          if_yes _ k e,
          record {
            open_lem = fair.0;
            waiting = fair.1;
            fit = λ x. inl (u ∙ k);
            answered = λ x. full;
            ended = λ x. leaves r.0 k full (v x);
          },
        )
    | inr k ↦
        let (r, e, (got, i, n, pend, x)) =
          read_available-takes socket input duplex.ordered reads p.connection l in
        let same =
          read_available-keeps socket (λ t. taken t.stream ≡ taken p.connection.stream)
            (λ t q. read-taken socket taken duplex.apart 512 t ∙ q) reads p.connection r e refl in
        let h : handed socket taken duplex.stream r.0
            ≡ handed socket taken duplex.stream p.connection =
          ap (λ y. y ++ r.0.pending_write) same ∙ ap (λ y. taken p.connection.stream ++ y) pend in
        subst (Rounds socket taken input duplex call registry reads p) (sym (if_no _ k refl)) (
          rw e (
            serve_round-Rounds ascii p r.0 r.1 got k (healthy f k)
              (λ q. (e ∙ ap (λ y. some (r.0, y)) q, i)) (outcome r.0 r.1 e x) h))
  ]
    where
      healthy : Fit p → p.closing ≡ false → Wf p.session
      healthy (inl c) k = absurd (cc)
      healthy (inr w) k = w

      leaves :
          (q : CommandPeer S)
          → p.closing ≡ true
          → Answered socket taken input duplex call registry reads p q
          → Over socket taken duplex.stream p q
          → Leaving socket taken input duplex call registry reads p q
      leaves q k full (inl (x, y)) = finished x y full
      leaves q k full (inr y) = elim (Bool-cases p.connection.done) [
        | inl x ↦ was_done k x
        | inr x ↦ refused (y.0 x)
      ]

      outcome :
          {got : Bytes} {D : Type 0} (c : Connection S) (a : Io Bytes)
          → read_available socket reads p.connection ≡ some (c, a)
          → (a ≡ ok got) ⊎ ((e : ℕ) × (a ≡ err e) × D)
          → (a ≡ ok got)
            ⊎ ((e : ℕ) × (a ≡ err e) × (read_available socket reads p.connection ≡ some (c, err e)))
      outcome c a r (inl q) = inl q
      outcome c a r (inr (e, q, d)) = inr (e, q, r ∙ ap (λ y. some (c, y)) q)

  -- A round with the command peers returns. Each peer that stays is open, has bytes to send if it is
  -- closing, and is fit for the next round. One that was closing was handed nothing new. Any other
  -- was handed exactly what its session says to the bytes that were read from it, chunk by chunk, and its
  -- goodbye if the session asks for the end; the session is the one after these bytes, and the peer
  -- is closing exactly if it asked. A peer goes only where it was closing and its connection was done
  -- before, or it is closing and all that it was owed is sent, or reading from it failed, or the reading
  -- found the end of the stream, and then it was answered, or the stream refused what was written, with an
  -- error or by taking nothing; its connection is done. The order stays. The sessions of the peers that are
  -- not closing are well formed, the ids of the commands ASCII, the fuel covers what the peers send,
  -- and the streams do what is documented of them.
  pub command_peers_pump-Retained :
      (d : SystemDebugging S)
      → AsciiIds registry
      → All Fit d.command_peers
      → All (λ p. length (input p.connection.stream) < reads) d.command_peers
      → (qs : List (CommandPeer S)) × (command_peers_pump socket reads call registry d
          ≡ some (record d { command_peers = qs }))
        × Retained
            (pump_peer socket reads call registry)
            (Round socket taken input duplex call registry reads)
            d.command_peers
            qs
  unfolding command_peers_pump
  command_peers_pump-Retained d ascii fit l =
      let (qs, e, r) =
        retain_mut-Retained (pump_peer socket reads call registry)
          (Round socket taken input duplex call registry reads) d.command_peers
          (rounds d.command_peers fit l) in
      (qs, rw e refl, r)
    where
      rounds :
          (ps : List (CommandPeer S))
          → All Fit ps
          → All (λ p. length (input p.connection.stream) < reads) ps
          → All
              (λ p.
                Rounds socket taken input duplex call registry reads p
                  (pump_peer socket reads call registry p))
              ps
      rounds [] f k = tt
      rounds (p ∷ ps) f k = (pump_peer-Rounds ascii p f.0 k.0, rounds ps f.1 k.1)
