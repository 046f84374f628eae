-- ===== src/Debugging/Replying.antt =====
-- src/system_debugging.rs: the ends of a round with a command peer, once its bytes are read.
use system_core_port_test.Prelude.{
  ℕ, ◌≡◌, ◌⊎◌, inl, inr, refl, sym, ap, ◌∙◌, subst, Bool, true, false, not, Option, some, [], ◌++◌,
  if◌then◌else◌, if_yes, if_no, ◌>>=◌, Bool-cases, append_assoc, append-nil,
}
use system_core_port_test.Text.{Text, Bytes}
use system_core_port_test.Net.{Socket, done_set}
use system_core_port_test.Commanding.Registry.{CommandRegistry}
use system_core_port_test.Commanding.Ingest.{Run, disconnect_bytes}
use system_core_port_test.Commanding.Safe.{Wf}
use system_core_port_test.Debugging.{Connection, CommandPeer}
use system_core_port_test.Debugging.Serving.{drop_peer, send_goodbye, finish_round, answer_round}
use system_core_port_test.Debugging.Sending.{handed, done_set-done, Gone}
use system_core_port_test.Debugging.Ending.{
  Next, Next-trans, Handing, send_answer-Handing, send_goodbye-Next,
}
use system_core_port_test.Debugging.Answering.{
  joined, Lasts, Over, Settled, finish_round-Settled, send_answer-handed, send_goodbye-handed,
}
use system_core_port_test.Debugging.Owed.{
  Duplex, Fit, reply, said, Reads, Answered, answers, Ended, finished, at_end, refused, Round,
}

module _ {S : Type 0} (socket : Socket S) (taken input : S → Bytes)
    (duplex : Duplex socket taken input) {H : Type 0} (call : H → Text → CommandRegistry H → Text)
    (registry : CommandRegistry H) (reads : ℕ) where
  abbrev pub Read : CommandPeer S → Connection S → Bytes → Type 0
  Read = Reads socket taken input duplex call registry reads

  abbrev pub Leaving : CommandPeer S → CommandPeer S → Type 0
  Leaving = Ended socket taken input duplex call registry reads

  abbrev pub Rounds : CommandPeer S → Option (CommandPeer S × Bool) → Type 0
  Rounds p o =
      (r : CommandPeer S × Bool) × (o ≡ some r)
      × Round socket taken input duplex call registry reads p r

  pub drop_peer-Rounds :
      (p q : CommandPeer S) (c : Connection S)
      → Leaving p (record q { connection = done_set socket c })
      → Rounds p (some (drop_peer socket q c))
  drop_peer-Rounds p q c v = (
    drop_peer socket q c,
    refl,
    record {
      open_lem = ap not (sym (done_set-done socket taken duplex.stream c));
      waiting = λ k. absurd (cc k);
      fit = λ k. absurd (cc k);
      answered = λ k. absurd (cc k);
      ended = λ k. v;
    },
  )

  -- The end of a round, after the bytes were read and the answer handed over.
  pub Settled-Rounds :
      (p q : CommandPeer S) (c : Connection S) (bytes : Bytes) (run : Run)
      (o : Option (CommandPeer S × Bool))
      → p.closing ≡ false
      → Read p c bytes
      → reply call registry bytes p.session ≡ some run
      → Lasts run
      → q.session ≡ run.0
      → q.closing ≡ run.1.disconnect
      → handed socket taken duplex.stream q.connection
        ≡ handed socket taken duplex.stream p.connection ++ said run
      → Next socket taken duplex.stream c q.connection
      → Settled socket taken duplex.stream q o
      → Rounds p o
  Settled-Rounds p q c bytes run o k i e l s d h n (r, f, fair, g, t, u, v) =
      let full = answers c bytes run k i e (t ∙ s) (u ∙ d) (g ∙ h) in
      (
        r,
        f,
        record {
          open_lem = fair.0;
          waiting = fair.1;
          fit = λ x. lasting l;
          answered = λ x. full;
          ended = λ x. leaves full (v x);
        },
      )
    where
      lasting : Lasts run → Fit r.0
      lasting (inl w) = inr (subst Wf (sym (t ∙ s)) w)
      lasting (inr x) = inl (u ∙ d ∙ x)

      broken :
          (q.connection.done ≡ false) ⊎ Gone socket taken duplex.stream q.connection
          → (q.connection.done ≡ false → Gone socket taken duplex.stream r.0.connection)
            × (Gone socket taken duplex.stream q.connection
                → Gone socket taken duplex.stream r.0.connection)
          → Leaving p r.0
      broken (inl x) y = refused (y.0 x)
      broken (inr x) y = refused (y.1 x)

      leaves :
          Answered socket taken input duplex call registry reads p r.0
          → Over socket taken duplex.stream q r.0
          → Leaving p r.0
      leaves full (inl (x, y)) = finished x y full
      leaves full (inr y) = elim (Bool-cases c.done) [
        | inl x ↦ at_end c bytes k i x full
        | inr x ↦ broken (n.0 x) y
      ]

  pub answer_round-Rounds :
      (p : CommandPeer S) (a c : Connection S) (bytes : Bytes) (run : Run)
      → p.closing ≡ false
      → Read p a bytes
      → reply call registry bytes p.session ≡ some run
      → Lasts run
      → handed socket taken duplex.stream c ≡ handed socket taken duplex.stream p.connection
      → Next socket taken duplex.stream a c
      → Rounds p (answer_round socket reads call registry p c run.0 run.1)
  unfolding answer_round
  answer_round-Rounds p a c bytes run k i e l h n =
      let (r, f, g) = send_answer-handed socket taken duplex.stream run.1.chunks c in
      rw f (sent r g (send_answer-Handing socket taken duplex.stream run.1.chunks c r f))
    where
      q : CommandPeer S
      q = record p { session = run.0 }

      sent :
          (r : Connection S × Bool)
          → (r.1 ≡ true
              → handed socket taken duplex.stream r.0
                ≡ handed socket taken duplex.stream c ++ joined run.1.chunks)
          → Handing socket taken duplex.stream c r
          → Rounds p (
              if not r.1
              then some (drop_peer socket q r.0)
              else if run.1.disconnect
              then (send_goodbye socket run.0 r.0
                  >>= (λ u. finish_round socket (record q { connection = u; closing = true })))
              else finish_round socket (record q { connection = r.0 }))
      sent (u, false) g x = drop_peer-Rounds p q u (refused x)
      sent (u, true) g x = elim (Bool-cases run.1.disconnect) [
        | inl d ↦
            let (v, f, b) = send_goodbye-handed socket taken duplex.stream run.0 u in
            let on = Next-trans socket taken duplex.stream a c u n x in
            let all : handed socket taken duplex.stream v
                ≡ handed socket taken duplex.stream p.connection ++ said run =
              b
              ∙ ap (λ x. x ++ disconnect_bytes run.0)
                  (g refl ∙ ap (λ x. x ++ joined run.1.chunks) h)
              ∙ append_assoc (handed socket taken duplex.stream p.connection) (joined run.1.chunks)
                  (disconnect_bytes run.0)
              ∙ ap
                  (λ x.
                    handed socket taken duplex.stream p.connection ++ (joined run.1.chunks ++ x))
                  (sym (if_yes [] d refl)) in
            subst (Rounds p) (sym (if_yes _ d (rw f refl))) (
              Settled-Rounds p (record q { connection = v; closing = true }) a bytes run _ k i e l
                refl (sym d) all
                (Next-trans socket taken duplex.stream a u v on
                  (send_goodbye-Next socket taken duplex.stream run.0 u v f))
                (finish_round-Settled socket taken duplex.stream
                  (record q { connection = v; closing = true })))
        | inr d ↦
            let on = Next-trans socket taken duplex.stream a c u n x in
            let all : handed socket taken duplex.stream u
                ≡ handed socket taken duplex.stream p.connection ++ said run =
              g refl
              ∙ ap (λ x. x ++ joined run.1.chunks) h
              ∙ ap (λ x. handed socket taken duplex.stream p.connection ++ x)
                  (sym (append-nil (joined run.1.chunks)))
              ∙ ap
                  (λ x.
                    handed socket taken duplex.stream p.connection ++ (joined run.1.chunks ++ x))
                  (sym (if_no (disconnect_bytes run.0) d refl)) in
            subst (Rounds p) (sym (if_no _ d refl)) (
              Settled-Rounds p (record q { connection = u }) a bytes run _ k i e l refl (k ∙ sym d)
                all on
                (finish_round-Settled socket taken duplex.stream (record q { connection = u })))
      ]
