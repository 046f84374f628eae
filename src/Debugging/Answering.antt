-- ===== src/Debugging/Answering.antt =====
-- src/system_debugging.rs: one round with a command peer.
use system_core_port_test.Prelude.{
  ◌≡◌, ◌⊎◌, inl, inr, refl, sym, ap, ◌∙◌, subst, Bool, true, false, not, ◌&&◌, ◌||◌, Option, some,
  List, [], ◌∷◌, ◌++◌, ◌==◌, if◌then◌else◌, if_yes, if_no, is_empty, length-append, arith,
  Bool-cases, append_assoc, append-nil,
}
use system_core_port_test.Text.{Text, Bytes}
use system_core_port_test.Net.{Io, ok, err, Socket, done_set}
use system_core_port_test.Commanding.Registry.{CommandRegistry}
use system_core_port_test.Commanding.Session.{SystemCommanding, SessionOutput, output_new}
use system_core_port_test.Commanding.Ingest.{Run, ingest, ingest_auto, disconnect_bytes}
use system_core_port_test.Commanding.Safe.{Wf}
use system_core_port_test.Commanding.Complete.{AsciiIds}
use system_core_port_test.Commanding.Total.{ingest_total}
use system_core_port_test.Debugging.{Connection, CommandPeer, is_open, has_pending_write}
use system_core_port_test.Debugging.Serving.{
  is_err, drop_peer, send_answer, send_goodbye, finish_round, close_round,
}
use system_core_port_test.Net.Refusing.{Refused}
use system_core_port_test.Debugging.Ending.{Next, Wrote, flush-Wrote, Refused-shut}
use system_core_port_test.Debugging.Sending.{
  Stream, handed, Gone, send_bytes-handed, flush-handed, done_set-handed, done_set-done,
  after_error-handed,
}

abbrev pub joined : List Bytes → Bytes
joined [] = []
joined (chunk ∷ chunks) = chunk ++ joined chunks

-- The session is well formed, or its last word is spoken.
abbrev pub Lasts : Run → Type 0
Lasts r = Wf r.0 ⊎ (r.1.disconnect ≡ true)

module _ {H : Type 0} (call : H → Text → CommandRegistry H → Text) (registry : CommandRegistry H)
    (ascii : AsciiIds registry) where
  ingest_auto-Lasts :
      (bs : Bytes) (s : SystemCommanding) (out : SessionOutput)
      → Wf s
      → Lasts (ingest_auto call registry bs s out)
  unfolding ingest_auto
  ingest_auto-Lasts [] s out w = inl w
  ingest_auto-Lasts (b ∷ bs) s out w = elim (Bool-cases (b == 13 || b == 10 || b == 0)) [
    | inl e ↦ rw e (inr refl)
    | inr e ↦ elim (Bool-cases (b == 3 || b == 4)) [
      | inl f ↦ rw (e, f) (inr refl)
      | inr f ↦
          rw (e, f)
            (ingest_auto-Lasts bs (record s { line = s.line ++ b ∷ [] }) out
              (record {
                cursor_in = omega (arith, w.cursor_in, length-append s.line (b ∷ []));
                view_in = w.view_in;
                history_bounded = w.history_bounded;
              }))
    ]
  ]

  pub ingest-Lasts :
      (bytes : Bytes) (s : SystemCommanding)
      → Wf s
      → (r : Run) × (ingest call registry bytes s ≡ some r) × Lasts r
  unfolding ingest
  ingest-Lasts bytes s w = elim (Bool-cases s.mode_auto) [
    | inl e ↦ (
      ingest_auto call registry bytes s output_new,
      if_yes _ e refl,
      ingest_auto-Lasts bytes s output_new w,
    )
    | inr e ↦ let (r, f, v) = ingest_total call registry ascii bytes s e w in (r, f, inl v)
  ]

module _ {S : Type 0} (socket : Socket S) (taken : S → Bytes) (stream : Stream socket taken) where
  abbrev of_peer : CommandPeer S → Bytes
  of_peer p = handed socket taken stream p.connection

  -- A peer stays exactly if its connection is open, and then a closing one has bytes to send.
  abbrev pub Fair : CommandPeer S × Bool → Type 0
  Fair (q, keep) =
      (keep ≡ is_open q.connection)
      × (keep ≡ true → q.closing ≡ true → has_pending_write q.connection ≡ true)

  -- Why a peer goes at the end of a round that started from this connection: all is sent that it waited for,
  -- or the stream refused.
  abbrev pub Over : CommandPeer S → CommandPeer S → Type 0
  Over p q =
      (q.closing ≡ true) × (has_pending_write q.connection ≡ false)
      ⊎ (p.connection.done ≡ false → Gone socket taken stream q.connection)
        × (Gone socket taken stream p.connection → Gone socket taken stream q.connection)

  -- The rest of a round, which only hands over what waits.
  abbrev pub Settled : CommandPeer S → Option (CommandPeer S × Bool) → Type 0
  Settled p o =
      (r : CommandPeer S × Bool) × (o ≡ some r)
      × Fair r
      × (of_peer r.0 ≡ of_peer p)
      × (r.0.session ≡ p.session)
      × (r.0.closing ≡ p.closing)
      × (r.1 ≡ false → Over p r.0)

  dropped_lem :
      (p : CommandPeer S) (c : Connection S)
      → handed socket taken stream c ≡ of_peer p
      → Over p (record p { connection = done_set socket c })
      → Settled p (some (drop_peer socket p c))
  dropped_lem p c h v = (
    drop_peer socket p c,
    refl,
    (ap not (sym (done_set-done socket taken stream c)), λ k. absurd (cc k)),
    done_set-handed socket taken stream c ∙ h,
    refl,
    refl,
    λ k. v,
  )

  kept_lem :
      (p : CommandPeer S) (c : Connection S)
      → handed socket taken stream c ≡ of_peer p
      → (p.closing ≡ true → has_pending_write c ≡ true)
      → Over p (record p { connection = c }) ⊎ Next socket taken stream p.connection c
      → Settled p (some (record p { connection = c }, is_open c))
  kept_lem p c h k n =
      ((record p { connection = c }, is_open c), refl, (refl, λ o. k), h, refl, refl, over n)
    where
      over :
          Over p (record p { connection = c }) ⊎ Next socket taken stream p.connection c
          → is_open c ≡ false
          → Over p (record p { connection = c })
      over (inl v) e = v
      over (inr n) e = inr (λ o. shut (n.0 o), n.1)
        where
          shut : (c.done ≡ false) ⊎ Gone socket taken stream c → Gone socket taken stream c
          shut (inl d) = absurd (cc (rw d at e))
          shut (inr g) = g

  shut-pending :
      (c : Connection S)
      → has_pending_write c ≡ false
      → has_pending_write (done_set socket c) ≡ false
  unfolding done_set
  shut-pending c e = e

  refused_lem :
      (p : CommandPeer S) (c : Connection S)
      → Refused socket c
      → Over p (record p { connection = done_set socket c })
  refused_lem p c k =
      inr (λ o. Refused-shut socket taken stream c k, λ g. Refused-shut socket taken stream c k)

  pub finish_round-Settled : (p : CommandPeer S) → Settled p (finish_round socket p)
  unfolding finish_round
  finish_round-Settled p =
      let (r, e, h) = flush-handed socket taken stream p.connection in
      rw e (after r h (flush-Wrote socket taken stream p.connection r e))
    where
      after :
          (r : Connection S × Io Bool)
          → handed socket taken stream r.0 ≡ of_peer p
          → Wrote socket taken stream p.connection r
          → Settled p (
              some (
                if is_err r.1
                then drop_peer socket p r.0
                else if p.closing && not (has_pending_write r.0)
                then drop_peer socket p r.0
                else (record p { connection = r.0 }, is_open r.0)))
      after (c, err n) h k = dropped_lem p c h (refused_lem p c k)
      after (c, ok b) h n = elim (Bool-cases (p.closing && not (has_pending_write c))) [
        | inl e ↦
            let sent : (p.closing ≡ true) × (has_pending_write (done_set socket c) ≡ false) =
              (ground arith, shut-pending c (ground arith)) in
            subst (Settled p) (ap some (sym (if_yes _ e refl))) (dropped_lem p c h (inl sent))
        | inr e ↦
            subst (Settled p) (ap some (sym (if_no _ e refl)))
              (kept_lem p c h (λ k. ground (arith, k)) (inr n))
      ]

  pub close_round-Settled :
      (p : CommandPeer S) → p.closing ≡ true → Settled p (close_round socket p)
  unfolding close_round
  close_round-Settled p m =
      let (r, e, h) = flush-handed socket taken stream p.connection in
      let c = if is_err r.1 then done_set socket r.0 else r.0 in
      let k = after_error-handed socket taken stream (is_err r.1) r.0 ∙ h in
      let n = written r (flush-Wrote socket taken stream p.connection r e) in
      rw e (elim (Bool-cases (has_pending_write c)) [
        | inl w ↦ subst (Settled p) (ap some (sym (if_yes _ w refl))) (kept_lem p c k (λ x. w) n)
        | inr w ↦
            subst (Settled p) (ap some (sym (if_no _ w refl)))
              (dropped_lem p c k (inl (m, shut-pending c w)))
      ])
    where
      written :
          (r : Connection S × Io Bool)
          → Wrote socket taken stream p.connection r
          → let c = if is_err r.1 then done_set socket r.0 else r.0 in
            Over p (record p { connection = c }) ⊎ Next socket taken stream p.connection c
      written (c, ok b) n = inr n
      written (c, err e) k = inl (refused_lem p c k)

  pub send_answer-handed :
      (chunks : List Bytes) (c : Connection S)
      → (r : Connection S × Bool) × (send_answer socket chunks c ≡ some r)
        × (r.1 ≡ true
            → handed socket taken stream r.0 ≡ handed socket taken stream c ++ joined chunks)
  unfolding send_answer
  send_answer-handed [] c = ((c, true), refl, λ k. sym (append-nil _))
  send_answer-handed (chunk ∷ chunks) c =
      let (r, e, h) = send_bytes-handed socket taken stream chunk c in
      let (u, f, k) = send_answer-handed chunks r.0 in
      elim (Bool-cases (is_err r.1)) [
        | inl b ↦ ((r.0, false), rw e (if_yes _ b refl), λ x. absurd (cc x))
        | inr b ↦ (
          u,
          rw e (if_no _ b f),
          λ x.
              k x
              ∙ ap (λ t. t ++ joined chunks) h
              ∙ append_assoc (handed socket taken stream c) chunk (joined chunks),
        )
      ]

  pub send_goodbye-handed :
      (session : SystemCommanding) (c : Connection S)
      → (u : Connection S) × (send_goodbye socket session c ≡ some u)
        × (handed socket taken stream u ≡ handed socket taken stream c ++ disconnect_bytes session)
  unfolding send_goodbye
  send_goodbye-handed session c = elim (Bool-cases (is_empty (disconnect_bytes session))) [
    | inl e ↦ (
      c,
      if_yes _ e refl,
      sym (append-nil _)
          ∙ ap (λ t. handed socket taken stream c ++ t)
              (sym (nothing (disconnect_bytes session) e)),
    )
    | inr e ↦
        let (r, f, h) = send_bytes-handed socket taken stream (disconnect_bytes session) c in
        (r.0, if_no _ e (rw f refl), h)
  ]
    where
      nothing : (bytes : Bytes) → is_empty bytes ≡ true → bytes ≡ []
      nothing [] e = refl
      nothing (b ∷ bs) e = cc
