-- ===== src/Debugging/Sending.antt =====
-- src/system_debugging.rs: what the writes to one connection hand over.
use system_core_port_test.Prelude.{
  ◌+◌, ◌≡◌, ◌⊎◌, refl, sym, ap, ◌∙◌, subst, eq_of_some, inl, inr, Bool, true, false, not, Option,
  some, [], ◌++◌, if◌then◌else◌, if_yes, if_no, arith, length, Bool-cases, append_assoc, append-nil,
  ◌>>=◌,
}
use system_core_port_test.Text.{Bytes}
use system_core_port_test.Net.{Io, ok, err, Socket, done_set, flush_pending}
use system_core_port_test.Net.Flush.{Honest, queue_send-conserves, flush_pending-Flushes}
use system_core_port_test.Net.Refusing.{Refused, Judged, queue_send-Judged, flush_pending-Judged}
use system_core_port_test.Debugging.{Connection, Peer, PeerType, is_open, send_bytes, flush}
use system_core_port_test.Debugging.Serving.{is_err}
use system_core_port_test.Debugging.Broadcasting.{same_kind, send_to_peer}

-- What is documented of the streams: `write` takes prefixes, and `shutdown` takes nothing. `taken` is what
-- the stream has taken so far.
pub record Stream {S : Type 0} (socket : Socket S) (taken : S → Bytes) : Type 0 where
  pub honest : Honest socket taken
  pub shutdown_takes : (s : S) → taken (socket.shutdown s) ≡ taken s

module _ {S : Type 0} (socket : Socket S) (taken : S → Bytes) (stream : Stream socket taken) where
  -- What was handed to a connection: taken, or waiting.
  abbrev pub handed : Connection S → Bytes
  handed c = taken c.stream ++ c.pending_write

  pub send_bytes-handed :
      (bytes : Bytes) (c : Connection S)
      → (r : Connection S × Io (Unit {0})) × (send_bytes socket bytes c ≡ some r)
        × (handed r.0 ≡ handed c ++ bytes)
  unfolding send_bytes
  send_bytes-handed bytes c =
      let (r, e, b, n) =
        queue_send-conserves socket taken stream.honest (length c.pending_write + length bytes + 1)
          bytes c (omega arith) in
      (r, e, b ∙ sym (append_assoc (taken c.stream) c.pending_write bytes))

  pub flush-handed :
      (c : Connection S)
      → (r : Connection S × Io Bool) × (flush socket c ≡ some r) × (handed r.0 ≡ handed c)
  unfolding flush
  flush-handed c =
      let (r, e, k) =
        flush_pending-Flushes socket taken stream.honest (length c.pending_write + 1) c
          (omega arith) in
      (r, e, k.bytes)

  pub done_set-handed : (c : Connection S) → handed (done_set socket c) ≡ handed c
  unfolding done_set
  done_set-handed c = ap (λ x. x ++ c.pending_write) (stream.shutdown_takes c.stream)

  pub done_set-done : (c : Connection S) → (done_set socket c).done ≡ true
  unfolding done_set
  done_set-done c = refl

  -- Nothing is written on a connection that is done.
  pub flush-done : (c : Connection S) → c.done ≡ true → flush socket c ≡ some (c, ok false)
  unfolding flush flush_pending
  flush-done c e = rw e (ground arith)

  -- A connection after an answer of the system, which is shut down where that is an error.
  pub after_error-handed :
      (b : Bool) (c : Connection S) → handed (if b then done_set socket c else c) ≡ handed c
  after_error-handed true c = done_set-handed c
  after_error-handed false c = refl

  abbrev pub if_kind : PeerType → Peer S → Bytes → Bytes
  if_kind kind p said = if same_kind p.kind kind then said else []

  -- A connection that the stream refused to write for, shut down since or not.
  abbrev pub Gone : Connection S → Type 0
  Gone q = (c : Connection S) × Refused socket c × ((q ≡ c) ⊎ (q ≡ done_set socket c))

  pub send_bytes-Judged :
      (bytes : Bytes) (c : Connection S) (r : Connection S × Io (Unit {0}))
      → c.done ≡ false
      → send_bytes socket bytes c ≡ some r
      → Judged socket (some r)
  unfolding send_bytes
  send_bytes-Judged bytes c r o e =
      subst (Judged socket) e
        (queue_send-Judged socket (length c.pending_write + length bytes + 1) bytes c o)

  pub flush-Judged :
      (c : Connection S) (r : Connection S × Io Bool)
      → c.done ≡ false
      → flush socket c ≡ some r
      → Judged socket (some r)
  unfolding flush
  flush-Judged c r o e =
      subst (Judged socket) e (flush_pending-Judged socket (length c.pending_write + 1) c o)

  -- After an answer of the stream, with a shutdown where that is an error.
  pub after_error-Gone :
      {A : Type 0} (r : Connection S × Io A)
      → Judged socket (some r)
      → let c = if is_err r.1 then done_set socket r.0 else r.0 in (c.done ≡ false) ⊎ Gone c
  after_error-Gone (c, ok a) (inl o) = inl o
  after_error-Gone (c, ok a) (inr k) = inr (c, k, inl refl)
  after_error-Gone (c, err e) k = inr (c, k, inr refl)

  -- What an open peer gets, and whether it stays: it goes only if the stream refused, and is left as it is
  -- if it is of the other kind.
  abbrev pub Gets : PeerType → Peer S → Bytes → Option (Peer S × Bool) → Type 0
  Gets kind p said o =
      (r : Peer S × Bool) × (o ≡ some r)
      × (r.1 ≡ is_open r.0.connection)
      × (r.0.kind ≡ p.kind)
      × (handed r.0.connection ≡ handed p.connection ++ if_kind kind p said)
      × ((r.0.connection.done ≡ false) ⊎ Gone r.0.connection)
      × (same_kind p.kind kind ≡ false → r.0 ≡ p)

  pub send_to_peer-Gets :
      (kind : PeerType) (payload : Bytes) (p : Peer S)
      → p.connection.done ≡ false
      → Gets kind p payload (send_to_peer socket kind payload p)
  unfolding send_to_peer
  send_to_peer-Gets kind payload p start = elim (Bool-cases (same_kind p.kind kind)) [
    | inr e ↦ (
      (p, is_open p.connection),
      if_yes _ (ap not e) refl,
      refl,
      refl,
      rw e (sym (append-nil (handed p.connection))),
      inl start,
      λ k. refl,
    )
    | inl e ↦
        let (r, s, h) = send_bytes-handed payload p.connection in
        let (o, q, k) = after r (send_bytes-Judged payload p.connection r start s) in
        let (x, y, z, g) = k in
        (o, if_no _ (ap not e) (rw s q), x, y, rw e (z ∙ h), g, λ t. absurd (cc (e, t)))
  ]
    where
      Sent : Connection S → Option (Peer S × Bool) → Type 0
      Sent c o =
          (r : Peer S × Bool) × (o ≡ some r)
          × ((r.1 ≡ is_open r.0.connection)
              × (r.0.kind ≡ p.kind)
              × (handed r.0.connection ≡ handed c)
              × ((r.0.connection.done ≡ false) ⊎ Gone r.0.connection))

      flushed :
          (c : Connection S)
          → (c.done ≡ false) ⊎ Refused socket c
          → (u : Connection S × Io Bool) → flush socket c ≡ some u
          → let v = if is_err u.1 then done_set socket u.0 else u.0 in (v.done ≡ false) ⊎ Gone v
      flushed c (inl o) u e = after_error-Gone u (flush-Judged c u o e)
      flushed c (inr k) u e =
          let q : (c, ok false) ≡ u = eq_of_some (sym (flush-done c k.is_done) ∙ e) in
          subst
            (λ (x : Connection S × Io Bool).
              let v = if is_err x.1 then done_set socket x.0 else x.0 in (v.done ≡ false) ⊎ Gone v)
            q (inr (c, k, inl refl))

      after :
          (r : Connection S × Io (Unit {0}))
          → Judged socket (some r)
          → Sent r.0 (
              if is_err r.1
              then some (record p { connection = done_set socket r.0 }, false)
              else (flush socket r.0 >>= (λ u.
                  let c = if is_err u.1 then done_set socket u.0 else u.0 in
                  some (record p { connection = c }, is_open c))))
      after (c, err n) j = (
        (record p { connection = done_set socket c }, false),
        refl,
        (ap not (sym (done_set-done c)), refl, done_set-handed c, inr (c, j, inr refl)),
      )
      after (c, ok a) j =
          let (u, e, h) = flush-handed c in
          let v = if is_err u.1 then done_set socket u.0 else u.0 in
          (
            (record p { connection = v }, is_open v),
            rw e refl,
            (refl, refl, after_error-handed (is_err u.1) u.0 ∙ h, flushed c j u e),
          )
