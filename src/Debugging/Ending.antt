-- ===== src/Debugging/Ending.antt =====
-- src/system_debugging.rs: when writing to a connection ends it.
use system_core_port_test.Prelude.{
  ◌≡◌, ◌⊎◌, inl, inr, refl, subst, true, false, some, List, [], ◌∷◌, ◌++◌, arith, Bool-cases, ap,
  sym, is_empty, if_yes, if_no, Bool, Option, none, ◌∙◌, ◌>>=◌, if◌then◌else◌, eq_of_some,
}
use system_core_port_test.Text.{Bytes}
use system_core_port_test.Net.{Io, ok, err, Socket, done_set, queue_send, flush_pending}
use system_core_port_test.Net.Refusing.{Refused, Judged, Refused-later}
use system_core_port_test.Commanding.Session.{SystemCommanding}
use system_core_port_test.Commanding.Ingest.{disconnect_bytes}
use system_core_port_test.Debugging.{Connection, send_bytes, flush}
use system_core_port_test.Debugging.Serving.{is_err, send_answer, send_goodbye}
use system_core_port_test.Debugging.Sending.{
  Stream, Gone, flush-done, send_bytes-Judged, flush-Judged,
}

module _ {S : Type 0} (socket : Socket S) (taken : S → Bytes) (stream : Stream socket taken) where
  abbrev Ended : Connection S → Type 0
  Ended = Gone socket taken stream

  -- An open connection is still open, or the stream refused; where it had refused, it still has.
  abbrev pub Next : Connection S → Connection S → Type 0
  Next c u = (c.done ≡ false → (u.done ≡ false) ⊎ Ended u) × (Ended c → Ended u)

  pub Next-refl : (c : Connection S) → Next c c
  Next-refl c = (λ o. inl o, λ g. g)

  pub Next-trans : (a b c : Connection S) → Next a b → Next b c → Next a c
  Next-trans a b c f g = (λ o. on (f.0 o), λ x. g.1 (f.1 x))
    where
      on : (b.done ≡ false) ⊎ Ended b → (c.done ≡ false) ⊎ Ended c
      on (inl o) = g.0 o
      on (inr x) = inr (g.1 x)

  Gone-done : (c : Connection S) → Ended c → c.done ≡ true
  unfolding done_set
  Gone-done c (u, k, inl e) = ap (λ (x : Connection S). x.done) e ∙ k.is_done
  Gone-done c (u, k, inr e) = ap (λ (x : Connection S). x.done) e

  -- After a call that writes.
  abbrev pub Wrote : {A : Type 0} → Connection S → Connection S × Io A → Type 0
  Wrote c (u, ok a) = Next c u
  Wrote c (u, err e) = Refused socket u

  Judged-Wrote :
      {A : Type 0} (c : Connection S) (r : Connection S × Io A)
      → c.done ≡ false
      → Judged socket (some r)
      → Wrote c r
  Judged-Wrote c (u, ok a) o j = (λ x. judged j, λ g. absurd (cc (o, Gone-done c g)))
    where
      judged : (u.done ≡ false) ⊎ Refused socket u → (u.done ≡ false) ⊎ Ended u
      judged (inl x) = inl x
      judged (inr k) = inr (u, k, inl refl)
  Judged-Wrote c (u, err e) o j = j

  abbrev longer : Bytes → Connection S → Connection S
  longer bytes c = record c { pending_write = c.pending_write ++ bytes }

  send_bytes-done :
      (bytes : Bytes) (c : Connection S)
      → c.done ≡ true
      → send_bytes socket bytes c ≡ some (longer bytes c, ok tt)
  unfolding send_bytes queue_send flush_pending
  send_bytes-done bytes c e = rw e (ground arith)

  longer-Gone : (bytes : Bytes) (c : Connection S) → Ended c → Ended (longer bytes c)
  unfolding done_set
  longer-Gone bytes c (u, k, inl e) =
      (longer bytes u, Refused-later socket bytes u k, inl (ap (longer bytes) e))
  longer-Gone bytes c (u, k, inr e) =
      (longer bytes u, Refused-later socket bytes u k, inr (ap (longer bytes) e))

  pub send_bytes-Wrote :
      (bytes : Bytes) (c : Connection S) (r : Connection S × Io (Unit {0}))
      → send_bytes socket bytes c ≡ some r
      → Wrote c r
  send_bytes-Wrote bytes c r e = elim (Bool-cases c.done) [
    | inl d ↦
        subst (Wrote c) (eq_of_some (sym (send_bytes-done bytes c d) ∙ e))
          (λ o. absurd (cc (d, o)), longer-Gone bytes c)
    | inr o ↦ Judged-Wrote c r o (send_bytes-Judged socket taken stream bytes c r o e)
  ]

  pub flush-Wrote :
      (c : Connection S) (r : Connection S × Io Bool) → flush socket c ≡ some r → Wrote c r
  flush-Wrote c r e = elim (Bool-cases c.done) [
    | inl d ↦
        subst (Wrote c) (eq_of_some (sym (flush-done socket taken stream c d) ∙ e)) (Next-refl c)
    | inr o ↦ Judged-Wrote c r o (flush-Judged socket taken stream c r o e)
  ]

  pub Refused-shut : (c : Connection S) → Refused socket c → Ended (done_set socket c)
  Refused-shut c k = (c, k, inr refl)

  -- A call whose error is ignored.
  pub Wrote-Next :
      {A : Type 0} (c : Connection S) (r : Connection S × Io A) → Wrote c r → Next c r.0
  Wrote-Next c (u, ok a) w = w
  Wrote-Next c (u, err e) k = (λ o. inr (u, k, inl refl), λ g. (u, k, inl refl))

  -- The answer was handed over as a whole, or the stream refused.
  abbrev pub Handing : Connection S → Connection S × Bool → Type 0
  Handing c (u, true) = Next c u
  Handing c (u, false) = Ended (done_set socket u)

  pub send_answer-Handing :
      (chunks : List Bytes) (c : Connection S) (r : Connection S × Bool)
      → send_answer socket chunks c ≡ some r
      → Handing c r
  unfolding send_answer
  send_answer-Handing [] c r e = subst (Handing c) (eq_of_some e) (Next-refl c)
  send_answer-Handing (chunk ∷ chunks) c r e =
      sent (λ u h. send_answer-Handing chunks u r h) (send_bytes socket chunk c) refl e
    where
      after : (u : Connection S) (x : Connection S × Bool) → Next c u → Handing u x → Handing c x
      after u (v, true) n h = Next-trans c u v n h
      after u (v, false) n h = h

      sent :
          ((u : Connection S) → send_answer socket chunks u ≡ some r → Handing u r)
          → (o : Option (Connection S × Io (Unit {0}))) → send_bytes socket chunk c ≡ o
          → (o >>= (λ x.
              let rest = send_answer socket chunks x.0 in
              if is_err x.1 then some (x.0, false) else rest))
            ≡ some r
          → Handing c r
      sent rest none q f = absurd (cc)
      sent rest (some (u, ok a)) q f = after u r (send_bytes-Wrote chunk c (u, ok a) q) (rest u f)
      sent rest (some (u, err n)) q f =
          subst (Handing c) (eq_of_some f) (Refused-shut u (send_bytes-Wrote chunk c (u, err n) q))

  pub send_goodbye-Next :
      (session : SystemCommanding) (c u : Connection S)
      → send_goodbye socket session c ≡ some u
      → Next c u
  unfolding send_goodbye
  send_goodbye-Next session c u e = elim (Bool-cases (is_empty (disconnect_bytes session))) [
    | inl k ↦ subst (Next c) (eq_of_some (sym (if_yes _ k refl) ∙ e)) (Next-refl c)
    | inr k ↦ sent (send_bytes socket (disconnect_bytes session) c) refl (sym (if_no _ k refl) ∙ e)
  ]
    where
      sent :
          (o : Option (Connection S × Io (Unit {0})))
          → send_bytes socket (disconnect_bytes session) c ≡ o
          → (o >>= (λ r. some r.0)) ≡ some u
          → Next c u
      sent none q f = absurd (cc)
      sent (some r) q f =
          subst (Next c) (eq_of_some f)
            (Wrote-Next c r (send_bytes-Wrote (disconnect_bytes session) c r q))
