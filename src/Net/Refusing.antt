-- ===== src/Net/Refusing.antt =====
-- src/net.rs: when writing ends a connection.
use system_core_port_test.Prelude.{
  ℕ, zero, suc, ◌≡◌, ◌⊎◌, inl, inr, refl, sym, ap, ◌∙◌, [], append_assoc, append-nil, Bool, true,
  false, not, ◌||◌, Option, none, some, ◌++◌, ◌>>=◌, is_empty, length, drop, leb, Bool-cases,
}
use system_core_port_test.Net.{
  Bytes, Io, ok, err, Answer, answered, would_block, failed, Socket, TcpTransfering, sent_more,
  flush_loop, flush_pending, queue_send, forget,
}

module _ {S Addr : Type 0} (socket : Socket S) where
  -- The stream was offered what waited, and refused it: with an error, or by taking nothing. More may wait
  -- since.
  pub record Refused (c : TcpTransfering S Addr) : Type 0 where
    pub is_done : c.done ≡ true
    pub offered : Bytes
    pub later : Bytes
    pub waiting : is_empty offered ≡ false
    pub pending : c.pending_write ≡ offered ++ later
    pub before : S
    pub written : c.stream ≡ (socket.write offered before).0
    pub refusal :
        ((socket.write offered before).1 ≡ answered 0)
        ⊎ ((e : ℕ) × ((socket.write offered before).1 ≡ failed e))

  pub Refused-later :
      (bytes : Bytes) (c : TcpTransfering S Addr)
      → Refused c
      → Refused (record c { pending_write = c.pending_write ++ bytes })
  Refused-later bytes c k = record {
    is_done = k.is_done;
    offered = k.offered;
    later = k.later ++ bytes;
    waiting = k.waiting;
    pending = ap (λ x. x ++ bytes) k.pending ∙ append_assoc k.offered k.later bytes;
    before = k.before;
    written = k.written;
    refusal = k.refusal;
  }

  -- An open connection stays open, or the stream refused; with an error it did.
  abbrev pub Judged : {A : Type 0} → Option (TcpTransfering S Addr × Io A) → Type 0
  Judged none = Unit
  Judged (some (c, ok a)) = (c.done ≡ false) ⊎ Refused c
  Judged (some (c, err e)) = Refused c

  flush_loop-Judged :
      (fuel : ℕ) (t : TcpTransfering S Addr) → t.done ≡ false → Judged (flush_loop socket fuel t)
  unfolding flush_loop
  flush_loop-Judged zero t o = tt
  flush_loop-Judged (suc fuel) t o = elim (Bool-cases (is_empty t.pending_write)) [
    | inl e ↦ rw (e, flush_loop) (inl o)
    | inr e ↦
        written (λ u. flush_loop-Judged fuel u) e ((socket.write t.pending_write t.stream).1) refl
  ]
    where
      w : S
      w = (socket.write t.pending_write t.stream).0

      written :
          ((u : TcpTransfering S Addr) → u.done ≡ false → Judged (flush_loop socket fuel u))
          → is_empty t.pending_write ≡ false
          → (a : Answer ℕ) → (socket.write t.pending_write t.stream).1 ≡ a
          → Judged (flush_loop socket (suc fuel) t)
      written rest e (answered zero) q =
          rw (e, flush_loop)
            (rw q (
              inr (record {
                is_done = refl;
                offered = t.pending_write;
                later = [];
                waiting = e;
                pending = sym (append-nil t.pending_write);
                before = t.stream;
                written = refl;
                refusal = inl q;
              })))
      written rest e (answered (suc n)) q =
          elim (Bool-cases (leb (suc n) (length t.pending_write))) [
            | inl l ↦
                rw (e, flush_loop)
                  (rw (q, l) (rest (sent_more w (suc n) (drop (suc n) t.pending_write) t) o))
            | inr l ↦ rw (e, flush_loop) (rw (q, l) tt)
          ]
      written rest e would_block q = rw (e, flush_loop) (rw q (inl o))
      written rest e (failed c) q =
          rw (e, flush_loop)
            (rw q (record {
              is_done = refl;
              offered = t.pending_write;
              later = [];
              waiting = e;
              pending = sym (append-nil t.pending_write);
              before = t.stream;
              written = refl;
              refusal = inr (c, q);
            }))

  pub flush_pending-Judged :
      (fuel : ℕ) (t : TcpTransfering S Addr) → t.done ≡ false → Judged (flush_pending socket fuel t)
  unfolding flush_pending
  flush_pending-Judged fuel t o = elim (Bool-cases (not t.send_ready || t.done)) [
    | inl e ↦ rw e (inl o)
    | inr e ↦ rw e (flush_loop-Judged fuel t o)
  ]

  forget-Judged :
      (m : Option (TcpTransfering S Addr × Io Bool))
      → Judged m
      → Judged (m >>= (λ r. some (r.0, forget r.1)))
  forget-Judged none h = tt
  forget-Judged (some (c, ok b)) h = h
  forget-Judged (some (c, err e)) h = h

  pub queue_send-Judged :
      (fuel : ℕ) (bytes : Bytes) (t : TcpTransfering S Addr)
      → t.done ≡ false
      → Judged (queue_send socket fuel bytes t)
  unfolding queue_send
  queue_send-Judged fuel bytes t o =
      forget-Judged _
        (flush_pending-Judged fuel (record t { pending_write = t.pending_write ++ bytes }) o)
