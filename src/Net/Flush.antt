-- ===== src/Net/Flush.antt =====
-- src/net.rs: what `flush_pending` and `queue_send` hand to the socket.
use system_core_port_test.Prelude.{
  ℕ, zero, suc, ◌+◌, ◌≤◌, ◌<◌, ◌≡◌, inl, inr, refl, ap, ◌∙◌, Bool, true, false, not, ◌||◌, Option,
  some, ◌++◌, is_empty, length, take, drop, arith, Bool-cases, le→leb, append_assoc, append-nil,
  length-append, length-take, length-drop, take-append-drop,
}
use system_core_port_test.Net.{
  Bytes, Io, ok, err, Answer, answered, would_block, failed, Socket, TcpTransfering, sent_more,
  flush_loop, flush_pending, queue_send, forget,
}

-- What is documented of `write` on a stream: it takes a prefix of the buffer, and says how much.
-- `taken` is what the socket has taken so far.
pub record Honest {S : Type 0} (socket : Socket S) (taken : S → Bytes) : Type 0 where
  pub write_le : (bs : Bytes) (s : S) (n : ℕ) → (socket.write bs s).1 ≡ answered n → n ≤ length bs
  pub write_takes :
      (bs : Bytes) (s : S) (n : ℕ)
      → (socket.write bs s).1 ≡ answered n
      → taken (socket.write bs s).0 ≡ taken s ++ take n bs
  pub write_blocks :
      (bs : Bytes) (s : S)
      → (socket.write bs s).1 ≡ would_block
      → taken (socket.write bs s).0 ≡ taken s
  pub write_fails :
      (bs : Bytes) (s : S) (e : ℕ)
      → (socket.write bs s).1 ≡ failed e
      → taken (socket.write bs s).0 ≡ taken s

module _ {S Addr : Type 0} (socket : Socket S) (taken : S → Bytes)
    (honest : Honest socket taken) where
  -- No byte is lost, doubled or reordered, and the counter counts what was taken.
  pub record Conserved (t u : TcpTransfering S Addr) : Type 0 where
    pub bytes : taken u.stream ++ u.pending_write ≡ taken t.stream ++ t.pending_write
    pub counter : u.bytes_sent + length (taken t.stream) ≡ t.bytes_sent + length (taken u.stream)
    pub ready : u.send_ready ≡ t.send_ready

  Conserved-trans : (t u v : TcpTransfering S Addr) → Conserved t u → Conserved u v → Conserved t v
  Conserved-trans t u v c d = record {
    bytes = d.bytes ∙ c.bytes;
    counter = omega (arith, c.counter, d.counter);
    ready = d.ready ∙ c.ready;
  }

  unmoved :
      (t : TcpTransfering S Addr) (s : S) (b : Bool)
      → taken s ≡ taken t.stream
      → Conserved t (record t { stream = s; done = b })
  unmoved t s b e = record {
    bytes = ap (λ x. x ++ t.pending_write) e;
    counter = rw e refl;
    ready = refl;
  }

  moved :
      (t : TcpTransfering S Addr) (s : S) (n : ℕ)
      → n ≤ length t.pending_write
      → taken s ≡ taken t.stream ++ take n t.pending_write
      → Conserved t (sent_more s n (drop n t.pending_write) t)
  moved t s n l e = record {
    bytes =
        ap (λ x. x ++ drop n t.pending_write) e
        ∙ append_assoc (taken t.stream) (take n t.pending_write) (drop n t.pending_write)
        ∙ ap (λ x. taken t.stream ++ x) (take-append-drop n t.pending_write);
    counter = rw e (
        omega (
          arith,
          length-append (taken t.stream) (take n t.pending_write),
          length-take n t.pending_write,
        ));
    ready = refl;
  }

  abbrev pub Flushes : TcpTransfering S Addr → Option (TcpTransfering S Addr × Io Bool) → Type 0
  Flushes t o = (r : TcpTransfering S Addr × Io Bool) × (o ≡ some r) × Conserved t r.0

  flush_loop-Flushes :
      (fuel : ℕ) (t : TcpTransfering S Addr)
      → length t.pending_write < fuel
      → Flushes t (flush_loop socket fuel t)
  unfolding flush_loop
  flush_loop-Flushes zero t l = absurd (omega arith)
  flush_loop-Flushes (suc fuel) t l = elim (Bool-cases (is_empty t.pending_write)) [
    | inl e ↦ (
      (t, ok true),
      rw (e, flush_loop) refl,
      record { bytes = refl; counter = omega arith; ready = refl },
    )
    | inr e ↦
        written (λ u. flush_loop-Flushes fuel u) e ((socket.write t.pending_write t.stream).1) refl
  ]
    where
      w : S
      w = (socket.write t.pending_write t.stream).0

      written :
          ((u : TcpTransfering S Addr)
            → length u.pending_write < fuel
            → Flushes u (flush_loop socket fuel u))
          → is_empty t.pending_write ≡ false
          → (a : Answer ℕ) → (socket.write t.pending_write t.stream).1 ≡ a
          → Flushes t (flush_loop socket (suc fuel) t)
      written rest e (answered zero) q = (
        (record t { stream = w; done = true }, ok false),
        rw (e, flush_loop) (rw q refl),
        unmoved t w true
            (honest.write_takes t.pending_write t.stream 0 q ∙ append-nil (taken t.stream)),
      )
      written rest e (answered (suc n)) q =
          let le = honest.write_le t.pending_write t.stream (suc n) q in
          let u = sent_more w (suc n) (drop (suc n) t.pending_write) t in
          let (r, p, c) = rest u (omega (arith, length-drop (suc n) t.pending_write)) in
          (
            r,
            rw (e, flush_loop) (rw (q, le→leb (suc n) (length t.pending_write) le) p),
            Conserved-trans t u r.0
                (moved t w (suc n) le (honest.write_takes t.pending_write t.stream (suc n) q)) c,
          )
      written rest e would_block q = (
        (record t { stream = w }, ok true),
        rw (e, flush_loop) (rw q refl),
        unmoved t w t.done (honest.write_blocks t.pending_write t.stream q),
      )
      written rest e (failed c) q = (
        (record t { stream = w; done = true }, err c),
        rw (e, flush_loop) (rw q refl),
        unmoved t w true (honest.write_fails t.pending_write t.stream c q),
      )

  pub flush_pending-Flushes :
      (fuel : ℕ) (t : TcpTransfering S Addr)
      → length t.pending_write < fuel
      → Flushes t (flush_pending socket fuel t)
  unfolding flush_pending
  flush_pending-Flushes fuel t l = elim (Bool-cases (not t.send_ready || t.done)) [
    | inl e ↦
        ((t, ok false), rw e refl, record { bytes = refl; counter = omega arith; ready = refl })
    | inr e ↦ rw e (flush_loop-Flushes fuel t l)
  ]

  -- With fuel for the bytes that wait, `queue_send` returns, and what the socket has taken followed by
  -- what still waits is what it had taken before, what waited, and the new data: no byte is lost,
  -- doubled or reordered, whatever the socket takes at a time and wherever it blocks or fails. The
  -- counter grows by as many bytes as the socket took. The socket takes a prefix of each buffer and says
  -- how much.
  pub queue_send-conserves :
      (fuel : ℕ) (bytes : Bytes) (t : TcpTransfering S Addr)
      → length t.pending_write + length bytes < fuel
      → (r : TcpTransfering S Addr × Io (Unit {0})) × (queue_send socket fuel bytes t ≡ some r)
        × (taken r.0.stream ++ r.0.pending_write ≡ taken t.stream ++ (t.pending_write ++ bytes))
        × (r.0.bytes_sent + length (taken t.stream) ≡ t.bytes_sent + length (taken r.0.stream))
  unfolding queue_send
  queue_send-conserves fuel bytes t l =
      let u = record t { pending_write = t.pending_write ++ bytes } in
      let (r, e, c) =
        flush_pending-Flushes fuel u (omega (arith, length-append t.pending_write bytes)) in
      ((r.0, forget r.1), rw e refl, c.bytes, c.counter)
