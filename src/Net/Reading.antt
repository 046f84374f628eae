-- ===== src/Net/Reading.antt =====
-- src/net.rs: what `read_available` returns.
use system_core_port_test.Prelude.{
  ℕ, zero, suc, ◌+◌, ◌<◌, ◌≡◌, ◌⊎◌, inl, inr, refl, sym, ap, ◌∙◌, Bool, true, not, Option, some, [],
  ◌∷◌, ◌++◌, length, arith, Bool-cases, append_assoc, append-nil, length-append, if_no, if_yes,
  subst,
}
use system_core_port_test.Net.{
  Bytes, Io, ok, err, Answer, answered, would_block, failed, Socket, TcpTransfering, ReadStatus,
  data_read, read_blocked, read_closed, after_read, read, read_loop, read_available,
}

-- What is documented of `read` on a stream: it takes the bytes in their order. `input` is what the peer
-- has sent and will send, as far as it has not been read.
pub record Ordered {S : Type 0} (socket : Socket S) (input : S → Bytes) : Type 0 where
  pub read_takes :
      (n : ℕ) (s : S) (bs : Bytes)
      → (socket.read n s).1 ≡ answered bs
      → input s ≡ bs ++ input (socket.read n s).0
  pub read_blocks :
      (n : ℕ) (s : S) → (socket.read n s).1 ≡ would_block → input s ≡ input (socket.read n s).0
  pub read_fails :
      (n : ℕ) (s : S) (e : ℕ) → (socket.read n s).1 ≡ failed e → input s ≡ input (socket.read n s).0

module _ {S Addr : Type 0} (socket : Socket S) (input : S → Bytes)
    (ordered : Ordered socket input) where
  -- What one `read` takes.
  pub record Took (t u : TcpTransfering S Addr) (got : Bytes) : Type 0 where
    pub bytes : input t.stream ≡ got ++ input u.stream
    pub counter : u.bytes_received ≡ t.bytes_received + length got
    pub unsent : u.pending_write ≡ t.pending_write

  Took-trans :
      (t u v : TcpTransfering S Addr) (a b : Bytes) → Took t u a → Took u v b → Took t v (a ++ b)
  Took-trans t u v a b c d = record {
    bytes = c.bytes ∙ ap (λ x. a ++ x) d.bytes ∙ sym (append_assoc a b (input v.stream));
    counter = omega (arith, c.counter, d.counter, length-append a b);
    unsent = d.unsent ∙ c.unsent;
  }

  -- What a `read` answers, against what it took.
  abbrev Reads : TcpTransfering S Addr → TcpTransfering S Addr × Io ReadStatus → Type 0
  Reads t (u, ok (data_read bs)) = Took t u bs × (0 < length bs)
  Reads t (u, ok read_blocked) = Took t u []
  Reads t (u, ok read_closed) = Took t u [] × (u.done ≡ true)
  Reads t (u, err e) = Took t u [] × (u.done ≡ true)

  nothing :
      (t : TcpTransfering S Addr) (s : S) (b : Bool)
      → input t.stream ≡ input s
      → Took t (record t { stream = s; done = b }) []
  nothing t s b e = record { bytes = e; counter = omega arith; unsent = refl }

  after_read-Reads :
      (n : ℕ) (t : TcpTransfering S Addr) (a : Answer Bytes)
      → (socket.read n t.stream).1 ≡ a
      → Reads t (after_read socket t ((socket.read n t.stream).0, a))
  after_read-Reads n t (answered []) q =
      (nothing t (socket.read n t.stream).0 true (ordered.read_takes n t.stream [] q), refl)
  after_read-Reads n t (answered (b ∷ bs)) q = (
    record { bytes = ordered.read_takes n t.stream (b ∷ bs) q; counter = refl; unsent = refl },
    omega arith,
  )
  after_read-Reads n t would_block q =
      nothing t (socket.read n t.stream).0 t.done (ordered.read_blocks n t.stream q)
  after_read-Reads n t (failed e) q =
      (nothing t (socket.read n t.stream).0 true (ordered.read_fails n t.stream e q), refl)

  read-Reads : (n : ℕ) (t : TcpTransfering S Addr) → Reads t (read socket n t)
  unfolding read
  read-Reads n t = elim (Bool-cases (not t.read_ready)) [
    | inl e ↦ subst (Reads t) (sym (if_yes _ e refl)) (nothing t t.stream t.done refl)
    | inr e ↦ subst (Reads t) (sym (if_no (t, ok read_blocked) e refl)) (elim (Bool-cases t.done) [
      | inl f ↦ subst (Reads t) (sym (if_yes _ f refl)) (nothing t t.stream t.done refl, f)
      | inr f ↦
          subst (Reads t) (sym (if_no (t, ok read_closed) f refl))
            (after_read-Reads n t (socket.read n t.stream).1 refl)
    ])
  ]

  -- What the loop makes of the bytes before it and what it takes.
  abbrev pub Ends : Bytes → TcpTransfering S Addr → TcpTransfering S Addr × Io Bytes → Type 0
  Ends out t r =
      (got : Bytes) × Took t r.0 got
      × ((r.1 ≡ ok (out ++ got)) ⊎ ((e : ℕ) × (r.1 ≡ err e) × (r.0.done ≡ true)))

  abbrev Finishes :
      Bytes → TcpTransfering S Addr → Option (TcpTransfering S Addr × Io Bytes) → Type 0
  Finishes out t o = (r : TcpTransfering S Addr × Io Bytes) × (o ≡ some r) × Ends out t r

  further :
      (out bs : Bytes) (t u : TcpTransfering S Addr) (r : TcpTransfering S Addr × Io Bytes)
      → Took t u bs
      → Ends (out ++ bs) u r
      → Ends out t r
  further out bs t u r c (got, d, inl e) =
      (bs ++ got, Took-trans t u r.0 bs got c d, inl (e ∙ ap ok (append_assoc out bs got)))
  further out bs t u r c (got, d, inr e) = (bs ++ got, Took-trans t u r.0 bs got c d, inr e)

  read_loop_data :
      (fuel : ℕ) (out : Bytes) (t : TcpTransfering S Addr) (bs : Bytes)
      → (read socket 512 t).1 ≡ ok (data_read bs)
      → read_loop socket (suc fuel) out t ≡ read_loop socket fuel (out ++ bs) (read socket 512 t).0
  unfolding read_loop
  read_loop_data fuel out t bs q = rw (read_loop, q) refl

  read_loop-Finishes :
      (fuel : ℕ) (out : Bytes) (t : TcpTransfering S Addr)
      → length (input t.stream) < fuel
      → Finishes out t (read_loop socket fuel out t)
  unfolding read_loop
  read_loop-Finishes zero out t l = absurd (omega arith)
  read_loop-Finishes (suc fuel) out t l =
      answers (λ o u k. read_loop-Finishes fuel o u k) ((read socket 512 t).1) refl
        (read-Reads 512 t)
    where
      u : TcpTransfering S Addr
      u = (read socket 512 t).0

      answers :
          ((o : Bytes) (v : TcpTransfering S Addr)
            → length (input v.stream) < fuel
            → Finishes o v (read_loop socket fuel o v))
          → (a : Io ReadStatus) → (read socket 512 t).1 ≡ a
          → Reads t (read socket 512 t)
          → Finishes out t (read_loop socket (suc fuel) out t)
      answers rest (ok (data_read bs)) q h =
          let (c, p) = subst (λ a. Reads t (u, a)) q h in
          let size = ap length c.bytes in
          let (r, f, d) =
            rest (out ++ bs) u (omega (arith, size, length-append bs (input u.stream))) in
          (r, read_loop_data fuel out t bs q ∙ f, further out bs t u r c d)
      answers rest (ok read_blocked) q h =
          let c = subst (λ a. Reads t (u, a)) q h in
          ((u, ok out), rw (read_loop, q) refl, ([], c, inl (ap ok (sym (append-nil out)))))
      answers rest (ok read_closed) q h =
          let (c, d) = subst (λ a. Reads t (u, a)) q h in
          ((u, ok out), rw (read_loop, q) refl, ([], c, inl (ap ok (sym (append-nil out)))))
      answers rest (err e) q h =
          let (c, d) = subst (λ a. Reads t (u, a)) q h in
          ((u, err e), rw (read_loop, q) refl, ([], c, inr (e, refl, d)))

  -- With fuel for the bytes that the peer sends, `read_available` returns. What it returns is what it
  -- took from the stream, in its order, whatever the sizes in which the bytes came, and the counter
  -- grows by as many; if instead it returns an error, then the connection is done, and what it took
  -- before is counted and lost. It touches no bytes that wait for being sent. The stream hands its bytes
  -- over in their order.
  pub read_available-takes :
      (fuel : ℕ) (t : TcpTransfering S Addr)
      → length (input t.stream) < fuel
      → (r : TcpTransfering S Addr × Io Bytes) × (read_available socket fuel t ≡ some r)
        × ((got : Bytes) × (input t.stream ≡ got ++ input r.0.stream)
            × (r.0.bytes_received ≡ t.bytes_received + length got)
            × (r.0.pending_write ≡ t.pending_write)
            × ((r.1 ≡ ok got) ⊎ ((e : ℕ) × (r.1 ≡ err e) × (r.0.done ≡ true))))
  unfolding read_available
  read_available-takes fuel t l =
      let (r, e, (got, c, k)) = read_loop-Finishes fuel [] t l in
      (r, e, (got, c.bytes, c.counter, c.unsent, k))
