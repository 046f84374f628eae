-- ===== src/Net/Queue.antt =====
-- src/net.rs: the queue of accepted connections.
use system_core_port_test.Prelude.{
  ℕ, zero, suc, ◌+◌, ◌-◌, ◌≤◌, ◌<◌, ◌≡◌, inl, inr, refl, sym, ap, ◌∙◌, false, Option, some, List,
  [], ◌∷◌, ◌++◌, leb, max, length, arith, Bool-cases, leb→lt, append_assoc, append-nil,
  length-append,
}
use system_core_port_test.Net.{
  Io, ok, err, Answer, answered, would_block, failed, TcpTransfering, from_stream,
}
use system_core_port_test.Net.Listening.{
  Listeners, TcpListening, AcceptEnd, queue_full, drained, broken, enqueue, accept_loop, accept_all,
  accept_ready,
}

ok-eq : {m n : ℕ} → ok m ≡ ok n → m ≡ n
ok-eq h = cc

module _ {W S Addr : Type 0} (system : Listeners W S Addr) where
  -- The queue grew at its end, by as many connections as were counted, and not past its limit.
  pub record Grown (t u : TcpListening S Addr) : Type 0 where
    pub new : List (TcpTransfering S Addr)
    pub queued : u.peers ≡ t.peers ++ new
    pub counted : u.connections_created ≡ t.connections_created + length new
    pub bounded : length u.peers ≤ max t.max_conn_queued (length t.peers)
    pub limit : u.max_conn_queued ≡ t.max_conn_queued

  Grown-refl : (t : TcpListening S Addr) → Grown t t
  Grown-refl t = record {
    new = [];
    queued = sym (append-nil t.peers);
    counted = omega arith;
    bounded = omega arith;
    limit = refl;
  }

  length-queued :
      (t u : TcpListening S Addr) (g : Grown t u) → length u.peers ≡ length t.peers + length g.new
  length-queued t u g = ap length g.queued ∙ length-append t.peers g.new

  Grown-trans : (t u v : TcpListening S Addr) → Grown t u → Grown u v → Grown t v
  Grown-trans t u v g h = record {
    new = g.new ++ h.new;
    queued = h.queued ∙ ap (λ l. l ++ h.new) g.queued ∙ append_assoc t.peers g.new h.new;
    counted = omega (arith, g.counted, h.counted, length-append g.new h.new);
    bounded = omega (arith, h.bounded, g.bounded, g.limit);
    limit = h.limit ∙ g.limit;
  }

  enqueue-Grown :
      (t : TcpListening S Addr) (p : TcpTransfering S Addr)
      → length t.peers < t.max_conn_queued
      → Grown t (enqueue p t)
  enqueue-Grown t p l = record {
    new = p ∷ [];
    queued = refl;
    counted = omega arith;
    bounded = omega (arith, length-append t.peers (p ∷ []));
    limit = refl;
  }

  abbrev Fills : TcpListening S Addr → ℕ → Option (W × TcpListening S Addr × ℕ × AcceptEnd) → Type 0
  Fills t accepted o =
      (r : W × TcpListening S Addr × ℕ × AcceptEnd) × (o ≡ some r)
      × Grown t r.1
      × (r.2 + t.connections_created ≡ accepted + r.1.connections_created)

  accept_loop-Fills :
      (fuel listener : ℕ) (w : W) (t : TcpListening S Addr) (accepted : ℕ)
      → t.max_conn_queued - length t.peers < fuel
      → Fills t accepted (accept_loop system fuel listener w t accepted)
  unfolding accept_loop
  accept_loop-Fills zero listener w t accepted l = absurd (omega arith)
  accept_loop-Fills (suc fuel) listener w t accepted l =
      elim (Bool-cases (leb t.max_conn_queued (length t.peers))) [
        | inl e ↦
            ((w, t, accepted, queue_full), rw (e, accept_loop) refl, Grown-refl t, omega arith)
        | inr e ↦
            asked
              (λ u k.
                accept_loop-Fills fuel listener (system.accept listener w).0 u (accepted + 1) k)
              (leb→lt t.max_conn_queued (length t.peers) e) e ((system.accept listener w).1) refl
      ]
    where
      v : W
      v = (system.accept listener w).0

      asked :
          ((u : TcpListening S Addr)
            → u.max_conn_queued - length u.peers < fuel
            → Fills u (accepted + 1) (accept_loop system fuel listener v u (accepted + 1)))
          → length t.peers < t.max_conn_queued
          → leb t.max_conn_queued (length t.peers) ≡ false
          → (a : Answer S) → (system.accept listener w).1 ≡ a
          → Fills t accepted (accept_loop system (suc fuel) listener w t accepted)
      asked rest room e (answered stream) q = adopted (system.adopt stream) refl
        where
          adopted :
              (a : Io (S × Option Addr × Option Addr))
              → system.adopt stream ≡ a
              → Fills t accepted (accept_loop system (suc fuel) listener w t accepted)
          adopted (ok a) p =
              let u = enqueue (from_stream a.0 a.1 a.2) t in
              let g = enqueue-Grown t (from_stream a.0 a.1 a.2) room in
              let (r, f, h, c) = rest u (omega (arith, length-queued t u g)) in
              (r, rw (e, accept_loop) (rw (q, p) f), Grown-trans t u r.1 g h, omega (arith, c))
          adopted (err c) p = (
            (v, t, accepted, broken c),
            rw (e, accept_loop) (rw (q, p) refl),
            Grown-refl t,
            omega arith,
          )
      asked rest room e would_block q =
          ((v, t, accepted, drained), rw (e, accept_loop) (rw q refl), Grown-refl t, omega arith)
      asked rest room e (failed c) q =
          ((v, t, accepted, broken c), rw (e, accept_loop) (rw q refl), Grown-refl t, omega arith)

  -- What `accept_ready` says, against the connections that were counted.
  abbrev Says : TcpListening S Addr → TcpListening S Addr → ℕ → Io ℕ → Type 0
  Says t u accepted r =
      (n : ℕ) → r ≡ ok n → n + t.connections_created ≡ accepted + u.connections_created

  accept_all-Grown :
      (fuel : ℕ) (ls : List ℕ) (w : W) (t : TcpListening S Addr) (accepted : ℕ)
      → t.max_conn_queued - length t.peers < fuel
      → (r : W × TcpListening S Addr × Io ℕ) × (accept_all system fuel ls w t accepted ≡ some r)
        × Grown t r.1
        × Says t r.1 accepted r.2
  unfolding accept_all
  accept_all-Grown fuel [] w t accepted l =
      ((w, t, ok accepted), refl, Grown-refl t, λ n e. omega (arith, ok-eq e))
  accept_all-Grown fuel (x ∷ ls) w t accepted l =
      ended (λ v u n k. accept_all-Grown fuel ls v u n k) (accept_loop-Fills fuel x w t accepted l)
    where
      ended :
          ((v : W) (u : TcpListening S Addr) (n : ℕ)
            → u.max_conn_queued - length u.peers < fuel
            → (r : W × TcpListening S Addr × Io ℕ) × (accept_all system fuel ls v u n ≡ some r)
              × Grown u r.1
              × Says u r.1 n r.2)
          → Fills t accepted (accept_loop system fuel x w t accepted)
          → (r : W × TcpListening S Addr × Io ℕ) × (accept_all system fuel (x ∷ ls) w t accepted
              ≡ some r)
            × Grown t r.1
            × Says t r.1 accepted r.2
      ended rest ((v, u, n, queue_full), e, g, c) =
          ((v, u, ok n), rw (accept_all, e) refl, g, λ m q. omega (arith, c, ok-eq q))
      ended rest ((v, u, n, broken k), e, g, c) =
          ((v, u, err k), rw (accept_all, e) refl, g, λ m q. absurd (cc q))
      ended rest ((v, u, n, drained), e, g, c) =
          let (r, f, h, d) = rest v u n (omega (arith, l, g.limit, length-queued t u g)) in
          (r, rw (accept_all, e) f, Grown-trans t u r.1 g h, λ m q. omega (arith, c, d m q))

  -- With fuel for the free places of the queue, `accept_ready` returns. The connections that were
  -- queued stay where they are, the new ones follow them, each is counted once, also where an error
  -- ends the round, and the queue does not grow past its limit; if there was no error, the number it
  -- returns is the number of new connections.
  pub accept_ready-Grown :
      (fuel : ℕ) (w : W) (t : TcpListening S Addr)
      → t.max_conn_queued - length t.peers < fuel
      → (r : W × TcpListening S Addr × Io ℕ) × (accept_ready system fuel w t ≡ some r)
        × Grown t r.1
        × ((n : ℕ) → r.2 ≡ ok n → n + t.connections_created ≡ r.1.connections_created)
  unfolding accept_ready
  accept_ready-Grown fuel w t l =
      let (r, e, g, s) = accept_all-Grown fuel t.listeners w t 0 l in
      (r, e, g, λ n q. omega (arith, s n q))
