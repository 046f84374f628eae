-- ===== src/Net/Apart.antt =====
-- src/net.rs: what reading leaves alone.
use system_core_port_test.Prelude.{
  ℕ, zero, suc, eq_of_some, ◌≡◌, inl, inr, refl, ap, ◌∙◌, not, some, [], ◌∷◌, ◌++◌, Bool-cases,
  if_no, if_yes, subst,
}
use system_core_port_test.Net.{
  Bytes, Io, ok, err, Answer, answered, would_block, failed, Socket, TcpTransfering, ReadStatus,
  data_read, read_blocked, read_closed, after_read, read, read_loop, read_available,
}

module _ {S Addr : Type 0} (socket : Socket S) (P : TcpTransfering S Addr → Type 0)
    (step : (t : TcpTransfering S Addr) → P t → P (read socket 512 t).0) where
  read_loop-keeps :
      (fuel : ℕ) (out : Bytes) (t : TcpTransfering S Addr) (r : TcpTransfering S Addr × Io Bytes)
      → read_loop socket fuel out t ≡ some r
      → P t
      → P r.0
  unfolding read_loop
  read_loop-keeps zero out t r e p = cc
  read_loop-keeps (suc fuel) out t r e p =
      answers (λ o u f. read_loop-keeps fuel o u r f) ((read socket 512 t).1) e (step t p)
    where
      u : TcpTransfering S Addr
      u = (read socket 512 t).0

      answers :
          ((o : Bytes) (v : TcpTransfering S Addr)
            → read_loop socket fuel o v ≡ some r
            → P v
            → P r.0)
          → (a : Io ReadStatus)
          → (elim a [
            | ok status ↦ elim status [
              | data_read bs ↦ read_loop socket fuel (out ++ bs) u
              | read_blocked ↦ some (u, ok out)
              | read_closed ↦ some (u, ok out)
            ]
            | err c ↦ some (u, err c)
          ])
            ≡ some r
          → P u
          → P r.0
      answers rest (ok (data_read bs)) f q = rest (out ++ bs) u f q
      answers rest (ok read_blocked) f q = subst (λ x. P x.0) (eq_of_some f) q
      answers rest (ok read_closed) f q = subst (λ x. P x.0) (eq_of_some f) q
      answers rest (err c) f q = subst (λ x. P x.0) (eq_of_some f) q

  -- What every `read` keeps, `read_available` keeps.
  pub read_available-keeps :
      (fuel : ℕ) (t : TcpTransfering S Addr) (r : TcpTransfering S Addr × Io Bytes)
      → read_available socket fuel t ≡ some r
      → P t
      → P r.0
  unfolding read_available
  read_available-keeps fuel t r e p = read_loop-keeps fuel [] t r e p

-- Reading takes nothing of what is sent.
pub read-taken :
    {S Addr : Type 0} (socket : Socket S) (taken : S → Bytes)
    → ((n : ℕ) (s : S) → taken (socket.read n s).0 ≡ taken s)
    → (n : ℕ) (t : TcpTransfering S Addr) → taken (read socket n t).0.stream ≡ taken t.stream
unfolding read
read-taken {S} {Addr} socket taken apart n t = elim (Bool-cases (not t.read_ready)) [
  | inl e ↦ ap taken_by (if_yes _ e refl)
  | inr e ↦ ap taken_by (if_no (t, ok read_blocked) e refl) ∙ (elim (Bool-cases t.done) [
    | inl f ↦ ap taken_by (if_yes _ f refl)
    | inr f ↦
        ap taken_by (if_no (t, ok read_closed) f refl)
        ∙ (answered_lem (socket.read n t.stream).1 ∙ apart n t.stream)
  ])
]
  where
    taken_by : TcpTransfering S Addr × Io ReadStatus → Bytes
    taken_by r = taken r.0.stream

    answered_lem :
        (a : Answer Bytes)
        → taken (after_read socket t ((socket.read n t.stream).0, a)).0.stream
          ≡ taken (socket.read n t.stream).0
    answered_lem (answered []) = refl
    answered_lem (answered (b ∷ bs)) = refl
    answered_lem would_block = refl
    answered_lem (failed e) = refl
