-- ===== src/Pipe/Changes.antt =====
-- src/pipe.rs: what a change under one lock, or under the locks of the children, does to each pipe.
use system_core_port_test.Prelude.{
  ℕ, zero, suc, ◌≡◌, inl, inr, refl, sym, ap, ◌∙◌, false, Option, none, some, List, [], ◌∷◌, ◌++◌,
  ◌==◌, if◌then◌else◌, take, drop, contains, arith, append_assoc, append-nil, Distinct, Bool-cases,
  ==_iff,
}
use system_core_port_test.Pipe.{PipeEntry, PipeState, Store, modify, map_state, entries_of}
use system_core_port_test.Pipe.Push.{push_if_room, broadcast}

module _ {ℓ} {A : Type ℓ} where
  pub modify-same :
      (n : ℕ) (f : PipeState A → PipeState A) (s : Store A) → modify n f s n ≡ map_state f (s n)
  modify-same n f s = rw ((==_iff n n).1 refl)

  pub modify-other :
      (n p : ℕ) (f : PipeState A → PipeState A) (s : Store A)
      → (p == n) ≡ false
      → modify n f s p ≡ s p
  modify-other n p f s e = rw e

  pub broadcast-at :
      (e : PipeEntry A) (cs : List ℕ) (s : Store A) (p : ℕ)
      → Distinct cs
      → broadcast e cs s p ≡ (if contains p cs then map_state (push_if_room e) (s p) else s p)
  unfolding broadcast
  broadcast-at e [] s p h = refl
  broadcast-at e (c ∷ cs) s p h =
      broadcast-at e cs (modify c (push_if_room e) s) p h.1 ∙ elim (Bool-cases (c == p)) [
        | inl t ↦
            let q = (==_iff c p).0 t in
            rw (← q) (rw (h.0, modify-same c (push_if_room e) s, (==_iff c c).1 refl) refl)
        | inr t ↦ let q : (p == c) ≡ false = ground arith in rw (q, t) refl
      ]

  -- The first entries, gone from a pipe, or entered at its end.
  abbrev pub drop_entries : ℕ → PipeState A → PipeState A
  drop_entries n s = record s { entries = drop n s.entries }

  abbrev pub append_entries : List (PipeEntry A) → PipeState A → PipeState A
  append_entries es s = record s { entries = s.entries ++ es }

  pub entries_of-map :
      (f : PipeState A → PipeState A) (g : List (PipeEntry A) → List (PipeEntry A))
      → ((s : PipeState A) → (f s).entries ≡ g s.entries)
      → g [] ≡ []
      → (o : Option (PipeState A)) → entries_of (map_state f o) ≡ g (entries_of o)
  entries_of-map f g h z none = sym z
  entries_of-map f g h z (some s) = h s

  pub drop-nil : (k : ℕ) → ◌≡◌ {A = List (PipeEntry A)} (drop k []) []
  drop-nil zero = refl
  drop-nil (suc k) = refl

  pub drop-suc : (k : ℕ) (xs : List (PipeEntry A)) → drop k (drop 1 xs) ≡ drop (suc k) xs
  drop-suc k [] = drop-nil k
  drop-suc k (x ∷ xs) = refl

  pub take-suc :
      (k : ℕ) (xs : List (PipeEntry A)) → take 1 xs ++ take k (drop 1 xs) ≡ take (suc k) xs
  take-suc zero [] = refl
  take-suc (suc k) [] = refl
  take-suc k (x ∷ xs) = refl

  pub map_state-drop :
      (k : ℕ) (o : Option (PipeState A))
      → map_state (drop_entries k) (map_state (drop_entries 1) o)
        ≡ map_state (drop_entries (suc k)) o
  map_state-drop k none = refl
  map_state-drop k (some s) = ap (λ es. some (record s { entries = es })) (drop-suc k s.entries)

  pub map_state-append :
      (xs ys : List (PipeEntry A)) (o : Option (PipeState A))
      → map_state (append_entries ys) (map_state (append_entries xs) o)
        ≡ map_state (append_entries (xs ++ ys)) o
  map_state-append xs ys none = refl
  map_state-append xs ys (some s) =
      ap (λ es. some (record s { entries = es })) (append_assoc s.entries xs ys)

  pub map_state-nothing : (o : Option (PipeState A)) → o ≡ map_state (append_entries []) o
  map_state-nothing none = refl
  map_state-nothing (some s) =
      ap (λ es. some (record s { entries = es })) (sym (append-nil s.entries))

  pub map_state-all : (o : Option (PipeState A)) → o ≡ map_state (drop_entries 0) o
  map_state-all none = refl
  map_state-all (some s) = refl
