-- ===== src/Debugging/Retaining.antt =====
-- src/system_debugging.rs: what `retain_mut` keeps.
use system_core_port_test.Prelude.{◌≡◌, refl, Bool, true, false, Option, some, List, [], ◌∷◌, All}
use system_core_port_test.Debugging.{retain_mut}

module _ {ℓ} {A : Type ℓ} (test : A → Option (A × Bool)) (Outcome : A → A × Bool → Type ℓ) where
  -- The items that the test kept, as it left them, in their order.
  pub data Retained : List A → List A → Type ℓ where
    nobody : Retained [] []
    stays :
        (x y : A) {xs ys : List A}
        → test x ≡ some (y, true)
        → Outcome x (y, true)
        → Retained xs ys
        → Retained (x ∷ xs) (y ∷ ys)
    goes :
        (x y : A) {xs ys : List A}
        → test x ≡ some (y, false)
        → Outcome x (y, false)
        → Retained xs ys
        → Retained (x ∷ xs) ys

  abbrev pub Tested : A → Type ℓ
  Tested x = (r : A × Bool) × (test x ≡ some r) × Outcome x r

  pub retain_mut-Retained :
      (xs : List A)
      → All Tested xs
      → (ys : List A) × (retain_mut test xs ≡ some ys) × Retained xs ys
  unfolding retain_mut
  retain_mut-Retained [] h = ([], refl, nobody)
  retain_mut-Retained (x ∷ xs) (((y, true), e, p), h) =
      let (ys, f, r) = retain_mut-Retained xs h in (y ∷ ys, rw (e, f) refl, stays x y e p r)
  retain_mut-Retained (x ∷ xs) (((y, false), e, p), h) =
      let (ys, f, r) = retain_mut-Retained xs h in (ys, rw (e, f) refl, goes x y e p r)

  -- What holds of every item that is kept.
  pub Retained-All :
      (P : A → Type ℓ) (xs ys : List A)
      → ((x y : A) → Outcome x (y, true) → P y)
      → Retained xs ys
      → All P ys
  Retained-All P xs ys h nobody = tt
  Retained-All P xs ys h (stays x y e p r) = (h x y p, Retained-All P _ _ h r)
  Retained-All P xs ys h (goes x y e p r) = Retained-All P _ ys h r
