-- ===== src/Commanding/Ordered.antt =====
-- src/system_commanding.rs: `command_sort` is a total order on what it looks at.
use Prim.Native.Nat.{compare, Ordering}
use system_core_port_test.Prelude.{
  ℕ, ◌≡◌, refl, sym, ap, ◌∙◌, Bool, true, false, not, [], ◌∷◌, arith, is_empty,
}
use system_core_port_test.Text.{Text}
use system_core_port_test.Commanding.Registry.{
  SystemCommand, internal_cmd_class, cmp_text, eq_text, command_sort,
}

-- The first difference decides.
abbrev pub lex : Ordering → Ordering → Ordering
lex Ordering.lt y = Ordering.lt
lex Ordering.gt y = Ordering.gt
lex Ordering.eq y = y

abbrev pub flip : Ordering → Ordering
flip Ordering.lt = Ordering.gt
flip Ordering.gt = Ordering.lt
flip Ordering.eq = Ordering.eq

-- `true` comes first.
abbrev pub cmp_bool : Bool → Bool → Ordering
cmp_bool true true = Ordering.eq
cmp_bool true false = Ordering.lt
cmp_bool false true = Ordering.gt
cmp_bool false false = Ordering.eq

-- From `a` against `b` and `b` against `c` to `a` against `c`, where these do not turn back.
abbrev pub Chain : Ordering → Ordering → Ordering → Type 0
Chain Ordering.lt Ordering.lt z = z ≡ Ordering.lt
Chain Ordering.lt Ordering.eq z = z ≡ Ordering.lt
Chain Ordering.lt Ordering.gt z = Unit
Chain Ordering.eq Ordering.lt z = z ≡ Ordering.lt
Chain Ordering.eq Ordering.eq z = z ≡ Ordering.eq
Chain Ordering.eq Ordering.gt z = Unit
Chain Ordering.gt y z = Unit

lex-Chain :
    (x y z x' y' z' : Ordering)
    → Chain x y z
    → Chain x' y' z'
    → Chain (lex x x') (lex y y') (lex z z')
lex-Chain Ordering.lt Ordering.lt z x' y' z' h k = rw h refl
lex-Chain Ordering.lt Ordering.eq z x' Ordering.lt z' h k = rw h refl
lex-Chain Ordering.lt Ordering.eq z x' Ordering.eq z' h k = rw h refl
lex-Chain Ordering.lt Ordering.eq z x' Ordering.gt z' h k = tt
lex-Chain Ordering.lt Ordering.gt z x' y' z' h k = tt
lex-Chain Ordering.eq Ordering.lt z Ordering.lt y' z' h k = rw h refl
lex-Chain Ordering.eq Ordering.lt z Ordering.eq y' z' h k = rw h refl
lex-Chain Ordering.eq Ordering.lt z Ordering.gt y' z' h k = tt
lex-Chain Ordering.eq Ordering.eq z x' y' z' h k = rw h k
lex-Chain Ordering.eq Ordering.gt z Ordering.lt y' z' h k = tt
lex-Chain Ordering.eq Ordering.gt z Ordering.eq y' z' h k = tt
lex-Chain Ordering.eq Ordering.gt z Ordering.gt y' z' h k = tt
lex-Chain Ordering.gt y z x' y' z' h k = tt

lex-flip : (x y : Ordering) → flip (lex x y) ≡ lex (flip x) (flip y)
lex-flip Ordering.lt y = refl
lex-flip Ordering.eq y = refl
lex-flip Ordering.gt y = refl

compare-flip : (a b : ℕ) → compare b a ≡ flip (compare a b)
compare-flip a b = ground arith

compare-Chain : (a b c : ℕ) → Chain (compare a b) (compare b c) (compare a c)
compare-Chain a b c = ground arith

cmp_bool-flip : (a b : Bool) → cmp_bool b a ≡ flip (cmp_bool a b)
cmp_bool-flip a b = ground arith

cmp_bool-Chain : (a b c : Bool) → Chain (cmp_bool a b) (cmp_bool b c) (cmp_bool a c)
cmp_bool-Chain a b c = ground arith

cmp_text-lex :
    (a b : ℕ) (as' bs : Text) → cmp_text (a ∷ as') (b ∷ bs) ≡ lex (compare a b) (cmp_text as' bs)
unfolding cmp_text
cmp_text-lex a b as' bs = ground arith

cmp_text-flip : (a b : Text) → cmp_text b a ≡ flip (cmp_text a b)
unfolding cmp_text
cmp_text-flip [] [] = refl
cmp_text-flip [] (b ∷ bs) = refl
cmp_text-flip (a ∷ as') [] = refl
cmp_text-flip (a ∷ as') (b ∷ bs) =
    cmp_text-lex b a bs as'
    ∙ ap (λ x. lex x (cmp_text bs as')) (compare-flip a b)
    ∙ ap (lex (flip (compare a b))) (cmp_text-flip as' bs)
    ∙ sym (lex-flip (compare a b) (cmp_text as' bs))
    ∙ ap flip (sym (cmp_text-lex a b as' bs))

Chain-gt : (y z : Ordering) → Chain Ordering.gt y z
Chain-gt y z = tt

cmp_text-Chain : (a b c : Text) → Chain (cmp_text a b) (cmp_text b c) (cmp_text a c)
unfolding cmp_text
cmp_text-Chain [] [] [] = refl
cmp_text-Chain [] [] (c ∷ cs) = refl
cmp_text-Chain [] (b ∷ bs) [] = tt
cmp_text-Chain [] (b ∷ bs) (c ∷ cs) = ends (cmp_text (b ∷ bs) (c ∷ cs))
  where
    ends : (y : Ordering) → Chain Ordering.lt y Ordering.lt
    ends Ordering.lt = refl
    ends Ordering.eq = refl
    ends Ordering.gt = tt
cmp_text-Chain (a ∷ as') [] c = tt
cmp_text-Chain (a ∷ as') (b ∷ bs) [] = turns (cmp_text (a ∷ as') (b ∷ bs))
  where
    turns : (x : Ordering) → Chain x Ordering.gt Ordering.gt
    turns Ordering.lt = tt
    turns Ordering.eq = tt
    turns Ordering.gt = tt
cmp_text-Chain (a ∷ as') (b ∷ bs) (c ∷ cs) =
    rw (cmp_text-lex a b as' bs, cmp_text-lex b c bs cs, cmp_text-lex a c as' cs)
      (lex-Chain (compare a b) (compare b c) (compare a c) (cmp_text as' bs) (cmp_text bs cs)
        (cmp_text as' cs) (compare-Chain a b c) (cmp_text-Chain as' bs cs))

module _ {H : Type 0} where
  abbrev pub internal : SystemCommand H → Bool
  internal c = eq_text c.group internal_cmd_class

  abbrev pub with_shortcut : SystemCommand H → Bool
  with_shortcut c = not (is_empty c.shortcut)

  abbrev pub by_name : SystemCommand H → SystemCommand H → Ordering
  by_name c d = lex (cmp_bool (with_shortcut c) (with_shortcut d)) (cmp_text c.id d.id)

  abbrev pub by_group : SystemCommand H → SystemCommand H → Ordering
  by_group c d = lex (cmp_text c.group d.group) (by_name c d)

  -- The internal class first, then the group, then those with a shortcut, then the id.
  abbrev pub by_all : SystemCommand H → SystemCommand H → Ordering
  by_all c d = lex (cmp_bool (internal c) (internal d)) (by_group c d)

  pub command_sort-lex : (c d : SystemCommand H) → command_sort c d ≡ by_all c d
  unfolding command_sort
  command_sort-lex c d = ground arith

  pub by_all-flip : (c d : SystemCommand H) → by_all d c ≡ flip (by_all c d)
  by_all-flip c d =
      simp
        (
          lex-flip,
          sym (cmp_bool-flip (internal c) (internal d)),
          sym (cmp_text-flip c.group d.group),
          sym (cmp_bool-flip (with_shortcut c) (with_shortcut d)),
          sym (cmp_text-flip c.id d.id),
        )
        refl

  pub by_all-Chain : (c d e : SystemCommand H) → Chain (by_all c d) (by_all d e) (by_all c e)
  by_all-Chain c d e =
      lex-Chain (cmp_bool (internal c) (internal d)) (cmp_bool (internal d) (internal e))
        (cmp_bool (internal c) (internal e)) (by_group c d) (by_group d e) (by_group c e)
        (cmp_bool-Chain (internal c) (internal d) (internal e))
        (lex-Chain (cmp_text c.group d.group) (cmp_text d.group e.group) (cmp_text c.group e.group)
          (by_name c d) (by_name d e) (by_name c e) (cmp_text-Chain c.group d.group e.group)
          (lex-Chain (cmp_bool (with_shortcut c) (with_shortcut d))
            (cmp_bool (with_shortcut d) (with_shortcut e))
            (cmp_bool (with_shortcut c) (with_shortcut e)) (cmp_text c.id d.id) (cmp_text d.id e.id)
            (cmp_text c.id e.id)
            (cmp_bool-Chain (with_shortcut c) (with_shortcut d) (with_shortcut e))
            (cmp_text-Chain c.id d.id e.id)))
