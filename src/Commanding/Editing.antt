-- ===== src/Commanding/Editing.antt =====
-- src/system_commanding.rs: the line editor against a zipper, the text left of the cursor, nearest
-- first, and the text right of it.
use system_core_port_test.Prelude.{
  ℕ, zero, suc, ◌+◌, ◌-◌, ◌≡◌, refl, sym, ap, ◌∙◌, inl, inr, Option, none, some, [], ◌∷◌, ◌++◌,
  ◌==◌, length, take, drop, arith, Bool-cases, le→leb, lt→ltb, le→ltb, eq_of_some, subst,
  Bool-cases, ==_iff,
}
use system_core_port_test.Text.{Text, Bytes}
use system_core_port_test.Commanding.Registry.{CommandRegistry}
use system_core_port_test.Commanding.Keys.{
  ParsedKey, char, backspace, delete, left, right, home, end,
}
use system_core_port_test.Commanding.Session.{SystemCommanding, SessionOutput, insert_at, remove_at}
use system_core_port_test.Commanding.Ingest.{Run, redraw, edited, key_step}

pub record Zipper : Type 0 where
  pub front : Bytes
  pub back : Bytes

-- The line that a zipper stands for.
abbrev pub plug : Bytes → Bytes → Bytes
plug [] r = r
plug (b ∷ l) r = plug l (b ∷ r)

plug-append : (l r t : Bytes) → plug l (r ++ t) ≡ plug l r ++ t
plug-append [] r t = refl
plug-append (b ∷ l) r t = plug-append l (b ∷ r) t

length-plug : (l r : Bytes) → length (plug l r) ≡ length l + length r
length-plug [] r = omega arith
length-plug (b ∷ l) r = omega (arith, length-plug l (b ∷ r))

take-append_length : (n : ℕ) (xs ys : Bytes) → n ≡ length xs → take n (xs ++ ys) ≡ xs
take-append_length zero [] ys h = refl
take-append_length (suc n) [] ys h = absurd (omega arith)
take-append_length zero (x ∷ xs) ys h = absurd (omega arith)
take-append_length (suc n) (x ∷ xs) ys h =
    ap (λ l. x ∷ l) (take-append_length n xs ys (omega arith))

drop-append_length : (n : ℕ) (xs ys : Bytes) → n ≡ length xs → drop n (xs ++ ys) ≡ ys
drop-append_length zero [] ys h = refl
drop-append_length (suc n) [] ys h = absurd (omega arith)
drop-append_length zero (x ∷ xs) ys h = absurd (omega arith)
drop-append_length (suc n) (x ∷ xs) ys h = drop-append_length n xs ys (omega arith)

plug-eq-append : (l r : Bytes) → plug l r ≡ plug l [] ++ r
plug-eq-append l r = plug-append l [] r

length-plug-nil : (l : Bytes) → length l ≡ length (plug l [])
length-plug-nil l = omega (arith, length-plug l [])

take-plug : (l r t : Bytes) → take (length l) (plug l r) ++ t ≡ plug l t
take-plug l r t =
    rw (plug-eq-append l r, take-append_length (length l) (plug l []) r (length-plug-nil l))
      (sym (plug-eq-append l t))

drop-plug : (l r : Bytes) → drop (length l) (plug l r) ≡ r
drop-plug l r =
    rw (plug-eq-append l r) (drop-append_length (length l) (plug l []) r (length-plug-nil l))

-- The session shows the zipper.
pub record Shows (z : Zipper) (s : SystemCommanding) : Type 0 where
  pub line_is : s.line ≡ plug z.front z.back
  pub cursor_is : s.cursor ≡ length z.front

-- The text right of the cursor, moved to its left.
abbrev pub onto : Bytes → Bytes → Bytes
onto l [] = l
onto l (b ∷ r) = onto (b ∷ l) r

plug-onto : (l r : Bytes) → plug (onto l r) [] ≡ plug l r
plug-onto l [] = refl
plug-onto l (b ∷ r) = plug-onto (b ∷ l) r

length-onto : (l r : Bytes) → length (onto l r) ≡ length l + length r
length-onto l [] = omega arith
length-onto l (b ∷ r) = omega (arith, length-onto (b ∷ l) r)

-- What an editing key does to the zipper; `none` for the other keys.
abbrev edit_at : ParsedKey → Bytes → Bytes → Option Zipper
edit_at (char ch) l r = some (record { front = ch ∷ l; back = r })
edit_at backspace [] r = some (record { front = []; back = r })
edit_at backspace (b ∷ l) r = some (record { front = l; back = r })
edit_at delete l [] = some (record { front = l; back = [] })
edit_at delete l (b ∷ r) = some (record { front = l; back = r })
edit_at left [] r = some (record { front = []; back = r })
edit_at left (b ∷ l) r = some (record { front = l; back = b ∷ r })
edit_at right l [] = some (record { front = l; back = [] })
edit_at right l (b ∷ r) = some (record { front = b ∷ l; back = r })
edit_at home l r = some (record { front = []; back = plug l r })
edit_at end l r = some (record { front = onto l r; back = [] })
edit_at _ l r = none

abbrev pub edit : ParsedKey → Zipper → Option Zipper
edit k z = edit_at k z.front z.back

pub insert_at-plug :
    (b : ℕ) (l r : Bytes) → insert_at (length l) b (plug l r) ≡ some (plug l (b ∷ r))
insert_at-plug b l r = rw (le→leb (length l) (length (plug l r)) (omega (arith, length-plug l r))) (
    ap some (ap (λ t. take (length l) (plug l r) ++ b ∷ t) (drop-plug l r) ∙ take-plug l r (b ∷ r)))

remove-plug :
    (b : ℕ) (l r : Bytes)
    → take (length l) (plug l (b ∷ r)) ++ drop (suc (length l)) (plug l (b ∷ r)) ≡ plug l r
remove-plug b l r =
    ap (λ t. take (length l) (plug l (b ∷ r)) ++ t) (drop-plug (b ∷ l) r) ∙ take-plug l (b ∷ r) r

remove_at-plug : (b : ℕ) (l r : Bytes) → remove_at (length l) (plug l (b ∷ r)) ≡ some (plug l r)
remove_at-plug b l r =
    rw (lt→ltb (length l) (length (plug l (b ∷ r))) (omega (arith, length-plug l (b ∷ r))))
      (ap some (remove-plug b l r))

module _ {H : Type 0} (call : H → Text → CommandRegistry H → Text)
    (registry : CommandRegistry H) where
  abbrev Edits : Zipper → Option Run → Type 0
  Edits z o = (r : Run) × (o ≡ some r) × Shows z r.0

  abbrev at : Bytes → ℕ → SystemCommanding → SystemCommanding
  at line cursor s = record s { line = line; cursor = cursor }

  shown_as :
      (l r : Bytes) (z : Zipper) (line : Bytes) (cursor : ℕ) (s : SystemCommanding)
      (out : SessionOutput) (o : Option Run)
      → some (record { front = l; back = r }) ≡ some z
      → line ≡ plug l r
      → cursor ≡ length l
      → o ≡ some (at line cursor s, out)
      → Edits z o
  shown_as l r z line cursor s out o e p q h =
      subst (λ z. Edits z o) (eq_of_some e)
        ((at line cursor s, out), h, record { line_is = p; cursor_is = q })

  redrawn_as :
      (l r : Bytes) (z : Zipper) (line : Bytes) (cursor : ℕ) (s : SystemCommanding)
      (out : SessionOutput) (o : Option Run)
      → some (record { front = l; back = r }) ≡ some z
      → line ≡ plug l r
      → cursor ≡ length l
      → o ≡ some (redraw (edited line cursor s) out)
      → Edits z o
  redrawn_as l r z line cursor s out o e p q h =
      subst (λ z. Edits z o) (eq_of_some e)
        (redraw (edited line cursor s) out, h, record { line_is = p; cursor_is = q })

  -- On a session whose line and cursor are written out.
  key_step-plug :
      (k : ParsedKey) (l r : Bytes) (s : SystemCommanding) (out : SessionOutput) (z : Zipper)
      → edit_at k l r ≡ some z
      → Edits z (key_step call registry k (at (plug l r) (length l) s) out)
  unfolding key_step
  key_step-plug (char ch) l r s out z e =
      redrawn_as (ch ∷ l) r z (plug l (ch ∷ r)) (length l + 1) (at (plug l r) (length l) s) out _ e
        refl (omega arith) (rw (insert_at-plug ch l r) refl)
  key_step-plug backspace [] r s out z e = shown_as [] r z _ _ s out _ e refl refl refl
  key_step-plug backspace (b ∷ l) r s out z e =
      let p : suc (length l) - 1 ≡ length l = omega arith in
      redrawn_as l r z (plug l r) (suc (length l) - 1) (at (plug (b ∷ l) r) (suc (length l)) s) out
        _ e refl p
        (rw (lt→ltb 0 (suc (length l)) (omega arith)) (rw (p, remove_at-plug b l r) refl))
  key_step-plug delete l [] s out z e =
      shown_as l [] z _ _ s out _ e refl refl
        (rw (le→ltb (length l) (length (plug l [])) (omega (arith, length-plug l []))) refl)
  key_step-plug delete l (b ∷ r) s out z e =
      redrawn_as l r z (plug l r) (length l) (at (plug l (b ∷ r)) (length l) s) out _ e refl refl (
        rw (lt→ltb (length l) (length (plug l (b ∷ r))) (omega (arith, length-plug l (b ∷ r))))
          (rw (remove-plug b l r) refl))
  key_step-plug left [] r s out z e = shown_as [] r z _ _ s out _ e refl refl refl
  key_step-plug left (b ∷ l) r s out z e =
      redrawn_as l (b ∷ r) z (plug l (b ∷ r)) (suc (length l) - 1)
        (at (plug (b ∷ l) r) (suc (length l)) s) out _ e refl (omega arith)
        (rw (lt→ltb 0 (suc (length l)) (omega arith)) refl)
  key_step-plug right l [] s out z e =
      shown_as l [] z _ _ s out _ e refl refl
        (rw (le→ltb (length l) (length (plug l [])) (omega (arith, length-plug l []))) refl)
  key_step-plug right l (b ∷ r) s out z e =
      redrawn_as (b ∷ l) r z (plug l (b ∷ r)) (length l + 1) (at (plug l (b ∷ r)) (length l) s) out
        _ e refl (omega arith)
        (rw (lt→ltb (length l) (length (plug l (b ∷ r))) (omega (arith, length-plug l (b ∷ r))))
          refl)
  key_step-plug home l r s out z e = elim (Bool-cases (length l == 0)) [
    | inl t ↦
        shown_as [] (plug l r) z _ (length l) s out _ e refl ((==_iff (length l) 0).0 t) (rw t refl)
    | inr t ↦
        redrawn_as [] (plug l r) z (plug l r) 0 (at (plug l r) (length l) s) out _ e refl refl
          (rw t refl)
  ]
  key_step-plug end l r s out z e = elim (Bool-cases (length l == length (plug l r))) [
    | inl t ↦
        shown_as (onto l r) [] z _ (length l) s out _ e (sym (plug-onto l r))
          (omega
            (arith, (==_iff (length l) (length (plug l r))).0 t, length-plug l r, length-onto l r))
          (rw t refl)
    | inr t ↦
        redrawn_as (onto l r) [] z (plug l r) (length (plug l r)) (at (plug l r) (length l) s) out _
          e (sym (plug-onto l r)) (omega (arith, length-plug l r, length-onto l r)) (rw t refl)
  ]
  key_step-plug _ l r s out z e = cc

  -- A session that shows a zipper goes, at an editing key, to one that shows what the key makes of the
  -- zipper: a character enters left of the cursor, backspace and delete take the neighbours, the
  -- arrows, home and end move the cursor, and at the ends of the line nothing happens.
  pub key_step-edit :
      (k : ParsedKey) (z z' : Zipper) (s : SystemCommanding) (out : SessionOutput)
      → Shows z s
      → edit k z ≡ some z'
      → (r : Run) × (key_step call registry k s out ≡ some r) × Shows z' r.0
  key_step-edit k z z' s out h e = rw (same) (key_step-plug k z.front z.back s out z' e)
    where
      same : s ≡ at (plug z.front z.back) (length z.front) s
      same = λ i. record s { line = h.line_is i; cursor = h.cursor_is i }
