-- ===== src/Text/Lines.antt =====
-- Texts and their lines.
use system_core_port_test.Prelude.{
  ℕ, ◌≡◌, refl, sym, ap, subst, ◌∙◌, false, List, [], ◌∷◌, ◌++◌, ◌==◌, ◌&&◌, if◌then◌else◌,
  is_empty, All, append_assoc,
}
use system_core_port_test.Text.{Text, is_whitespace, trim_end}

abbrev pub onto_first : ℕ → List Text → List Text
onto_first c [] = (c ∷ []) ∷ []
onto_first c (l ∷ ls) = (c ∷ l) ∷ ls

-- `str::lines`: each without its "\n".
unfoldable pub lines : Text → List Text
lines [] = []
lines (c ∷ cs) = if c == 10 then [] ∷ lines cs else onto_first c (lines cs)

unfoldable pub unlines : List Text → Text
unlines [] = []
unlines (l ∷ ls) = l ++ (10 ∷ unlines ls)

-- A line that ends with something visible.
pub record Line (l : Text) : Type 0 where
  pub front : Text
  pub last : ℕ
  pub is_front : l ≡ front ++ last ∷ []
  pub visible : is_whitespace last ≡ false
  pub one_line : All (λ c. (c == 10) ≡ false) l

lines-front :
    (l rest : Text) → All (λ c. (c == 10) ≡ false) l → lines (l ++ (10 ∷ rest)) ≡ l ∷ lines rest
unfolding lines
lines-front [] rest h = refl
lines-front (c ∷ cs) rest h = rw (h.0, lines-front cs rest h.1) refl

lines-last :
    (xs : Text) (x : ℕ)
    → All (λ c. (c == 10) ≡ false) (xs ++ x ∷ [])
    → lines (xs ++ x ∷ []) ≡ (xs ++ x ∷ []) ∷ []
unfolding lines
lines-last [] x h = rw h.0 refl
lines-last (c ∷ cs) x h = rw (h.0, lines-last cs x h.1) refl

trim_end-line :
    (xs : Text) (x : ℕ) → is_whitespace x ≡ false → trim_end (xs ++ (x ∷ 10 ∷ [])) ≡ xs ++ x ∷ []
unfolding trim_end is_whitespace
trim_end-line [] x h = rw h refl
trim_end-line (y ∷ ys) x h = rw (trim_end-line ys x h) (ends ys)
  where
    ends :
        (zs : Text)
        → (if is_empty (zs ++ x ∷ []) && is_whitespace y then [] else y ∷ (ys ++ x ∷ []))
          ≡ y ∷ (ys ++ x ∷ [])
    ends [] = refl
    ends (z ∷ zs) = refl

trim_end-append :
    (xs ys : Text)
    → is_empty (trim_end ys) ≡ false
    → (trim_end (xs ++ ys) ≡ xs ++ trim_end ys) × (is_empty (trim_end (xs ++ ys)) ≡ false)
unfolding trim_end
trim_end-append [] ys h = (refl, h)
trim_end-append (x ∷ xs) ys h =
    let (p, e) = trim_end-append xs ys h in (rw e (ap (λ t. x ∷ t) p), rw e refl)

alone-Line : (l : Text) → Line l → (lines l ≡ l ∷ []) × (is_empty l ≡ false)
alone-Line l k =
    let one = subst (All (λ c. (c == 10) ≡ false)) k.is_front k.one_line in
    (rw k.is_front (lines-last k.front k.last one), rw k.is_front (some_text k.front))
  where
    some_text : (xs : Text) → is_empty (xs ++ k.last ∷ []) ≡ false
    some_text [] = refl
    some_text (x ∷ xs) = refl

-- What `trim_end` leaves of lines that end visibly is these lines.
pub lines-trim_end :
    (l : Text) (ls : List Text)
    → All Line (l ∷ ls)
    → (lines (trim_end (unlines (l ∷ ls))) ≡ l ∷ ls)
      × (is_empty (trim_end (unlines (l ∷ ls))) ≡ false)
unfolding unlines
lines-trim_end l [] h =
    let k = h.0 in
    let trimmed : trim_end (l ++ 10 ∷ []) ≡ l =
      ap (λ t. trim_end (t ++ 10 ∷ [])) k.is_front
      ∙ ap trim_end (append_assoc k.front (k.last ∷ []) (10 ∷ []))
      ∙ trim_end-line k.front k.last k.visible
      ∙ sym k.is_front in
    rw trimmed (alone-Line l k)
lines-trim_end l (m ∷ ls) h =
    let (p, e) = lines-trim_end m ls h.1 in
    let (q, f) = trim_end-append (l ++ 10 ∷ []) (unlines (m ∷ ls)) e in
    let whole : trim_end (l ++ (10 ∷ unlines (m ∷ ls))) ≡ l ++ (10 ∷ trim_end (unlines (m ∷ ls))) =
      ap trim_end (sym (append_assoc l (10 ∷ []) (unlines (m ∷ ls))))
      ∙ q
      ∙ append_assoc l (10 ∷ []) (trim_end (unlines (m ∷ ls))) in
    (
      ap lines whole ∙ lines-front l (trim_end (unlines (m ∷ ls))) h.0.one_line ∙ ap (λ r. l ∷ r) p,
      ap is_empty (ap trim_end (sym (append_assoc l (10 ∷ []) (unlines (m ∷ ls))))) ∙ f,
    )
