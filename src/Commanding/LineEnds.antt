-- ===== src/Commanding/LineEnds.antt =====
-- src/system_commanding.rs: the line ends that `normalize_lf_to_crlf` leaves.
use system_core_port_test.Prelude.{
  ℕ, ◌≡◌, inl, inr, refl, ap, ◌∙◌, Bool, true, false, ◌&&◌, ◌||◌, not, [], ◌∷◌, ◌==◌, arith,
  Bool-cases, ==_iff, if◌then◌else◌,
}
use system_core_port_test.Text.{Text}
use system_core_port_test.Commanding.Ingest.{normalize_lf_to_crlf}

-- Every "\n" follows a "\r"; the flag says whether a "\r" was just before.
abbrev pub crlf_only : Bool → Text → Bool
crlf_only after_cr [] = true
crlf_only after_cr (c ∷ cs) = (not (c == 10) || after_cr) && crlf_only (c == 13) cs

weaker : (cs : Text) → crlf_only false cs ≡ true → crlf_only true cs ≡ true
weaker [] h = refl
weaker (c ∷ cs) h = ground arith

normalize-crlf_only : (t : Text) → crlf_only false (normalize_lf_to_crlf t) ≡ true
unfolding normalize_lf_to_crlf
normalize-crlf_only [] = refl
normalize-crlf_only (c ∷ []) = ground arith
normalize-crlf_only (c ∷ d ∷ cs) =
    let after_two = normalize-crlf_only cs in
    let after_one = normalize-crlf_only (d ∷ cs) in
    let weak = weaker (normalize_lf_to_crlf (d ∷ cs)) after_one in
    elim (Bool-cases (c == 13)) [
      | inl e ↦ elim (Bool-cases (d == 10)) [ inl k ↦ rw (e, k) after_two | inr k ↦ rw (e, k) weak ]
      | inr e ↦ elim (Bool-cases (c == 10)) [
        | inl k ↦ rw (e, k) after_one
        | inr k ↦ rw (e, k) (rw (k, e) after_one)
      ]
    ]

crlf_only-fixed : (t : Text) → crlf_only false t ≡ true → normalize_lf_to_crlf t ≡ t
unfolding normalize_lf_to_crlf
crlf_only-fixed [] h = refl
crlf_only-fixed (c ∷ []) h = elim (Bool-cases (c == 10)) [
  | inl k ↦ absurd (cc (rw k at h))
  | inr k ↦ rw k refl
]
crlf_only-fixed (c ∷ d ∷ cs) h = elim (Bool-cases (c == 13)) [
  | inl e ↦ elim (Bool-cases (d == 10)) [
    | inl k ↦
        let two : 13 ∷ 10 ∷ cs ≡ c ∷ d ∷ cs = cc ((==_iff c 13).0 e, (==_iff d 10).0 k) in
        let rest : crlf_only false cs ≡ true = ground arith in
        rw (e, k) (ap (λ l. 13 ∷ 10 ∷ l) (crlf_only-fixed cs rest) ∙ two)
    | inr k ↦
        let one : 13 ∷ d ∷ cs ≡ c ∷ d ∷ cs = cc ((==_iff c 13).0 e) in
        let rest : crlf_only false (d ∷ cs) ≡ true = ground arith in
        rw (e, k) (ap (λ l. 13 ∷ l) (crlf_only-fixed (d ∷ cs) rest) ∙ one)
  ]
  | inr e ↦ elim (Bool-cases (c == 10)) [
    | inl k ↦ absurd (cc (rw k at h))
    | inr k ↦
        let rest : crlf_only false (d ∷ cs) ≡ true = ground arith in
        rw (e, k) (ap (λ l. c ∷ l) (crlf_only-fixed (d ∷ cs) rest))
  ]
]

-- One look at each character: a "\n" gets a "\r" in front of it if it follows none, and all else stays.
abbrev pub with_returns : Bool → Text → Text
with_returns after_cr [] = []
with_returns after_cr (c ∷ cs) =
    if c == 10 && not after_cr
    then 13 ∷ c ∷ with_returns false cs
    else c ∷ with_returns (c == 13) cs

with_returns-kept :
    (d : ℕ) (cs : Text)
    → (d == 10) ≡ false
    → with_returns false (d ∷ cs) ≡ d ∷ with_returns (d == 13) cs
with_returns-kept d cs k = rw k refl

normalize-with_returns : (t : Text) → normalize_lf_to_crlf t ≡ with_returns false t
unfolding normalize_lf_to_crlf
normalize-with_returns [] = refl
normalize-with_returns (c ∷ []) = elim (Bool-cases (c == 10)) [
  | inl k ↦ rw (k, (==_iff c 10).0 k) refl
  | inr k ↦ rw k refl
]
normalize-with_returns (c ∷ d ∷ cs) =
    let after_two = normalize-with_returns cs in
    let after_one = normalize-with_returns (d ∷ cs) in
    elim (Bool-cases (c == 13)) [
      | inl e ↦ elim (Bool-cases (d == 10)) [
        | inl k ↦ rw ((==_iff c 13).0 e, (==_iff d 10).0 k) (ap (λ l. 13 ∷ 10 ∷ l) after_two)
        | inr k ↦
            rw ((==_iff c 13).0 e, k) (ap (λ l. 13 ∷ l) (after_one ∙ with_returns-kept d cs k))
      ]
      | inr e ↦ elim (Bool-cases (c == 10)) [
        | inl k ↦ rw ((==_iff c 10).0 k) (ap (λ l. 13 ∷ 10 ∷ l) after_one)
        | inr k ↦ rw (e, k) (ap (λ l. c ∷ l) after_one)
      ]
    ]

-- `normalize_lf_to_crlf` puts a "\r" in front of each "\n" that follows none, and changes nothing else. So
-- each "\n" follows a "\r" afterwards, a text that is so already is left as it is, and nothing changes
-- when it is applied again.
pub normalize_lf_to_crlf_lem :
    (t : Text)
    → (normalize_lf_to_crlf t ≡ with_returns false t)
      × (crlf_only false (normalize_lf_to_crlf t) ≡ true)
      × (crlf_only false t ≡ true → normalize_lf_to_crlf t ≡ t)
      × (normalize_lf_to_crlf (normalize_lf_to_crlf t) ≡ normalize_lf_to_crlf t)
normalize_lf_to_crlf_lem t = (
  normalize-with_returns t,
  normalize-crlf_only t,
  crlf_only-fixed t,
  crlf_only-fixed _ (normalize-crlf_only t),
)
