-- ===== src/CString/Compare.antt =====
-- `memcmp` and `strcmp` decide equality, and order by signed bytes.
use k_os.Base.{
  ℕ, zero, suc, ◌+◌, ◌<◌, ◌≡◌, ◌≢◌, ◌↔◌, refl, some, ◌==◌, if◌then◌else◌, List, [], ◌∷◌, length,
  arith, Bool-cases, inl, inr, ap, ◌∙◌, sym, subst,
}
use k_os.CString.{Memory, Sign, nought, last_sign, memcmp, strcmp}
use k_os.CString.Chars.{Chars, char_ne}

abbrev pub AreBytes : Memory → Type 0
AreBytes m = (a : ℕ) → m a < 256

-- The order of two strings: that of the first bytes that differ, where a NUL ends each.
unfoldable pub lex : List ℕ → List ℕ → Sign
lex [] [] = nought
lex [] (d ∷ t) = last_sign 0 d
lex (c ∷ s) [] = last_sign c 0
lex (c ∷ s) (d ∷ t) = if c == d then lex s t else last_sign c d

-- `strcmp` of two strings ends and returns their order by signed bytes.
pub strcmp-lex :
    (fuel : ℕ) (m : Memory) (p q : ℕ) (s t : List ℕ)
    → Chars m p s
    → Chars m q t
    → length s < fuel
    → strcmp fuel m p q ≡ some (lex s t)
unfolding strcmp lex
strcmp-lex zero m p q s t c d enough = absurd (omega arith)
strcmp-lex (suc fuel) m p q [] [] c d enough = rw (c, d)
strcmp-lex (suc fuel) m p q [] (y ∷ t) c d enough = rw (c, d.0)
strcmp-lex (suc fuel) m p q (x ∷ s) [] c d enough = ground (arith, c.1)
strcmp-lex (suc fuel) m p q (x ∷ s) (y ∷ t) c d enough =
    let rest = strcmp-lex fuel m (p + 1) (q + 1) s t c.2 d.2 (omega arith) in
    rw (char_ne m p x c.0 c.1, c.0, d.0)
      (elim (Bool-cases (x == y)) [ inl same ↦ rw same rest | inr differ ↦ rw differ ])

last_sign_ne : (c d : ℕ) → c < 256 → d < 256 → c ≢ d → last_sign c d ≢ nought
last_sign_ne c d hc hd ne e = ground arith

lex-eq :
    (m : Memory) (p q : ℕ) (s t : List ℕ)
    → AreBytes m
    → Chars m p s
    → Chars m q t
    → lex s t ≡ nought
    → s ≡ t
unfolding lex
lex-eq m p q [] [] bytes c d e = refl
lex-eq m p q [] (y ∷ t) bytes c d e =
    absurd
      (last_sign_ne 0 y (omega arith) (subst (λ k. k < 256) d.0 (bytes q)) (λ z. d.1 (sym z)) e)
lex-eq m p q (x ∷ s) [] bytes c d e =
    absurd (last_sign_ne x 0 (subst (λ k. k < 256) c.0 (bytes p)) (omega arith) c.1 e)
lex-eq m p q (x ∷ s) (y ∷ t) bytes c d e = elim (Bool-cases (x == y)) [
  | inl same ↦
      let same' : x ≡ y = ground arith in
      let rest = lex-eq m (p + 1) (q + 1) s t bytes c.2 d.2 (rw same at e) in cc
  | inr differ ↦ absurd (
      last_sign_ne x y (subst (λ k. k < 256) c.0 (bytes p)) (subst (λ k. k < 256) d.0 (bytes q))
        (λ z. ground arith) (rw differ at e))
]

lex_refl : (s : List ℕ) → lex s s ≡ nought
unfolding lex
lex_refl [] = refl
lex_refl (c ∷ s) = ground (arith, lex_refl s)

-- `strcmp` of two strings returns 0 exactly when they hold the same bytes.
pub strcmp_iff :
    (fuel : ℕ) (m : Memory) (p q : ℕ) (s t : List ℕ)
    → AreBytes m
    → Chars m p s
    → Chars m q t
    → length s < fuel
    → (strcmp fuel m p q ≡ some nought) ↔ (s ≡ t)
strcmp_iff fuel m p q s t bytes c d enough =
    let e = strcmp-lex fuel m p q s t c d enough in
    (
      λ h.
          let both = sym e ∙ h in
          let same : lex s t ≡ nought = cc in lex-eq m p q s t bytes c d same,
      λ h. e ∙ ap some (ap (lex s) (sym h) ∙ lex_refl s),
    )

memcmp-eq :
    (m : Memory) (p q n : ℕ) → memcmp m p q n ≡ nought → (i : ℕ) → i < n → m (p + i) ≡ m (q + i)
unfolding memcmp
memcmp-eq m p q zero h i lt = absurd (omega arith)
memcmp-eq m p q (suc n) h zero lt =
    let e : p + 0 ≡ p = omega arith in let f : q + 0 ≡ q = omega arith in rw (e, f) (ground arith)
memcmp-eq m p q (suc n) h (suc i) lt =
    let e : p + suc i ≡ p + 1 + i = omega arith in
    let f : q + suc i ≡ q + 1 + i = omega arith in
    rw (e, f) (memcmp-eq m (p + 1) (q + 1) n (ground arith) i (omega arith))

memcmp_same :
    (m : Memory) (p q n : ℕ) → ((i : ℕ) → i < n → m (p + i) ≡ m (q + i)) → memcmp m p q n ≡ nought
unfolding memcmp
memcmp_same m p q zero h = refl
memcmp_same m p q (suc n) h =
    let e : p + 0 ≡ p = omega arith in
    let f : q + 0 ≡ q = omega arith in
    let here = rw (e, f) at (h 0 (omega arith)) in
    let rest = memcmp_same m (p + 1) (q + 1) n (λ i lt.
      let e' : p + 1 + i ≡ p + suc i = omega arith in
      let f' : q + 1 + i ≡ q + suc i = omega arith in
      ap m e' ∙ h (suc i) (omega arith) ∙ ap m (sym f')) in
    ground arith

-- `memcmp` returns 0 exactly when the two blocks hold the same bytes.
pub memcmp_iff :
    (m : Memory) (p q n : ℕ) → (memcmp m p q n ≡ nought) ↔ ((i : ℕ) → i < n → m (p + i) ≡ m (q + i))
memcmp_iff m p q n = (memcmp-eq m p q n, memcmp_same m p q n)
