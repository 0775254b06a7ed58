-- ===== src/CString/Chars.antt =====
-- What a NUL-terminated string in memory stands for, and the walks that only read it.
use k_os.Base.{
  ℕ, zero, suc, ◌+◌, ◌^◌, ◌≤◌, ◌<◌, ◌≡◌, ◌≢◌, false, some, ◌==◌, if◌then◌else◌, List, [], ◌∷◌,
  length, arith, Bool-cases, inl, inr, ap, ◌∙◌,
}
use k_os.Base.Word.{u32}
use k_os.CString.{
  Memory, char_is, strlen, strlen_loop, strcat_seek, strchr, strchrs, strchrs_loop, strrchr_loop,
}

-- The bytes `s`, none of them NUL, stand at `p` with a NUL behind them.
abbrev pub Chars : Memory → ℕ → List ℕ → Type 0
Chars m p [] = m p ≡ 0
Chars m p (c ∷ s) = (m p ≡ c) × (c ≢ 0) × Chars m (p + 1) s

pub char_ne : (m : Memory) (p c : ℕ) → m p ≡ c → c ≢ 0 → (m p == 0) ≡ false
char_ne m p c e n = ground arith

-- A string survives changes outside its bytes.
pub Chars-frame :
    (m n : Memory) (p : ℕ) (s : List ℕ)
    → Chars m p s
    → ((a : ℕ) → p ≤ a → a ≤ p + length s → n a ≡ m a)
    → Chars n p s
Chars-frame m n p [] c same = same p (omega arith) (omega arith) ∙ c
Chars-frame m n p (x ∷ s) c same = (
  same p (omega arith) (omega arith) ∙ c.0,
  c.1,
  Chars-frame m n (p + 1) s c.2 (λ a le ge. same a (omega arith) (omega arith)),
)

strlen_loop_lem :
    (fuel : ℕ) (m : Memory) (p n : ℕ) (s : List ℕ)
    → Chars m p s
    → length s < fuel
    → n < 2 ^ 32
    → strlen_loop fuel m p n ≡ some (u32 (n + length s))
unfolding strlen_loop
strlen_loop_lem zero m p n s c enough small = absurd (omega arith)
strlen_loop_lem (suc fuel) m p n [] c enough small = rw c (ap some (omega arith))
strlen_loop_lem (suc fuel) m p n (x ∷ s) c enough small = rw (char_ne m p x c.0 c.1) (
    strlen_loop_lem fuel m (p + 1) (u32 (n + 1)) s c.2 (omega arith) (omega arith)
    ∙ ap some (omega arith))

-- `strlen` of a string ends and returns the number of its bytes, modulo 2 ^ 32.
pub strlen-length :
    (fuel : ℕ) (m : Memory) (p : ℕ) (s : List ℕ)
    → Chars m p s
    → length s < fuel
    → strlen fuel m p ≡ some (u32 (length s))
unfolding strlen
strlen-length fuel m p s c enough =
    strlen_loop_lem fuel m p 0 s c enough (omega arith) ∙ ap some (omega arith)

pub seek-length :
    (fuel : ℕ) (m : Memory) (p : ℕ) (s : List ℕ)
    → Chars m p s
    → length s < fuel
    → strcat_seek fuel m p ≡ some (p + length s)
unfolding strcat_seek
seek-length zero m p s c enough = absurd (omega arith)
seek-length (suc fuel) m p [] c enough = rw c (ap some (omega arith))
seek-length (suc fuel) m p (x ∷ s) c enough =
    rw (char_ne m p x c.0 c.1)
      (seek-length fuel m (p + 1) s c.2 (omega arith) ∙ ap some (omega arith))

-- The address of the first byte that equals `ch` as a `char`, or NULL.
unfoldable pub first_char : (ch p : ℕ) → List ℕ → ℕ
first_char ch p [] = 0
first_char ch p (c ∷ s) = if char_is c ch then p else first_char ch (p + 1) s

-- `strchr` ends and returns the address of the first byte of the string that equals the character,
-- or NULL; a character from 128 on is never found.
pub strchr-first_char :
    (fuel : ℕ) (m : Memory) (p ch : ℕ) (s : List ℕ)
    → Chars m p s
    → length s < fuel
    → strchr fuel m p ch ≡ some (first_char ch p s)
unfolding strchr first_char
strchr-first_char zero m p ch s c enough = absurd (omega arith)
strchr-first_char (suc fuel) m p ch [] c enough = rw c
strchr-first_char (suc fuel) m p ch (x ∷ s) c enough =
    let rest = strchr-first_char fuel m (p + 1) ch s c.2 (omega arith) in
    rw (char_ne m p x c.0 c.1, c.0)
      (elim (Bool-cases (char_is x ch)) [ inl hit ↦ rw hit | inr miss ↦ rw miss rest ])

unfoldable pub count_char : ℕ → List ℕ → ℕ
count_char ch [] = 0
count_char ch (c ∷ s) = (if char_is c ch then 1 else 0) + count_char ch s

strchrs_loop_lem :
    (fuel : ℕ) (m : Memory) (p ch n : ℕ) (s : List ℕ)
    → Chars m p s
    → length s < fuel
    → n < 2 ^ 32
    → strchrs_loop fuel m p ch n ≡ some (u32 (n + count_char ch s))
unfolding strchrs_loop count_char
strchrs_loop_lem zero m p ch n s c enough small = absurd (omega arith)
strchrs_loop_lem (suc fuel) m p ch n [] c enough small = rw c (ap some (omega arith))
strchrs_loop_lem (suc fuel) m p ch n (x ∷ s) c enough small =
    rw (char_ne m p x c.0 c.1, c.0)
      (elim (Bool-cases (char_is x ch)) [
        | inl hit ↦ rw hit (
            strchrs_loop_lem fuel m (p + 1) ch (u32 (n + 1)) s c.2 (omega arith) (omega arith)
            ∙ ap some (omega arith))
        | inr miss ↦
            rw miss (
              strchrs_loop_lem fuel m (p + 1) ch n s c.2 (omega arith) small
              ∙ ap some (omega arith))
      ])

-- `strchrs` ends and returns how many bytes of the string equal the character, modulo 2 ^ 32.
pub strchrs-count_char :
    (fuel : ℕ) (m : Memory) (p ch : ℕ) (s : List ℕ)
    → Chars m p s
    → length s < fuel
    → strchrs fuel m p ch ≡ some (u32 (count_char ch s))
unfolding strchrs
strchrs-count_char fuel m p ch s c enough =
    strchrs_loop_lem fuel m p ch 0 s c enough (omega arith) ∙ ap some (omega arith)

-- The address of the last byte that equals `ch`, or `last`.
unfoldable pub last_char_from : (ch p last : ℕ) → List ℕ → ℕ
last_char_from ch p last [] = last
last_char_from ch p last (c ∷ s) = last_char_from ch (p + 1) (if char_is c ch then p else last) s

strrchr_loop_lem :
    (fuel : ℕ) (m : Memory) (p ch last : ℕ) (s : List ℕ)
    → Chars m p s
    → length s < fuel
    → strrchr_loop fuel m p ch last ≡ some (last_char_from ch p last s)
unfolding strrchr_loop last_char_from
strrchr_loop_lem zero m p ch last s c enough = absurd (omega arith)
strrchr_loop_lem (suc fuel) m p ch last [] c enough = rw c
strrchr_loop_lem (suc fuel) m p ch last (x ∷ s) c enough =
    rw (char_ne m p x c.0 c.1, c.0)
      (strrchr_loop_lem fuel m (p + 1) ch (if char_is x ch then p else last) s c.2 (omega arith))
