-- ===== src/CString/Tests.antt =====
-- Runs of the string functions on small memories, and the theorems at these.
use k_os.Base.{
  ℕ, ◌+◌, ◌<◌, ◌≡◌, ◌≢◌, ◌↔◌, refl, ◌||◌, some, ◌==◌, if◌then◌else◌, List, [], ◌∷◌, arith,
}
use k_os.Base.Word.{u32}
use k_os.CString.{
  Memory, nought, one, memcmp, strlen, strcmp, strchr, strrchr, strrchr_loop, strchrs, strchrs_loop,
}
use k_os.CString.Chars.{Chars, strlen-length, strchr-first_char, first_char}
use k_os.CString.Compare.{AreBytes, memcmp_iff}

-- "abca" at 0 and "ab" at 10.
abbrev memory : Memory
memory a =
    if (a == 0) || (a == 3) || (a == 10)
    then b'a'
    else if (a == 1) || (a == 11)
    then b'b'
    else if a == 2
    then b'c'
    else 0

abbrev abca : List ℕ
abca = b'a' ∷ b'b' ∷ b'c' ∷ b'a' ∷ []

abbrev ab : List ℕ
ab = b'a' ∷ b'b' ∷ []

ne : (c : ℕ) → 0 < c → c ≢ 0
ne c h e = omega arith

abca_here : Chars memory 0 abca
abca_here = (
  refl,
  ne _ (omega arith),
  (refl, ne _ (omega arith), (refl, ne _ (omega arith), (refl, ne _ (omega arith), refl))),
)

ab_here : Chars memory 10 ab
ab_here = (refl, ne _ (omega arith), (refl, ne _ (omega arith), refl))

memory-AreBytes : AreBytes memory
memory-AreBytes a = ground arith

strcmp_run : strcmp 9 memory 0 10 ≡ some one
unfolding strcmp
strcmp_run = refl

strrchr_run : strrchr 9 memory 0 b'a' ≡ some 3
unfolding strrchr strrchr_loop
strrchr_run = refl

strchrs_run : strchrs 9 memory 0 b'a' ≡ some 2
unfolding strchrs strchrs_loop
strchrs_run = refl

-- A byte from 128 on is not found, though the string holds it.
strchr_signed_run : strchr 9 (λ a. if a == 0 then 200 else 0) 0 200 ≡ some 0
unfolding strchr
strchr_signed_run = refl

strlen-length_example : strlen 9 memory 0 ≡ some (u32 4)
strlen-length_example = strlen-length 9 memory 0 abca abca_here (omega arith)

strchr-first_char_example : strchr 9 memory 0 b'b' ≡ some (first_char b'b' 0 abca)
strchr-first_char_example = strchr-first_char 9 memory 0 b'b' abca abca_here (omega arith)

memcmp_iff_example :
    (memcmp memory 0 10 2 ≡ nought) ↔ ((i : ℕ) → i < 2 → memory (0 + i) ≡ memory (10 + i))
memcmp_iff_example = memcmp_iff memory 0 10 2
