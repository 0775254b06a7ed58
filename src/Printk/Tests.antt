-- ===== src/Printk/Tests.antt =====
-- A call of `printk` that is too long.
use k_os.Base.{
  ℕ, zero, suc, ◌+◌, ◌≤◌, ◌<◌, ◌≡◌, ◌≢◌, ◌==◌, ◌&&◌, leb, ltb, refl, some, if◌then◌else◌, List, [],
  ◌∷◌, replicate, length, arith,
}
use k_os.CString.{Memory}
use k_os.CString.Chars.{Chars}
use k_os.Stdio.Format.{text, encode, Arguments}
use k_os.Printk.{overruns, printk}
use k_os.Printk.Overrun.{printk_overruns}

-- "%s" at 0, and a string of 1030 bytes at 10.
abbrev memory : Memory
memory a =
    if a == 0 then b'%' else if a == 1 then b's' else if leb 10 a && ltb a 1040 then b'x' else 0

abbrev ten : ℕ → ℕ
ten k = 10

abbrev letters : ℕ → List ℕ
letters n = replicate n b'x'

ne : (c d : ℕ) → d < c → c ≢ d
ne c d h e = omega arith

xs_here : (n p : ℕ) → 10 ≤ p → p + n ≡ 1040 → Chars memory p (letters n)
xs_here zero p le end = ground arith
xs_here (suc n) p le end =
    (ground arith, ne _ _ (omega arith), xs_here n (p + 1) (omega arith) (omega arith))

length_xs : (n : ℕ) → length (letters n) ≡ n
length_xs zero = refl
length_xs (suc n) = omega (arith, length_xs n)

format_here : Chars memory 0 (encode (text (letters 1030) ∷ []))
unfolding encode
format_here = (refl, ne _ _ (omega arith), (refl, ne _ _ (omega arith), refl))

Arguments-here : Arguments 1031 memory ten 0 (text (letters 1030) ∷ [])
Arguments-here = ((xs_here 1030 10 (omega arith) (omega arith), omega (arith, length_xs 1030)), tt)

enough : length (encode (text (letters 1030) ∷ [])) + 1031 < 1040
unfolding encode
enough = omega arith

printk_overruns_example : (n : ℕ) × (1 ≤ n) × (printk 1040 memory ten 0 ≡ some (overruns n))
printk_overruns_example =
    printk_overruns 1040 1031 memory ten 0 [] [] (letters 1030) format_here Arguments-here enough
      (omega (arith, length_xs 1030))
