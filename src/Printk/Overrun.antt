-- ===== src/Printk/Overrun.antt =====
-- When `printk` writes behind its buffer.
use k_os.Base.{
  ℕ, ◌+◌, ◌-◌, ◌≤◌, ◌<◌, ◌≡◌, false, ltb, some, List, [], ◌∷◌, ◌++◌, length, length-append, arith,
  refl, ap,
}
use k_os.CString.{Memory}
use k_os.CString.Chars.{Chars}
use k_os.Stdio.Format.{Piece, text, encode, Arguments, ShowsAll, vsprintf-ShowsAll}
use k_os.Printk.{overruns, printk, buf_size}

-- A string among the pieces stands whole in the output.
ShowsAll-length :
    (before after : List Piece) (s out : List ℕ)
    → ShowsAll (before ++ text s ∷ after) out
    → length s ≤ length out
ShowsAll-length [] after s out sh =
    omega (arith, ap length sh.2, length-append sh.0 sh.1, ap length sh.3)
ShowsAll-length (p ∷ before) after s out sh =
    let rest = ShowsAll-length before after s sh.1 sh.4 in
    omega (arith, rest, ap length sh.2, length-append sh.0 sh.1)

-- A format with a `%s` whose string has 1024 bytes or more makes `printk` write behind its buffer, by
-- one byte at least.
pub printk_overruns :
    (fuel bound : ℕ) (m : Memory) (args : ℕ → ℕ) (format : ℕ) (before after : List Piece)
    (s : List ℕ)
    → Chars m format (encode (before ++ text s ∷ after))
    → Arguments bound m args 0 (before ++ text s ∷ after)
    → length (encode (before ++ text s ∷ after)) + bound < fuel
    → buf_size ≤ length s
    → (n : ℕ) × (1 ≤ n) × (printk fuel m args format ≡ some (overruns n))
unfolding printk
printk_overruns fuel bound m args format before after s c a enough long =
    let r = vsprintf-ShowsAll fuel bound m args format (before ++ text s ∷ after) c a enough in
    let big = ShowsAll-length before after s r.0 r.2 in
    let over : ltb (length r.0) buf_size ≡ false = ground (arith, big, long) in
    (length r.0 + 1 - buf_size, omega (arith, big, long), rw (printk, r.1, over) refl)
