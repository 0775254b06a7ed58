-- ===== src/Stdio/Tests.antt =====
-- Runs of the formatted output, and its theorem at a small format.
use k_os.Base.{
  ℕ, ◌+◌, ◌<◌, ◌≡◌, ◌≢◌, refl, ◌||◌, some, ◌==◌, if◌then◌else◌, List, [], ◌∷◌, length, arith,
}
use k_os.CString.{Memory}
use k_os.CString.Chars.{Chars}
use k_os.Stdio.{itoa, vsprintf, format_loop, directive, decimal, string_at, digit_char}
use k_os.Stdio.Format.{Piece, plain, text, int, encode, Arguments, ShowsAll, vsprintf-ShowsAll}

itoa_run : itoa 9 0xC0DE 16 ≡ some (b'C' ∷ b'0' ∷ b'D' ∷ b'E' ∷ [])
unfolding itoa digit_char
itoa_run = refl

-- "%d=%s" at 0 and "k" at 20, with the arguments -7 and 20.
abbrev memory : Memory
memory a =
    if (a == 0) || (a == 3)
    then b'%'
    else if a == 1
    then b'd'
    else if a == 2
    then b'='
    else if a == 4
    then b's'
    else if a == 20
    then b'k'
    else 0

abbrev words : ℕ → ℕ
words k = if k == 0 then 0xFFFFFFF9 else 20

abbrev pieces : List Piece
pieces = int 0xFFFFFFF9 ∷ plain b'=' ∷ text (b'k' ∷ []) ∷ []

vsprintf_run : vsprintf 9 memory words 0 ≡ some (b'-' ∷ b'7' ∷ b'=' ∷ b'k' ∷ [])
unfolding vsprintf format_loop directive decimal itoa string_at digit_char
vsprintf_run = refl

ne : (c d : ℕ) → d < c → c ≢ d
ne c d h e = omega arith

format_here : Chars memory 0 (encode pieces)
unfolding encode
format_here = (
  refl,
  ne _ _ (omega arith),
  (
    refl,
    ne _ _ (omega arith),
    (refl, ne _ _ (omega arith), (refl, ne _ _ (omega arith), (refl, ne _ _ (omega arith), refl))),
  ),
)

Arguments-here : Arguments 3 memory words 0 pieces
Arguments-here = (
  (refl, omega arith),
  (ne _ _ (omega arith), (((refl, ne _ _ (omega arith), refl), omega arith), tt)),
)

enough : length (encode pieces) + 3 < 10
unfolding encode
enough = omega arith

vsprintf-ShowsAll_example :
    (out : List ℕ) × (vsprintf 10 memory words 0 ≡ some out) × ShowsAll pieces out
vsprintf-ShowsAll_example =
    vsprintf-ShowsAll 10 3 memory words 0 pieces format_here Arguments-here enough
