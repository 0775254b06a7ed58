-- ===== src/Stdio.antt =====
-- code/lib/src/stdio.c: `itoa` and `vsprintf`. The output is the list of the bytes written, from
-- the start of the buffer; the NUL behind it is not part of it. The format and the strings among
-- the arguments are read from memory; `ap k` is the word of argument number k on the stack.
pub mod Itoa
pub mod Format
mod Tests
use k_os.Base.{
  ℕ, zero, suc, ◌+◌, ◌-◌, ◌/◌, ◌%◌, ◌^◌, Bool, Option, none, some, ltb, ◌==◌, if◌then◌else◌, List,
  [], ◌∷◌, ◌++◌,
}
use k_os.CString.{Memory}

unfoldable pub digit_char : ℕ → ℕ
digit_char d = if ltb d 10 then d + b'0' else d - 10 + b'A'

-- The digits of a number, the highest first: the recursive call comes before the last digit.
unfoldable pub itoa : ℕ → (value base : ℕ) → Option (List ℕ)
itoa zero value base = none
itoa (suc fuel) value base =
    let quotient = value / base in
    let higher = itoa fuel quotient base in
    let digit = digit_char (value % base) in
    if quotient == 0
    then some (digit ∷ [])
    else elim higher [ none ↦ none | some ds ↦ some (ds ++ digit ∷ []) ]

-- The bytes that `strcpy` copies: those before the NUL.
unfoldable pub string_at : ℕ → Memory → ℕ → Option (List ℕ)
string_at zero m p = none
string_at (suc fuel) m p =
    let rest = string_at fuel m (p + 1) in
    if m p == 0 then some [] else elim rest [ none ↦ none | some s ↦ some (m p ∷ s) ]

-- Enough for the 32 binary digits of a word.
abbrev pub itoa_fuel : ℕ
itoa_fuel = 33

-- `%d`: a word from 2 ^ 31 on is a negative `int`.
unfoldable pub decimal : ℕ → Option (List ℕ)
decimal w =
    let negated = (2 ^ 32 - w) % 2 ^ 32 in
    if ltb w (2 ^ 31)
    then itoa itoa_fuel w 10
    else elim (itoa itoa_fuel negated 10) [ none ↦ none | some ds ↦ some (b'-' ∷ ds) ]

-- What a directive writes, and the number of the next argument. Any other letter writes nothing.
unfoldable pub directive : ℕ → Memory → (ap : ℕ → ℕ) → (c k : ℕ) → Option (List ℕ × ℕ)
directive fuel m ap c k =
    let with_arg = λ (o : Option (List ℕ)). elim o as (λ x. Option (List ℕ × ℕ)) [
      | none ↦ none
      | some s ↦ some (s, k + 1)
    ] in
    if c == b's'
    then with_arg (string_at fuel m (ap k))
    else if c == b'c'
    then some (ap k % 256 ∷ [], k + 1)
    else if c == b'd'
    then with_arg (decimal (ap k))
    else if c == b'x'
    then with_arg (itoa itoa_fuel (ap k) 16)
    else some ([], k)

-- The loop over the format, with the bytes written so far. After a directive the format moves on
-- behind the letter, also where that is the NUL.
unfoldable pub format_loop : ℕ → Memory → (ap : ℕ → ℕ) → (format k : ℕ) → List ℕ → Option (List ℕ)
format_loop zero m ap format k out = none
format_loop (suc fuel) m ap format k out =
    let plain = format_loop fuel m ap (format + 1) k (out ++ m format ∷ []) in
    let converted : Option (List ℕ) = elim (directive fuel m ap (m (format + 1)) k) [
      | none ↦ none
      | some (s, k') ↦ format_loop fuel m ap (format + 2) k' (out ++ s)
    ] in
    if m format == 0 then some out else if m format == b'%' then converted else plain

unfoldable pub vsprintf : ℕ → Memory → (ap : ℕ → ℕ) → (format : ℕ) → Option (List ℕ)
vsprintf fuel m ap format = format_loop fuel m ap format 0 []
