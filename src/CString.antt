-- ===== src/CString.antt =====
-- code/lib/src/string.c: memory blocks and NUL-terminated strings, over a memory of bytes.
-- A loop that stops at a NUL takes fuel, and yields `none` where it finds none in time. `char` is
-- signed: bytes from 128 on stand for negative numbers.
pub mod Chars
pub mod Copy
pub mod Compare
mod Tests
use k_os.Base.{
  ℕ, zero, suc, ◌+◌, ◌%◌, Bool, Option, none, some, ltb, ◌==◌, ◌&&◌, if◌then◌else◌, update,
}
use k_os.Base.Word.{u32}

abbrev pub Memory : Type 0
Memory = ℕ → ℕ

-- The order of signed `char` values, as the order of these numbers.
abbrev pub signed_rank : ℕ → ℕ
signed_rank c = (c + 128) % 256

-- An `int` result of -1, 0 or 1.
pub data Sign : Type 0 where
  minus_one nought one : Sign

unfoldable pub memset : Memory → (str ch n : ℕ) → Memory
memset m str ch zero = m
memset m str ch (suc n) = memset (update m str ch) (str + 1) ch n

unfoldable pub memcpy : Memory → (dst src n : ℕ) → Memory
memcpy m dst src zero = m
memcpy m dst src (suc n) = memcpy (update m dst (m src)) (dst + 1) (src + 1) n

unfoldable pub memcmp : Memory → (s1 s2 n : ℕ) → Sign
memcmp m s1 s2 zero = nought
memcmp m s1 s2 (suc n) =
    let rest = memcmp m (s1 + 1) (s2 + 1) n in
    if m s1 == m s2
    then rest
    else if ltb (signed_rank (m s2)) (signed_rank (m s1))
    then one
    else minus_one

-- `while ((*dst++ = *src++));`
unfoldable pub strcpy : ℕ → Memory → (dst src : ℕ) → Option Memory
strcpy zero m dst src = none
strcpy (suc fuel) m dst src =
    let m' = update m dst (m src) in
    let rest = strcpy fuel m' (dst + 1) (src + 1) in if m src == 0 then some m' else rest

-- The bytes before the NUL, counted from `len` on.
unfoldable pub strlen_loop : ℕ → Memory → (str len : ℕ) → Option ℕ
strlen_loop zero m str len = none
strlen_loop (suc fuel) m str len =
    let rest = strlen_loop fuel m (str + 1) (u32 (len + 1)) in if m str == 0 then some len else rest

unfoldable pub strlen : ℕ → Memory → (str : ℕ) → Option ℕ
strlen fuel m str = strlen_loop fuel m str 0

-- `*s1 < *s2 ? -1 : *s1 > *s2`
abbrev pub last_sign : (c d : ℕ) → Sign
last_sign c d =
    if ltb (signed_rank c) (signed_rank d)
    then minus_one
    else if ltb (signed_rank d) (signed_rank c)
    then one
    else nought

unfoldable pub strcmp : ℕ → Memory → (s1 s2 : ℕ) → Option Sign
strcmp zero m s1 s2 = none
strcmp (suc fuel) m s1 s2 =
    let rest = strcmp fuel m (s1 + 1) (s2 + 1) in
    if m s1 == 0
    then some (last_sign (m s1) (m s2))
    else if m s1 == m s2
    then rest
    else some (last_sign (m s1) (m s2))

-- A byte read as `char` equals a `uint8_t` only below 128.
abbrev pub char_is : (c ch : ℕ) → Bool
char_is c ch = ltb c 128 && (c == ch)

-- The address of the first match; NULL is 0.
unfoldable pub strchr : ℕ → Memory → (str ch : ℕ) → Option ℕ
strchr zero m str ch = none
strchr (suc fuel) m str ch =
    let rest = strchr fuel m (str + 1) ch in
    if m str == 0 then some 0 else if char_is (m str) ch then some str else rest

unfoldable pub strrchr_loop : ℕ → Memory → (str ch last_char : ℕ) → Option ℕ
strrchr_loop zero m str ch last_char = none
strrchr_loop (suc fuel) m str ch last_char =
    let rest = strrchr_loop fuel m (str + 1) ch (if char_is (m str) ch then str else last_char) in
    if m str == 0 then some last_char else rest

unfoldable pub strrchr : ℕ → Memory → (str ch : ℕ) → Option ℕ
strrchr fuel m str ch = strrchr_loop fuel m str ch 0

-- The end of the first string, then the copy from there.
unfoldable pub strcat_seek : ℕ → Memory → ℕ → Option ℕ
strcat_seek zero m p = none
strcat_seek (suc fuel) m p =
    let rest = strcat_seek fuel m (p + 1) in if m p == 0 then some p else rest

unfoldable pub strcat : ℕ → Memory → (dst src : ℕ) → Option Memory
strcat fuel m dst src = elim (strcat_seek fuel m dst) [
  | none ↦ none
  | some end ↦ strcpy fuel m end src
]

unfoldable pub strchrs_loop : ℕ → Memory → (str ch count : ℕ) → Option ℕ
strchrs_loop zero m str ch count = none
strchrs_loop (suc fuel) m str ch count =
    let rest =
      strchrs_loop fuel m (str + 1) ch (if char_is (m str) ch then u32 (count + 1) else count) in
    if m str == 0 then some count else rest

unfoldable pub strchrs : ℕ → Memory → (str ch : ℕ) → Option ℕ
strchrs fuel m str ch = strchrs_loop fuel m str ch 0
