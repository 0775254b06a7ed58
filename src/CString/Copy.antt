-- ===== src/CString/Copy.antt =====
-- The copying functions: `memset`, `memcpy`, `strcpy` and `strcat` write what they should, and
-- nothing else.
use k_os.Base.{
  ℕ, zero, suc, ◌+◌, ◌-◌, ◌≤◌, ◌<◌, ◌≡◌, Bool, false, ◌&&◌, some, ltb, leb, if◌then◌else◌, List, [],
  ◌∷◌, ◌++◌, length, arith, ◌⊎◌, ap, ◌∙◌, update, dec_lt, sym, subst,
}
use k_os.CString.{Memory, memset, memcpy, strcpy, strcat}
use k_os.CString.Chars.{Chars, Chars-frame, char_ne, seek-length}

abbrev pub in_block : (start n a : ℕ) → Bool
in_block start n a = leb start a && ltb a (start + n)

-- `memset` writes the byte to exactly the `n` places from the address on.
pub memset_lem :
    (m : Memory) (str ch n a : ℕ) → memset m str ch n a ≡ (if in_block str n a then ch else m a)
unfolding memset
memset_lem m str ch zero a = ground arith
memset_lem m str ch (suc n) a = ground (arith, memset_lem (update m str ch) (str + 1) ch n a)

abbrev pub Apart : (p n q k : ℕ) → Type 0
Apart p n q k = (p + n ≤ q) ⊎ (q + k ≤ p)

-- `m'` is `m` with the `n` bytes from `src` on copied to `dst`.
abbrev pub Copied : (m m' : Memory) (dst src n : ℕ) → Type 0
Copied m m' dst src n = (a : ℕ) → m' a ≡ (if in_block dst n a then m (src + (a - dst)) else m a)

Copied-suc :
    (m m' : Memory) (dst src n : ℕ)
    → Apart dst (suc n) src (suc n)
    → Copied (update m dst (m src)) m' (dst + 1) (src + 1) n
    → Copied m m' dst src (suc n)
Copied-suc m m' dst src n apart rest a = elim (dec_lt dst a) [
  | yes above ↦
      let e : src + 1 + (a - (dst + 1)) ≡ src + (a - dst) = omega arith in
      let value = ap m e in ground (arith, rest a)
  | no low ↦ let e : src + (a - dst) ≡ src = omega arith in rw e (ground (arith, rest a))
]

-- `memcpy` between blocks that do not overlap copies exactly the block.
pub memcpy-Copied :
    (m : Memory) (dst src n : ℕ) → Apart dst n src n → Copied m (memcpy m dst src n) dst src n
unfolding memcpy
memcpy-Copied m dst src zero apart = λ a. ground arith
memcpy-Copied m dst src (suc n) apart =
    Copied-suc m _ dst src n apart
      (memcpy-Copied (update m dst (m src)) (dst + 1) (src + 1) n (ground arith))

pub strcpy-Copied :
    (fuel : ℕ) (m : Memory) (dst src : ℕ) (s : List ℕ)
    → Chars m src s
    → length s < fuel
    → Apart dst (length s + 1) src (length s + 1)
    → (m' : Memory) × (strcpy fuel m dst src ≡ some m') × Copied m m' dst src (suc (length s))
unfolding strcpy
strcpy-Copied zero m dst src s c enough apart = absurd (omega arith)
strcpy-Copied (suc fuel) m dst src [] c enough apart =
    (update m dst (m src), rw c, λ a. ground arith)
strcpy-Copied (suc fuel) m dst src (x ∷ s) c enough apart =
    let m₁ = update m dst (m src) in
    let r =
      strcpy-Copied fuel m₁ (dst + 1) (src + 1) s
        (Chars-frame m m₁ (src + 1) s c.2 (λ a le ge. ground arith)) (omega arith) (ground arith) in
    (
      r.0,
      rw (char_ne m src x c.0 c.1) r.1,
      Copied-suc m r.0 dst src (suc (length s)) (ground arith) r.2,
    )

-- A string whose bytes stand elsewhere one for one.
Chars-at :
    (m' : Memory) (dst : ℕ) (s : List ℕ) (src : ℕ) (m : Memory)
    → Chars m src s
    → ((i : ℕ) → i ≤ length s → m' (dst + i) ≡ m (src + i))
    → Chars m' dst s
Chars-at m' dst [] src m c at =
    let e : dst + 0 ≡ dst = omega arith in
    let f : src + 0 ≡ src = omega arith in ap m' (sym e) ∙ at 0 (omega arith) ∙ ap m f ∙ c
Chars-at m' dst (x ∷ s) src m c at = (
  (let e : dst + 0 ≡ dst = omega arith in
      let f : src + 0 ≡ src = omega arith in ap m' (sym e) ∙ at 0 (omega arith) ∙ ap m f ∙ c.0),
  c.1,
  Chars-at m' (dst + 1) s (src + 1) m c.2 (λ i lt.
      let e : dst + 1 + i ≡ dst + (i + 1) = omega arith in
      let f : src + (i + 1) ≡ src + 1 + i = omega arith in
      ap m' e ∙ at (i + 1) (omega arith) ∙ ap m f),
)

-- Two strings in a row, the first as it was up to its NUL.
Chars-append :
    (m m' : Memory) (dst : ℕ) (s t : List ℕ)
    → Chars m dst s
    → Chars m' (dst + length s) t
    → ((a : ℕ) → dst ≤ a → a < dst + length s → m' a ≡ m a)
    → Chars m' dst (s ++ t)
Chars-append m m' dst [] t c d same =
    let e : dst + 0 ≡ dst = omega arith in subst (λ p. Chars m' p t) e d
Chars-append m m' dst (x ∷ s) t c d same = (
  same dst (omega arith) (omega arith) ∙ c.0,
  c.1,
  Chars-append m m' (dst + 1) s t c.2
      (let e : dst + suc (length s) ≡ dst + 1 + length s = omega arith in
        subst (λ p. Chars m' p t) e d)
      (λ a le lt. same a (omega arith) (omega arith)),
)

-- The copy of a string is that string.
Copied-Chars :
    (m m' : Memory) (dst src : ℕ) (s : List ℕ)
    → Chars m src s
    → Copied m m' dst src (suc (length s))
    → Chars m' dst s
Copied-Chars m m' dst src s c copied = Chars-at m' dst s src m c (λ i lt. at i lt)
  where
    at : (i : ℕ) → i ≤ length s → m' (dst + i) ≡ m (src + i)
    at i lt =
        let e : src + (dst + i - dst) ≡ src + i = omega arith in
        let value = ap m e in ground (arith, copied (dst + i))

-- `strcpy` of a string to a place that does not overlap it ends; the place then holds the string,
-- and no byte outside it has changed.
pub strcpy-Chars :
    (fuel : ℕ) (m : Memory) (dst src : ℕ) (s : List ℕ)
    → Chars m src s
    → length s < fuel
    → Apart dst (length s + 1) src (length s + 1)
    → (m' : Memory) × (strcpy fuel m dst src ≡ some m')
      × Chars m' dst s
      × ((a : ℕ) → in_block dst (length s + 1) a ≡ false → m' a ≡ m a)
strcpy-Chars fuel m dst src s c enough apart =
    let r = strcpy-Copied fuel m dst src s c enough apart in
    (r.0, r.1, Copied-Chars m r.0 dst src s c r.2, λ a out. ground (arith, r.2 a))

-- `strcat` of a string behind another, with room that overlaps neither, ends; the first place then
-- holds both strings in a row, and no byte outside it has changed.
pub strcat-append :
    (fuel : ℕ) (m : Memory) (dst src : ℕ) (s t : List ℕ)
    → Chars m dst s
    → Chars m src t
    → length s < fuel
    → length t < fuel
    → Apart dst (length s + length t + 1) src (length t + 1)
    → (m' : Memory) × (strcat fuel m dst src ≡ some m')
      × Chars m' dst (s ++ t)
      × ((a : ℕ) → in_block (dst + length s) (length t + 1) a ≡ false → m' a ≡ m a)
unfolding strcat
strcat-append fuel m dst src s t c d enough enough' apart =
    let end = dst + length s in
    let r = strcpy-Chars fuel m end src t d enough' (ground arith) in
    (
      r.0,
      rw (seek-length fuel m dst s c enough, strcat) r.1,
      Chars-append m r.0 dst s t c r.2 (λ a le lt. r.3 a (ground arith)),
      r.3,
    )
