-- ===== src/Stdio/Format.antt =====
-- `vsprintf` writes what its format and arguments say.
use k_os.Base.{
  ℕ, zero, suc, ◌+◌, ◌-◌, ◌%◌, ◌^◌, ◌≤◌, ◌<◌, ◌≡◌, ◌≢◌, refl, false, some, ltb, ◌==◌, List, [], ◌∷◌,
  ◌++◌, length, arith, Bool-cases, ◌⊎◌, inl, inr, ap, ◌∙◌, sym, subst,
}
use mathlib.Core.List.{append_assoc, append-nil}
use k_os.CString.{Memory}
use k_os.CString.Chars.{Chars, char_ne}
use k_os.Stdio.{itoa, itoa_fuel, string_at, decimal, directive, format_loop, vsprintf}
use k_os.Stdio.Itoa.{IsNumeral, itoa-IsNumeral}

string_at-Chars :
    (fuel : ℕ) (m : Memory) (p : ℕ) (s : List ℕ)
    → Chars m p s
    → length s < fuel
    → string_at fuel m p ≡ some s
unfolding string_at
string_at-Chars zero m p s c enough = absurd (omega arith)
string_at-Chars (suc fuel) m p [] c enough = rw c refl
string_at-Chars (suc fuel) m p (x ∷ s) c enough =
    rw (char_ne m p x c.0 c.1, string_at-Chars fuel m (p + 1) s c.2 (omega arith), c.0) refl

-- A piece of a format: a byte written as it is, or a directive with the argument it stands for.
pub data Piece : Type 0 where
  plain : ℕ → Piece
  text : List ℕ → Piece
  character : ℕ → Piece
  int : ℕ → Piece
  hex : ℕ → Piece

-- The bytes of the format.
unfoldable pub encode : List Piece → List ℕ
encode [] = []
encode (plain c ∷ ps) = c ∷ encode ps
encode (text s ∷ ps) = b'%' ∷ b's' ∷ encode ps
encode (character w ∷ ps) = b'%' ∷ b'c' ∷ encode ps
encode (int w ∷ ps) = b'%' ∷ b'd' ∷ encode ps
encode (hex w ∷ ps) = b'%' ∷ b'x' ∷ encode ps

-- The arguments from number `k` on are those of the pieces; strings have fewer bytes than `fuel`.
abbrev pub Arguments : ℕ → Memory → (ℕ → ℕ) → ℕ → List Piece → Type 0
Arguments fuel m ap k [] = Unit
Arguments fuel m ap k (plain c ∷ ps) = (c ≢ b'%') × Arguments fuel m ap k ps
Arguments fuel m ap k (text s ∷ ps) =
    (Chars m (ap k) s × (length s < fuel)) × Arguments fuel m ap (k + 1) ps
Arguments fuel m ap k (character w ∷ ps) = (ap k ≡ w) × Arguments fuel m ap (k + 1) ps
Arguments fuel m ap k (int w ∷ ps) = (ap k ≡ w × (w < 2 ^ 32)) × Arguments fuel m ap (k + 1) ps
Arguments fuel m ap k (hex w ∷ ps) = (ap k ≡ w × (w < 2 ^ 32)) × Arguments fuel m ap (k + 1) ps

-- The decimal numeral of a two's-complement word.
abbrev pub IsDecimal : ℕ → List ℕ → Type 0
IsDecimal w s =
    ((w < 2 ^ 31) × IsNumeral 10 w s)
    ⊎ (r : List ℕ) × (2 ^ 31 ≤ w) × (s ≡ b'-' ∷ r) × IsNumeral 10 (2 ^ 32 - w) r

-- What a piece looks like in the output.
abbrev pub Shows : Piece → List ℕ → Type 0
Shows (plain c) s = s ≡ c ∷ []
Shows (text t) s = s ≡ t
Shows (character w) s = s ≡ w % 256 ∷ []
Shows (int w) s = IsDecimal w s
Shows (hex w) s = IsNumeral 16 w s

abbrev pub ShowsAll : List Piece → List ℕ → Type 0
ShowsAll [] out = out ≡ []
ShowsAll (p ∷ ps) out = (s : List ℕ) × (r : List ℕ) × (out ≡ s ++ r) × Shows p s × ShowsAll ps r

decimal-negative :
    (w n : ℕ) (r : List ℕ)
    → ltb w (2 ^ 31) ≡ false
    → (2 ^ 32 - w) % 2 ^ 32 ≡ n
    → itoa itoa_fuel n 10 ≡ some r
    → decimal w ≡ some (b'-' ∷ r)
unfolding decimal
decimal-negative w n r high e h = rw (high, e, h) refl

decimal-IsDecimal : (w : ℕ) → w < 2 ^ 32 → (s : List ℕ) × (decimal w ≡ some s) × IsDecimal w s
unfolding decimal
decimal-IsDecimal w bound = elim (Bool-cases (ltb w (2 ^ 31))) [
  | inl low ↦
      let r = itoa-IsNumeral 32 w 10 (omega arith) (omega arith) (omega arith) in
      (r.0, rw (low, r.1) refl, inl (ground (arith, low), r.2))
  | inr high ↦
      let e : (2 ^ 32 - w) % 2 ^ 32 ≡ 2 ^ 32 - w = ground (arith, high) in
      let r =
        itoa-IsNumeral 32 (2 ^ 32 - w) 10 (omega arith) (omega arith) (ground (arith, high)) in
      (
        b'-' ∷ r.0,
        decimal-negative w (2 ^ 32 - w) r.0 high e r.1,
        inr (r.0, ground (arith, high), refl, r.2),
      )
]

-- A directive in the loop: its output follows, and the format moves on by two bytes.
loop-directive :
    (fuel : ℕ) (m : Memory) (args : ℕ → ℕ) (format k letter : ℕ) (s out : List ℕ)
    → m format ≡ b'%'
    → m (format + 1) ≡ letter
    → directive fuel m args letter k ≡ some (s, k + 1)
    → format_loop (suc fuel) m args format k out
      ≡ format_loop fuel m args (format + 2) (k + 1) (out ++ s)
unfolding format_loop
loop-directive fuel m args format k letter s out e f d = rw (e, f, d) refl

loop-plain :
    (fuel : ℕ) (m : Memory) (args : ℕ → ℕ) (format k c : ℕ) (out : List ℕ)
    → m format ≡ c
    → c ≢ 0
    → c ≢ b'%'
    → format_loop (suc fuel) m args format k out
      ≡ format_loop fuel m args (format + 1) k (out ++ c ∷ [])
unfolding format_loop
loop-plain fuel m args format k c out e n n' =
    let z : (c == 0) ≡ false = ground arith in
    let z' : (c == b'%') ≡ false = ground arith in rw (e, z, z') refl

loop-end :
    (fuel : ℕ) (m : Memory) (args : ℕ → ℕ) (format k : ℕ) (out : List ℕ)
    → m format ≡ 0
    → format_loop (suc fuel) m args format k out ≡ some out
unfolding format_loop
loop-end fuel m args format k out e = rw e refl

-- What a run of the loop yields from here.
abbrev pub Runs : ℕ → Memory → (ℕ → ℕ) → (format k : ℕ) → List ℕ → List Piece → Type 0
Runs fuel m args format k out ps =
    (r : List ℕ) × (format_loop fuel m args format k out ≡ some (out ++ r)) × ShowsAll ps r

-- The run after a piece that wrote `s`, as the run from that piece on.
Runs-cons :
    (fuel : ℕ) (m : Memory) (args : ℕ → ℕ) (format k format' k' : ℕ) (out s : List ℕ) (p : Piece)
    (ps : List Piece)
    → format_loop (suc fuel) m args format k out ≡ format_loop fuel m args format' k' (out ++ s)
    → Shows p s
    → Runs fuel m args format' k' (out ++ s) ps
    → Runs (suc fuel) m args format k out (p ∷ ps)
Runs-cons fuel m args format k format' k' out s p ps e shows r =
    (s ++ r.0, e ∙ r.1 ∙ ap some (append_assoc out s r.0), (s, r.0, refl, shows, r.2))

Chars-two : (m : Memory) (p c d : ℕ) (s : List ℕ) → Chars m p (c ∷ d ∷ s) → Chars m (p + 2) s
Chars-two m p c d s h = let e : p + 1 + 1 ≡ p + 2 = omega arith in subst (λ q. Chars m q s) e h.2.2

format_loop-Runs :
    (fuel bound : ℕ) (m : Memory) (args : ℕ → ℕ) (format k : ℕ) (out : List ℕ) (ps : List Piece)
    → Chars m format (encode ps)
    → Arguments bound m args k ps
    → length (encode ps) + bound < fuel
    → Runs fuel m args format k out ps
unfolding encode directive
format_loop-Runs zero bound m args format k out ps c a enough = absurd (omega arith)
format_loop-Runs (suc fuel) bound m args format k out [] c a enough =
    ([], loop-end fuel m args format k out c ∙ ap some (sym (append-nil out)), refl)
format_loop-Runs (suc fuel) bound m args format k out (plain x ∷ ps) c a enough =
    Runs-cons fuel m args format k (format + 1) k out (x ∷ []) (plain x) ps
      (loop-plain fuel m args format k x out c.0 c.1 a.0) refl
      (format_loop-Runs fuel bound m args (format + 1) k (out ++ x ∷ []) ps c.2 a.1 (omega arith))
format_loop-Runs (suc fuel) bound m args format k out (text s ∷ ps) c a enough =
    Runs-cons fuel m args format k (format + 2) (k + 1) out s (text s) ps
      (loop-directive fuel m args format k b's' s out c.0 c.2.0
        (rw (string_at-Chars fuel m (args k) s a.0.0 (omega arith)) refl))
      refl
      (format_loop-Runs fuel bound m args (format + 2) (k + 1) (out ++ s) ps
        (Chars-two m format b'%' b's' (encode ps) c) a.1 (omega arith))
format_loop-Runs (suc fuel) bound m args format k out (character w ∷ ps) c a enough =
    let s = w % 256 ∷ [] in
    Runs-cons fuel m args format k (format + 2) (k + 1) out s (character w) ps
      (loop-directive fuel m args format k b'c' s out c.0 c.2.0 (rw a.0 refl)) refl
      (format_loop-Runs fuel bound m args (format + 2) (k + 1) (out ++ s) ps
        (Chars-two m format b'%' b'c' (encode ps) c) a.1 (omega arith))
format_loop-Runs (suc fuel) bound m args format k out (int w ∷ ps) c a enough =
    let d = decimal-IsDecimal w a.0.1 in
    Runs-cons fuel m args format k (format + 2) (k + 1) out d.0 (int w) ps
      (loop-directive fuel m args format k b'd' d.0 out c.0 c.2.0 (rw (a.0.0, d.1) refl)) d.2
      (format_loop-Runs fuel bound m args (format + 2) (k + 1) (out ++ d.0) ps
        (Chars-two m format b'%' b'd' (encode ps) c) a.1 (omega arith))
format_loop-Runs (suc fuel) bound m args format k out (hex w ∷ ps) c a enough =
    let d = itoa-IsNumeral 32 w 16 (omega arith) (omega arith) a.0.1 in
    Runs-cons fuel m args format k (format + 2) (k + 1) out d.0 (hex w) ps
      (loop-directive fuel m args format k b'x' d.0 out c.0 c.2.0 (rw (a.0.0, d.1) refl)) d.2
      (format_loop-Runs fuel bound m args (format + 2) (k + 1) (out ++ d.0) ps
        (Chars-two m format b'%' b'x' (encode ps) c) a.1 (omega arith))

-- For a format made of plain bytes and the directives `%s`, `%c`, `%d` and `%x`, whose arguments
-- are strings shorter than `bound` and words, `vsprintf` ends within `bound` and the format's
-- length of steps, and its output is the pieces in order: a plain byte, the string, the low byte
-- of the word, its signed decimal numeral, its hexadecimal numeral.
pub vsprintf-ShowsAll :
    (fuel bound : ℕ) (m : Memory) (args : ℕ → ℕ) (format : ℕ) (ps : List Piece)
    → Chars m format (encode ps)
    → Arguments bound m args 0 ps
    → length (encode ps) + bound < fuel
    → (out : List ℕ) × (vsprintf fuel m args format ≡ some out) × ShowsAll ps out
unfolding vsprintf
vsprintf-ShowsAll fuel bound m args format ps c a enough =
    format_loop-Runs fuel bound m args format 0 [] ps c a enough
