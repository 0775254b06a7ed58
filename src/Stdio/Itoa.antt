-- ===== src/Stdio/Itoa.antt =====
-- `itoa` writes the numeral of its argument.
use k_os.Base.{
  ℕ, zero, suc, ◌+◌, ◌-◌, ◌*◌, ◌/◌, ◌%◌, ◌^◌, ◌≤◌, ◌<◌, ◌≡◌, ◌≢◌, refl, Bool, true, false, some,
  ltb, leb, ◌&&◌, ◌==◌, if◌then◌else◌, List, [], ◌∷◌, ◌++◌, arith, Bool-cases, inl, inr, ap, ◌∙◌,
  subst,
}
use native.Mathlib.Nat.{div-add-mod', div-lt_iff_lt-mul, mod-lt, mul-le-mul_left, pow-suc, zero-div}
use k_os.Stdio.{digit_char, itoa}

-- What a digit stands for, 0-9 and A-F; 16 for any other byte.
unfoldable pub digit_value : ℕ → ℕ
digit_value c =
    if leb b'0' c && leb c b'9'
    then c - b'0'
    else if leb b'A' c && leb c b'F'
    then c - b'A' + 10
    else 16

-- The number that a numeral stands for, read from the left.
unfoldable pub number_from : (base so_far : ℕ) → List ℕ → ℕ
number_from base so_far [] = so_far
number_from base so_far (c ∷ s) = number_from base (so_far * base + digit_value c) s

digit_value-digit_char : (d : ℕ) → d < 16 → digit_value (digit_char d) ≡ d
unfolding digit_value digit_char
digit_value-digit_char d h = ground arith

number_from-snoc :
    (base n c : ℕ) (s : List ℕ)
    → number_from base n (s ++ c ∷ []) ≡ number_from base n s * base + digit_value c
unfolding number_from
number_from-snoc base n c [] = refl
number_from-snoc base n c (x ∷ s) = number_from-snoc base (n * base + digit_value x) c s

-- Every byte is a digit of the base.
unfoldable pub all_digits : (base : ℕ) → List ℕ → Bool
all_digits base [] = true
all_digits base (c ∷ s) = ltb (digit_value c) base && all_digits base s

abbrev pub leads : (value : ℕ) → List ℕ → Bool
leads value [] = false
leads value (c ∷ r) = if value == 0 then c == b'0' else ltb b'0' c

-- A numeral of `value`: at least one byte, digits of the base only, and no zero in front but for the
-- number 0.
pub record IsNumeral (base value : ℕ) (s : List ℕ) : Type 0 where
  pub value_eq : number_from base 0 s ≡ value
  pub digits : all_digits base s ≡ true
  pub leading : leads value s ≡ true

leads-snoc :
    (n q d : ℕ) (s : List ℕ) → n ≢ 0 → q ≢ 0 → leads q s ≡ true → leads n (s ++ d ∷ []) ≡ true
leads-snoc n q d [] hn hq h = absurd (ground arith)
leads-snoc n q d (c ∷ r) hn hq h = ground arith

div_eq : (n b : ℕ) → n / b * b + n % b ≡ n
div_eq n b = div-add-mod' n b

leads-digit_char : (d : ℕ) → d < 16 → leads d (digit_char d ∷ []) ≡ true
unfolding digit_char
leads-digit_char d h = ground arith

all_digits-snoc :
    (base d : ℕ) (s : List ℕ)
    → base ≤ 16
    → d < base
    → all_digits base s ≡ true
    → all_digits base (s ++ digit_char d ∷ []) ≡ true
unfolding all_digits
all_digits-snoc base d [] hi lt h =
    let e = digit_value-digit_char d (omega arith) in ground (arith, e)
all_digits-snoc base d (c ∷ s) hi lt h =
    let rest = all_digits-snoc base d s hi lt (ground (arith, h)) in ground (arith, h, rest)

itoa_last :
    (value base : ℕ)
    → 2 ≤ base
    → base ≤ 16
    → value / base ≡ 0
    → IsNumeral base value (digit_char (value % base) ∷ [])
unfolding number_from all_digits
itoa_last value base lo hi small = record { value_eq = v; digits = d; leading = l }
  where
    whole : value % base ≡ value
    whole =
        let e = div_eq value base in
        let e' = rw small at e in let z : 0 * base ≡ 0 = omega arith in omega arith

    bound : value % base < 16
    bound = let lt = mod-lt value {m = base} (omega arith) in omega arith

    v : number_from base 0 (digit_char (value % base) ∷ []) ≡ value
    v = let d = digit_value-digit_char (value % base) bound in let w = whole in omega arith

    d : all_digits base (digit_char (value % base) ∷ []) ≡ true
    d =
        let lt = mod-lt value {m = base} (omega arith) in
        all_digits-snoc base (value % base) [] hi lt refl

    l : leads value (digit_char (value % base) ∷ []) ≡ true
    l =
        subst (λ v. leads v (digit_char (value % base) ∷ []) ≡ true) whole
          (leads-digit_char (value % base) bound)

itoa_snoc :
    (value base : ℕ) (ds : List ℕ)
    → 2 ≤ base
    → base ≤ 16
    → value / base ≢ 0
    → IsNumeral base (value / base) ds
    → IsNumeral base value (ds ++ digit_char (value % base) ∷ [])
itoa_snoc value base ds lo hi ne h = record {
  value_eq = v;
  digits = d;
  leading = leads-snoc value (value / base) (digit_char (value % base)) ds positive ne h.leading;
}
  where
    v : number_from base 0 (ds ++ digit_char (value % base) ∷ []) ≡ value
    v =
        let lt = mod-lt value {m = base} (omega arith) in
        number_from-snoc base 0 (digit_char (value % base)) ds
        ∙ rw (h.value_eq, digit_value-digit_char (value % base) (omega arith)) (div_eq value base)

    d : all_digits base (ds ++ digit_char (value % base) ∷ []) ≡ true
    d =
        let lt = mod-lt value {m = base} (omega arith) in
        all_digits-snoc base (value % base) ds hi lt h.digits

    positive : value ≢ 0
    positive z = ne (ap (λ n. n / base) z ∙ zero-div base)

div_small : (n b p : ℕ) → 2 ≤ b → n < p * 2 → n / b < p
div_small n b p lo h =
    (div-lt_iff_lt-mul {k = b} {x = n} {y = p} (omega arith)).1
      (let m : p * 2 ≤ p * b = mul-le-mul_left p lo in omega arith)

-- For a base from 2 to 16 and a number that the fuel covers, `itoa` ends and writes the numeral of
-- the number: bytes 0-9 and A-F that are digits of the base and stand for the number, with no zero in
-- front but for 0 itself.
pub itoa-IsNumeral :
    (fuel value base : ℕ)
    → 2 ≤ base
    → base ≤ 16
    → value < 2 ^ fuel
    → (ds : List ℕ) × (itoa (suc fuel) value base ≡ some ds) × IsNumeral base value ds
unfolding itoa
itoa-IsNumeral zero value base lo hi enough =
    let e : value ≡ 0 = omega arith in
    let small : value / base ≡ 0 = ap (λ n. n / base) e ∙ zero-div base in
    (digit_char (value % base) ∷ [], rw small refl, itoa_last value base lo hi small)
itoa-IsNumeral (suc fuel) value base lo hi enough =
    let small_enough = div_small value base (2 ^ fuel) lo (rw (pow-suc 2 fuel) at enough) in
    let s = itoa-IsNumeral fuel (value / base) base lo hi small_enough in
    elim (Bool-cases (value / base == 0)) [
      | inl small ↦ (
        digit_char (value % base) ∷ [],
        rw small refl,
        itoa_last value base lo hi (ground (arith, small)),
      )
      | inr large ↦ (
        s.0 ++ digit_char (value % base) ∷ [],
        rw (large, s.1) refl,
        itoa_snoc value base s.0 lo hi (ground (arith, large)) s.2,
      )
    ]
