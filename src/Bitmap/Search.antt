-- ===== src/Bitmap/Search.antt =====
-- The three searches of `bitmap_acquire`: what they find, and that their fuel is enough.
use k_os.Base.{
  ℕ, zero, suc, ◌+◌, ◌-◌, ◌^◌, ◌≤◌, ◌<◌, ◌≡◌, ◌≢◌, refl, true, false, ◌&&◌, Option, none, some, ltb,
  ◌==◌, arith, inl, inr, dec_lt, Bool-cases,
}
use k_os.Base.Bits.{bit_test, mask_test}
use k_os.Base.Word.{u32, sub32}
use k_os.Bitmap.{Bitmap, bitmap_check, byte_search, bit_search, run_search}

-- With fuel for the bytes that are left, the byte search stops at `len` or at a byte with a clear
-- bit, and passes full bytes only.
pub byte_search_lem :
    (fuel : ℕ) (b : Bitmap) (i : ℕ)
    → i ≤ b.len
    → b.len < fuel + i
    → (i ≤ byte_search fuel b i)
      × (byte_search fuel b i ≤ b.len)
      × ((byte_search fuel b i < b.len) → b.bits (byte_search fuel b i) ≢ 255)
      × ((k : ℕ) → i ≤ k → k < byte_search fuel b i → b.bits k ≡ 255)
unfolding byte_search
byte_search_lem zero b i le enough = absurd (omega arith)
byte_search_lem (suc fuel) b i le enough = elim (Bool-cases ((b.bits i == 255) && ltb i b.len)) [
  | inl go ↦
      let rest = byte_search_lem fuel b (i + 1) (ground arith) (omega arith) in
      rw go (omega (arith, rest.0), rest.1, rest.2, λ k hk lt. ground (arith, rest.3 k))
  | inr stop ↦ rw stop (omega arith, le, λ lt. ground arith, λ k hk lt. absurd (omega arith))
]

-- In a byte with a clear bit the bit search finds the first one.
pub bit_search_lem :
    (fuel byte i c : ℕ)
    → byte < 256
    → i ≤ c
    → c < 8
    → bit_test byte c ≡ false
    → c < fuel + i
    → (i ≤ bit_search fuel byte i)
      × (bit_search fuel byte i ≤ c)
      × (bit_test byte (bit_search fuel byte i) ≡ false)
      × ((k : ℕ) → i ≤ k → k < bit_search fuel byte i → bit_test byte k ≡ true)
unfolding bit_search
bit_search_lem zero byte i c hb le hc clear enough = absurd (omega arith)
bit_search_lem (suc fuel) byte i c hb le hc clear enough = elim (Bool-cases (bit_test byte i)) [
  | inl used ↦
      let rest = bit_search_lem fuel byte (i + 1) c hb (ground arith) hc clear (omega arith) in
      rw (mask_test byte i hb (omega arith), used)
        (omega (arith, rest.0), rest.1, rest.2, λ k hk lt. ground (arith, rest.3 k))
  | inr free ↦
      rw (mask_test byte i hb (omega arith), free)
        (omega arith, le, free, λ k hk lt. absurd (omega arith))
]

-- A run of `cnt` bits from `k` on that holds a set bit.
abbrev pub Blocked : Bitmap → (cnt k : ℕ) → Type 0
Blocked b cnt k = (j : ℕ) × (k ≤ j) × (j < k + cnt) × (bitmap_check b j ≡ true)

abbrev pub Free : Bitmap → (cnt k : ℕ) → Type 0
Free b cnt k = (j : ℕ) → k ≤ j → j < k + cnt → bitmap_check b j ≡ false

-- The answer is the first free run below `total`, or there is none.
abbrev pub FirstFit : Bitmap → (cnt total : ℕ) → Option ℕ → Type 0
FirstFit b cnt total none = (k : ℕ) → k + cnt ≤ total → Blocked b cnt k
FirstFit b cnt total (some k) =
    (k + cnt ≤ total) × Free b cnt k × ((k' : ℕ) → k' < k → Blocked b cnt k')

-- What the third loop knows at its head: the last `free_cnt` bits before `idx` are clear, the bit
-- before those is set, and no run that ends by `idx` is free.
pub record Scanning (b : Bitmap) (cnt total idx free_cnt : ℕ) : Type 0 where
  pub short : free_cnt < cnt
  pub below : idx ≤ total
  pub back : free_cnt ≤ idx
  pub free : (j : ℕ) → idx ≤ j + free_cnt → j < idx → bitmap_check b j ≡ false
  pub edge : 0 < idx - free_cnt → bitmap_check b (idx - free_cnt - 1) ≡ true
  pub blocked : (k : ℕ) → k + cnt ≤ idx → Blocked b cnt k

module _ (b : Bitmap) (cnt total : ℕ) where
  Scanning-used :
      (idx fc : ℕ)
      → bitmap_check b idx ≡ true
      → idx < total
      → Scanning b cnt total idx fc
      → Scanning b cnt total (idx + 1) 0
  Scanning-used idx fc used lt s = record {
    short = omega (arith, s.short);
    below = omega arith;
    back = omega arith;
    free = λ j le lt'. absurd (omega arith);
    edge = λ _. let e : idx + 1 - 0 - 1 ≡ idx = omega arith in rw e used;
    blocked = λ k le. elim (dec_lt idx (k + cnt)) [
      | yes last ↦ (idx, omega (arith, s.short), last, used)
      | no before ↦ s.blocked k (omega arith)
    ];
  }

  -- A run that ends at `idx`, or later but starts before the clear bits, holds the bit before them.
  edge-Blocked : (idx fc k : ℕ) → Scanning b cnt total idx fc → k < idx - fc → Blocked b cnt k
  edge-Blocked idx fc k s lt = elim (dec_lt idx (k + cnt)) [
    | yes over ↦ (idx - fc - 1, omega arith, omega (arith, s.short), s.edge (omega arith))
    | no ends ↦ s.blocked k (omega arith)
  ]

  Scanning-free :
      (idx fc : ℕ)
      → bitmap_check b idx ≡ false
      → idx < total
      → fc + 1 < cnt
      → Scanning b cnt total idx fc
      → Scanning b cnt total (idx + 1) (fc + 1)
  Scanning-free idx fc unused lt more s = record {
    short = more;
    below = omega arith;
    back = omega (arith, s.back);
    free = λ j le lt'. elim (dec_lt j idx) [
      | yes old ↦ s.free j (omega arith) old
      | no new ↦ let e : j ≡ idx = omega arith in rw e unused
    ];
    edge =
        λ pos. let e : idx + 1 - (fc + 1) ≡ idx - fc = omega arith in rw e (s.edge (omega arith));
    blocked = λ k le. edge-Blocked idx fc k s (omega arith);
  }

  found-FirstFit :
      (idx fc k : ℕ)
      → total < 2 ^ 31
      → bitmap_check b idx ≡ false
      → idx < total
      → fc + 1 ≡ cnt
      → Scanning b cnt total idx fc
      → u32 (sub32 idx (fc + 1) + 1) ≡ k
      → FirstFit b cnt total (some k)
  found-FirstFit idx fc k small unused lt last s e =
      let back = s.back in
      let e' : k ≡ idx - fc = omega arith in
      (
        omega arith,
        λ j le lt'. elim (dec_lt j idx) [
          | yes old ↦ s.free j (omega arith) old
          | no new ↦ let same : j ≡ idx = omega arith in rw same unused
        ],
        λ k' lt'. edge-Blocked idx fc k' s (omega arith),
      )

  pub run_search-FirstFit :
      (fuel idx fc : ℕ)
      → total < 2 ^ 31
      → total < fuel + idx
      → Scanning b cnt total idx fc
      → FirstFit b cnt total (run_search fuel b cnt total idx fc)
  unfolding run_search
  run_search-FirstFit zero idx fc small enough s = absurd (omega (arith, s.below))
  run_search-FirstFit (suc fuel) idx fc small enough s = elim (Bool-cases (ltb idx total)) [
    | inr end ↦ rw end (λ k le. s.blocked k (ground (arith, s.below)))
    | inl more ↦ elim (Bool-cases (bitmap_check b idx)) [
      | inl used ↦
          let unmet : (0 == cnt) ≡ false = ground (arith, s.short) in
          rw (more, used, unmet)
            (run_search-FirstFit fuel (idx + 1) 0 small (omega arith)
              (Scanning-used idx fc used (ground arith) s))
      | inr unused ↦ elim (Bool-cases (fc + 1 == cnt)) [
        | inl last ↦
            rw (more, unused, last)
              (found-FirstFit idx fc _ small unused (ground arith) (ground arith) s refl)
        | inr short ↦
            rw (more, unused, short)
              (run_search-FirstFit fuel (idx + 1) (fc + 1) small (omega arith)
                (Scanning-free idx fc unused (ground arith) (ground (arith, s.short)) s))
      ]
    ]
  ]
