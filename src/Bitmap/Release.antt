-- ===== src/Bitmap/Release.antt =====
-- `bitmap_release`: its assertion, its effect, and that it undoes `bitmap_acquire`.
use k_os.Base.{
  ℕ, zero, suc, ◌+◌, ◌*◌, ◌≤◌, ◌<◌, ◌≡◌, ◌≢◌, refl, true, false, not, ◌&&◌, ◌||◌, none, some, arith,
  inl, inr, Bool-cases, subst,
}
use k_os.Bitmap.{Bitmap, bitmap_check, bitmap_set, bitmap_acquire, bitmap_release}
use k_os.Bitmap.Bits.{IsBitmap, in_run, bitmap_set-IsBitmap, bitmap_set-len, check-set}
use k_os.Bitmap.Search.{Free, FirstFit}
use k_os.Bitmap.Acquire.{taken, acquire-FirstFit, acquire-AcquireEffect}

pub record ReleaseEffect (b : Bitmap) (from cnt : ℕ) (b' : Bitmap) : Type 0 where
  pub valid : IsBitmap b'
  pub same_len : b'.len ≡ b.len
  pub bits : (j : ℕ) → bitmap_check b' j ≡ (not (in_run from cnt j) && bitmap_check b j)

-- `bitmap_release` of bits that are all set ends without a failed assertion, clears those bits and
-- no others, and keeps the bitmap well formed.
pub release-ReleaseEffect :
    (b : Bitmap) (from cnt : ℕ)
    → IsBitmap b
    → ((j : ℕ) → from ≤ j → j < from + cnt → bitmap_check b j ≡ true)
    → (b' : Bitmap) × (bitmap_release b from cnt ≡ some b') × ReleaseEffect b from cnt b'
unfolding bitmap_release
release-ReleaseEffect b from zero h all =
    (b, refl, record { valid = h; same_len = refl; bits = λ j. ground arith })
release-ReleaseEffect b from (suc cnt) h all =
    let rest =
      release-ReleaseEffect (bitmap_set b from false) (from + 1) cnt
        (bitmap_set-IsBitmap b from false h)
        (λ j le lt. ground (arith, check-set b from false j h, all j)) in
    let eff = rest.2 in
    (
      rest.0,
      rw (all from (omega arith) (omega arith)) rest.1,
      record {
        valid = eff.valid;
        same_len = omega (arith, eff.same_len, bitmap_set-len b from false);
        bits = λ j. ground (arith, eff.bits j, check-set b from false j h);
      },
    )

-- A clear bit anywhere in the run that is released stops `bitmap_release` at its assertion, the
-- guard against a double free.
pub release_double_free :
    (b : Bitmap) (from cnt j : ℕ)
    → IsBitmap b
    → from ≤ j
    → j < from + cnt
    → bitmap_check b j ≡ false
    → bitmap_release b from cnt ≡ none
unfolding bitmap_release
release_double_free b from zero j h le lt clear = absurd (omega arith)
release_double_free b from (suc cnt) j h le lt clear = elim (Bool-cases (bitmap_check b from)) [
  | inr unset ↦ rw unset
  | inl used ↦
      let ne : from ≢ j = (λ e. ground arith) in
      rw used (
        release_double_free (bitmap_set b from false) (from + 1) cnt j
          (bitmap_set-IsBitmap b from false h) (omega arith) (omega arith)
          (ground (arith, check-set b from false j h)))
]

restored :
    (b taken_b b' : Bitmap) (k cnt j : ℕ)
    → Free b cnt k
    → bitmap_check taken_b j ≡ (in_run k cnt j || bitmap_check b j)
    → bitmap_check b' j ≡ (not (in_run k cnt j) && bitmap_check taken_b j)
    → bitmap_check b' j ≡ bitmap_check b j
restored b taken_b b' k cnt j free set clear = ground (arith, free j)

-- Releasing the run that `bitmap_acquire` returned succeeds and gives every bit its old value.
pub release-acquire :
    (b : Bitmap) (cnt k : ℕ)
    → IsBitmap b
    → 1 ≤ cnt
    → (bitmap_acquire b cnt).0 ≡ some k
    → (b' : Bitmap) × (bitmap_release (bitmap_acquire b cnt).1 k cnt ≡ some b')
      × ((j : ℕ) → bitmap_check b' j ≡ bitmap_check b j)
release-acquire b cnt k h pos e =
    let eff = acquire-AcquireEffect b cnt h in
    let fit = subst (FirstFit b cnt (b.len * 8)) e (acquire-FirstFit b cnt h pos) in
    let bits =
      subst
        (λ r.
          (j : ℕ) → bitmap_check (bitmap_acquire b cnt).1 j ≡ (taken r cnt j || bitmap_check b j))
        e eff.bits in
    let out =
      release-ReleaseEffect (bitmap_acquire b cnt).1 k cnt eff.valid
        (λ j le lt. ground (arith, bits j)) in
    (
      out.0,
      out.1,
      λ j. restored b (bitmap_acquire b cnt).1 out.0 k cnt j fit.1 (bits j) (out.2.bits j),
    )
