-- ===== src/Memory/Pages/RoundTrip.antt =====
-- `page_release` of what `page_acquire` returned.
use k_os.Base.{
  ℕ, ◌<◌, ◌≤◌, ◌≡◌, ◌≢◌, true, false, some, arith, Bool-cases, inl, inr, ap, ◌∙◌, sym, subst,
}
use k_os.Bitmap.Bits.{in_run}
use k_os.Memory.Pool.Laws.{frame_used, page_used, unit_addr}
use k_os.Memory.Pool.Vaddr.{Claimed}
use k_os.Memory.PageTable.{pte_ptr, is_present}
use k_os.Memory.Pages.{Kernel, page_acquire, page_release}
use k_os.Memory.Pages.Laws.{page_at, MapsRange}
use k_os.Memory.Pages.Acquire.{IsKernel, HasRoom, claimed_kernel, page_acquire_low}
use k_os.Memory.Pages.Release.{HoldsRange, page_release-Unmaps}

-- What `page_acquire` has mapped is a range that can be released.
MapsRange-HoldsRange :
    (k k' : Kernel) (v cnt : ℕ) (r : MapsRange k v cnt k') → HoldsRange k' v cnt r.frame
MapsRange-HoldsRange k k' v cnt r = record {
  pool = r.grows.valid;
  mapped = r.mapped;
  leads = λ i lt. r.leads i lt ∙ ap (λ s. unit_addr s (r.frame i)) (sym r.grows.same_start);
  used = r.is_used;
  inside = λ i lt. omega (arith, r.inside i lt, r.grows.same_len);
  own = r.own;
}

-- The same for any kernel that claimed and mapped a run of pages.
release_claimed :
    (k taken : Kernel) (w idx cnt m : ℕ)
    → IsKernel k
    → 1 ≤ cnt
    → HasRoom k cnt m
    → idx ≤ m
    → Claimed k.k_v_pool cnt idx w taken.k_v_pool
    → MapsRange (claimed_kernel k cnt) w cnt taken
    → (k' : Kernel) × (page_release taken w cnt ≡ some k')
      × ((j : ℕ) → page_used k'.k_v_pool j ≡ page_used k.k_v_pool j)
      × ((i : ℕ) → i < cnt → is_present (k'.words (pte_ptr (page_at w i))) ≡ false)
      × ((j : ℕ) → frame_used k.k_p_pool j ≡ true → frame_used k'.k_p_pool j ≡ true)
unfolding claimed_kernel
release_claimed k taken w idx cnt m h pos room low claimed maps =
    let v = unit_addr taken.k_v_pool.vaddr_start idx in
    let same : v ≡ w = omega (arith, low, claimed.address, claimed.same_start, room.below, pos) in
    let aligned = h.pages.aligned in
    let holds = MapsRange-HoldsRange (claimed_kernel k cnt) taken w cnt maps in
    let r =
      page_release-Unmaps taken idx cnt maps.frame claimed.valid
        (record {
          aligned = omega (arith, aligned, claimed.same_start);
          ordinary = omega (arith, low, claimed.same_start, room.below);
        })
        pos (subst (λ x. HoldsRange taken x cnt maps.frame) (sym same) holds)
        (λ j le lt. ground (arith, claimed.now j)) in
    (
      r.0,
      subst (λ x. page_release taken x cnt ≡ some r.0) same r.1,
      λ j. elim (Bool-cases (in_run idx cnt j)) [
        | inl inside ↦
            let unset = claimed.was_free j (ground (arith, inside)) (ground (arith, inside)) in
            ground (arith, r.4 j, claimed.now j, inside, unset)
        | inr out ↦ ground (arith, r.4 j, claimed.now j, out)
      ],
      λ i lt. subst (λ x. is_present (r.0.words (pte_ptr (page_at x i))) ≡ false) same (r.5 i lt),
      λ j used.
          r.3 j (λ i lt e.
            absurd (ground (arith, sym used ∙ ap (frame_used k.k_p_pool) e ∙ maps.was_free i lt)))
          ∙ maps.grows.still j used,
    )

-- `page_release` of what `page_acquire` returned succeeds: the same virtual pages are in use as
-- before, the pages that were mapped are no longer present, and every frame that was in use before
-- still is.
pub page_release-page_acquire :
    (k : Kernel) (cnt m : ℕ)
    → IsKernel k
    → 1 ≤ cnt
    → HasRoom k cnt m
    → (page_acquire k 0 cnt).0 ≢ 0
    → (k' : Kernel) × (page_release (page_acquire k 0 cnt).1 (page_acquire k 0 cnt).0 cnt ≡ some k')
      × ((j : ℕ) → page_used k'.k_v_pool j ≡ page_used k.k_v_pool j)
      × ((i : ℕ)
          → i < cnt
          → is_present (k'.words (pte_ptr (page_at (page_acquire k 0 cnt).0 i))) ≡ false)
      × ((j : ℕ) → frame_used k.k_p_pool j ≡ true → frame_used k'.k_p_pool j ≡ true)
page_release-page_acquire k cnt m h pos room got =
    let a = page_acquire_low k cnt m h pos room got in
    release_claimed k (page_acquire k 0 cnt).1 (page_acquire k 0 cnt).0 a.0 cnt m h pos room a.1 a.2
      a.3
