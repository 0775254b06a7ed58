-- ===== src/Memory/Pages/Acquire.antt =====
-- `page_acquire` as a whole: its answer and the two ways in which it fails.
use k_os.Base.{
  ℕ, zero, suc, ◌+◌, ◌*◌, ◌≤◌, ◌<◌, ◌≡◌, ◌≢◌, refl, Bool, true, false, ◌||◌, inl, inr, ◌==◌,
  if◌then◌else◌, arith, ap, sym, ◌∙◌, ==_ne, Bool-cases, subst, dec_lt,
}
use k_os.Base.Word.{u32}
use k_os.Bitmap.{Bitmap}
use k_os.Bitmap.Bits.{in_run}
use k_os.Bitmap.Search.{Blocked, Free}
use k_os.Memory.Pool.{pg_size, palloc, vaddr_acquire}
use k_os.Memory.Pool.Laws.{
  IsPPool, IsVPool, unit_addr, frame_used, page_used, palloc_lem, Palloc-positive,
}
use k_os.Memory.Pool.Vaddr.{Claimed, acquire_any}
use k_os.Memory.Pages.{Kernel, map_pages, page_acquire}
use k_os.Memory.Pages.Laws.{
  MapsRange, IsRegion, mapped_kernel, MapsRange-suc, MapsRange-zero, add-Grows,
}

pub record IsKernel (k : Kernel) : Type 0 where
  pub frames : IsPPool k.k_p_pool
  pub pages : IsVPool k.k_v_pool

-- A free run of pages that ends below the page tables, at the page number `m`.
pub record HasRoom (k : Kernel) (cnt m : ℕ) : Type 0 where
  pub inside : m + cnt ≤ k.k_v_pool.vaddr_bitmap.len * 8
  pub below : unit_addr k.k_v_pool.vaddr_start (m + cnt) ≤ 0xffc00000
  pub free : Free k.k_v_pool.vaddr_bitmap cnt m

IsRegion-suc : (v left : ℕ) → IsRegion v (suc left) → IsRegion (u32 (v + pg_size)) left
IsRegion-suc v left r = record {
  aligned = omega (arith, r.aligned, r.ordinary);
  ordinary = omega (arith, r.ordinary);
}

module _ (left : ℕ) (k : Kernel) (v : ℕ) where
  abbrev round : Kernel
  round = mapped_kernel k v (palloc k.k_p_pool).0 (palloc k.k_p_pool).1

  map_pages_step :
      ((palloc k.k_p_pool).0 == 0) ≡ false
      → map_pages (suc left) k v ≡ map_pages left round (u32 (v + pg_size))
  unfolding map_pages mapped_kernel
  map_pages_step got = rw got

  map_pages_stop :
      (palloc k.k_p_pool).0 ≡ 0
      → (map_pages (suc left) k v).0 ≡ false
        × ((map_pages (suc left) k v).1 ≡ record k { k_p_pool = (palloc k.k_p_pool).1 })
  unfolding map_pages
  map_pages_stop e = rw e (refl, refl)

-- When every frame could be had, the loop has mapped the whole range.
pub map_pages-MapsRange :
    (left : ℕ) (k : Kernel) (v : ℕ)
    → IsPPool k.k_p_pool
    → IsRegion v left
    → (map_pages left k v).0 ≡ true
    → MapsRange k v left (map_pages left k v).1
unfolding map_pages mapped_kernel
map_pages-MapsRange zero k v valid region done = MapsRange-zero k v valid
map_pages-MapsRange (suc left) k v valid region done = elim (palloc_lem k.k_p_pool valid) [
  | inr full ↦ absurd (let e = (map_pages_stop left k v full.is_null).0 in cc)
  | inl (f, took) ↦
      let got : ((palloc k.k_p_pool).0 == 0) ≡ false =
        ==_ne _ 0 (let pos = Palloc-positive valid took in omega arith) in
      let step = map_pages_step left k v got in
      let next : u32 (v + pg_size) ≡ v + pg_size = omega (arith, region.ordinary) in
      let grown = add-Grows k.words (palloc k.k_p_pool).1 v (palloc k.k_p_pool).0 took.valid in
      let rest =
        map_pages-MapsRange left (round left k v) (u32 (v + pg_size)) grown.valid
          (IsRegion-suc v left region) (ap (λ r. r.0) (sym step) ∙ done) in
      subst (λ (r : Bool × Kernel). MapsRange k v (suc left) r.1) (sym step)
        (MapsRange-suc k v left f _ _ valid region took _ (
          subst
            (λ a.
              MapsRange (round left k v) a left
                (map_pages left (round left k v) (u32 (v + pg_size))).1)
            next rest))
]

-- With no free frame the loop stops in its first round and maps nothing.
map_pages_full :
    (left : ℕ) (k : Kernel) (v : ℕ)
    → 0 < left
    → IsPPool k.k_p_pool
    → ((j : ℕ) → j < k.k_p_pool.paddr_bitmap.len * 8 → frame_used k.k_p_pool j ≡ true)
    → ((map_pages left k v).0 ≡ false) × ((map_pages left k v).1.k_v_pool ≡ k.k_v_pool)
map_pages_full zero k v pos valid full = absurd (omega arith)
map_pages_full (suc left) k v pos valid full = elim (palloc_lem k.k_p_pool valid) [
  | inl (f, took) ↦ let u = full f took.inside in absurd (let w = took.was_free in cc)
  | inr none_left ↦
      let r = map_pages_stop left k v none_left.is_null in (r.0, ap (λ t. t.k_v_pool) r.1)
]

-- The state between the two halves of `page_acquire`.
abbrev pub claimed_kernel : Kernel → ℕ → Kernel
claimed_kernel k cnt = record k { k_v_pool = (vaddr_acquire k.k_v_pool 0 cnt).1 }

-- The lowest free run starts at or below any free run.
le_of_lowest :
    (b : Bitmap) (cnt idx m : ℕ) → Free b cnt m → ((j : ℕ) → j < idx → Blocked b cnt j) → idx ≤ m
le_of_lowest b cnt idx m free lowest = elim (dec_lt m idx) [
  | yes lt ↦ let (j, le, lt', used) = lowest m lt in absurd (let e = free j le lt' in cc)
  | no ge ↦ omega arith
]

module _ (k : Kernel) (cnt m : ℕ) (h : IsKernel k) (pos : 1 ≤ cnt) (room : HasRoom k cnt m) where
  abbrev claim : ℕ
  claim = (vaddr_acquire k.k_v_pool 0 cnt).0

  abbrev run : Bool × Kernel
  run = map_pages cnt (claimed_kernel k cnt) claim

  split : (claim == 0) ≡ false → page_acquire k 0 cnt ≡ ((if run.0 then claim else 0), run.1)
  unfolding page_acquire
  split e = rw e

  -- The pages that `page_acquire` claims.
  pub record Answer : Type 0 where
    pub idx : ℕ
    pub claimed : Claimed k.k_v_pool cnt idx claim (claimed_kernel k cnt).k_v_pool
    pub low : idx ≤ m
    pub not_null : (claim == 0) ≡ false
    pub region : IsRegion claim cnt

  answer : Answer
  answer = elim (acquire_any k.k_v_pool cnt h.pages pos) [
    | inr refused ↦
        let (j, le, lt, used) = refused.no_room m room.inside in
        absurd (let e = room.free j le lt in cc)
    | inl (idx, c, lowest) ↦
        let low = le_of_lowest k.k_v_pool.vaddr_bitmap cnt idx m room.free lowest in
        let at = c.address in
        let up = h.pages.positive in
        let al = h.pages.aligned in
        let top = room.below in
        record {
          idx = idx;
          claimed = c;
          low = low;
          not_null = ==_ne claim 0 (omega arith);
          region = record { aligned = omega arith; ordinary = omega arith };
        }
  ]

  mapped-answer :
      run.0 ≡ true
      → MapsRange (claimed_kernel k cnt) claim cnt run.1 × (page_acquire k 0 cnt ≡ (claim, run.1))
  mapped-answer done = (
    map_pages-MapsRange cnt (claimed_kernel k cnt) claim h.frames answer.region done,
    split answer.not_null ∙ ap (λ (b : Bool). ((if b then claim else 0), run.1)) done,
  )

  -- The answer, from the page number of the free run or one below.
  pub page_acquire_low :
      (page_acquire k 0 cnt).0 ≢ 0
      → (idx : ℕ) × (idx ≤ m)
        × Claimed k.k_v_pool cnt idx (page_acquire k 0 cnt).0 (page_acquire k 0 cnt).1.k_v_pool
        × MapsRange (claimed_kernel k cnt) (page_acquire k 0 cnt).0 cnt (page_acquire k 0 cnt).1
  page_acquire_low some_addr = elim (Bool-cases run.0) [
    | inr stopped ↦ absurd (
        some_addr (
          ap (λ r. r.0) (split answer.not_null)
          ∙ ap (λ (b : Bool). if b then claim else 0) stopped))
    | inl done ↦
        let r = mapped-answer done in
        let both =
          subst
            (λ (t : ℕ × Kernel).
              Claimed k.k_v_pool cnt answer.idx t.0 t.1.k_v_pool
              × MapsRange (claimed_kernel k cnt) t.0 cnt t.1)
            (sym r.1)
            (
              subst (λ vp. Claimed k.k_v_pool cnt answer.idx claim vp) (sym r.0.same_pages)
                  answer.claimed,
              r.0,
            ) in
        (answer.idx, answer.low, both.0, both.1)
  ]

  -- `page_acquire` at an address of its choice, where a long enough run of pages is free below the
  -- page tables: an answer other than NULL is the start of a run of pages that were free and are
  -- now in use, and each of them is mapped to a frame of its own that was free; no frame is shared
  -- and every other mapped page still leads to its frame.
  pub page_acquire_lem :
      (page_acquire k 0 cnt).0 ≢ 0
      → (idx : ℕ) × Claimed k.k_v_pool cnt idx
          (page_acquire k 0 cnt).0
          (page_acquire k 0 cnt).1.k_v_pool
        × MapsRange (claimed_kernel k cnt) (page_acquire k 0 cnt).0 cnt (page_acquire k 0 cnt).1
  page_acquire_lem some_addr = let r = page_acquire_low some_addr in (r.0, r.2, r.3)

  -- With every frame in use, and such a run of free pages, `page_acquire` returns NULL, and the
  -- virtual pages that it claimed stay in use.
  pub page_acquire_leaks :
      ((j : ℕ) → j < k.k_p_pool.paddr_bitmap.len * 8 → frame_used k.k_p_pool j ≡ true)
      → ((page_acquire k 0 cnt).0 ≡ 0)
        × (idx : ℕ) × (idx ≤ m)
        × Free k.k_v_pool.vaddr_bitmap cnt idx
        × ((j : ℕ)
            → page_used (page_acquire k 0 cnt).1.k_v_pool j
              ≡ (in_run idx cnt j || page_used k.k_v_pool j))
  page_acquire_leaks full =
      let stop = map_pages_full cnt (claimed_kernel k cnt) claim pos h.frames full in
      let got = answer.not_null in
      (
        ap (λ r. r.0) (split got) ∙ ap (λ (b : Bool). if b then claim else 0) stop.0,
        answer.idx,
        answer.low,
        answer.claimed.was_free,
        λ j.
            ap (λ (t : ℕ × Kernel). page_used t.1.k_v_pool j) (split got)
            ∙ ap (λ vp. page_used vp j) stop.1
            ∙ answer.claimed.now j,
      )
