-- ===== src/Memory/Pages/Laws.antt =====
-- `page_acquire` maps every page of its answer to a frame of its own.
use k_os.Base.{
  ℕ, zero, suc, ◌+◌, ◌*◌, ◌/◌, ◌%◌, ◌^◌, ◌≤◌, ◌<◌, ◌≡◌, ◌≢◌, refl, true, false, inl, inr, arith,
  sym, ◌∙◌, Bool-cases,
}
use k_os.Memory.Pool.{PPool, pg_size, palloc}
use k_os.Memory.Pool.Laws.{IsPPool, unit_addr, frame_used, Palloc, palloc_lem}
use k_os.Memory.PageTable.{Words, is_present, pde_ptr, addr_v2p, page_table_add}
use k_os.Memory.PageTable.Laws.{Ordinary, Mapped, add_v2p, add-Mapped, add_other}
use k_os.Memory.Pages.{Kernel}

-- `pp'` is `pp` with more frames in use.
pub record Grows (pp pp' : PPool) : Type 0 where
  pub valid : IsPPool pp'
  pub same_start : pp'.paddr_start ≡ pp.paddr_start
  pub same_len : pp'.paddr_bitmap.len ≡ pp.paddr_bitmap.len
  pub still : (j : ℕ) → frame_used pp j ≡ true → frame_used pp' j ≡ true

Grows-refl : (pp : PPool) → IsPPool pp → Grows pp pp
Grows-refl pp v = record { valid = v; same_start = refl; same_len = refl; still = λ j u. u }

Grows-trans : {a b c : PPool} → Grows a b → Grows b c → Grows a c
Grows-trans g h = record {
  valid = h.valid;
  same_start = omega (arith, g.same_start, h.same_start);
  same_len = omega (arith, g.same_len, h.same_len);
  still = λ j u. h.still j (g.still j u);
}

palloc-Grows : (pp : PPool) → IsPPool pp → Grows pp (palloc pp).1
palloc-Grows pp v = elim (palloc_lem pp v) [
  | inl (idx, f) ↦ record {
    valid = f.valid;
    same_start = f.same_start;
    same_len = f.same_len;
    still = λ j u. ground (arith, f.now j);
  }
  | inr f ↦ record {
    valid = f.valid;
    same_start = f.same_start;
    same_len = f.same_len;
    still = λ j u. ground (arith, f.now j);
  }
]

pub add-Grows :
    (w : Words) (pp : PPool) (v p : ℕ) → IsPPool pp → Grows pp (page_table_add w pp v p).1
unfolding page_table_add
add-Grows w pp v p valid = elim (Bool-cases (is_present (w (pde_ptr v)))) [
  | inl there ↦ rw there (Grows-refl pp valid)
  | inr new ↦ rw new (palloc-Grows pp valid)
]

abbrev pub page_at : (v i : ℕ) → ℕ
page_at v i = v + i * pg_size

-- The pages from `v` on are mapped, each to a frame of its own that was free before; every page
-- that was mapped elsewhere still leads to its frame.
pub record MapsRange (k : Kernel) (v cnt : ℕ) (k' : Kernel) : Type 0 where
  pub frame : ℕ → ℕ
  pub mapped : (i : ℕ) → i < cnt → Mapped k'.words (page_at v i)
  pub leads :
      (i : ℕ)
      → i < cnt
      → addr_v2p k'.words (page_at v i) ≡ unit_addr k.k_p_pool.paddr_start (frame i)
  pub was_free : (i : ℕ) → i < cnt → frame_used k.k_p_pool (frame i) ≡ false
  pub is_used : (i : ℕ) → i < cnt → frame_used k'.k_p_pool (frame i) ≡ true
  pub inside : (i : ℕ) → i < cnt → frame i < k.k_p_pool.paddr_bitmap.len * 8
  pub own : (i j : ℕ) → i < j → j < cnt → frame i ≢ frame j
  pub grows : Grows k.k_p_pool k'.k_p_pool
  pub others :
      (a : ℕ)
      → Ordinary a
      → Mapped k.words a
      → ((i : ℕ) → i < cnt → a / 2 ^ 12 ≢ page_at v i / 2 ^ 12)
      → Mapped k'.words a × (addr_v2p k'.words a ≡ addr_v2p k.words a)
  pub same_pages : k'.k_v_pool ≡ k.k_v_pool

-- The frames of a range, from that of its first page.
abbrev cons_frame : ℕ → (ℕ → ℕ) → ℕ → ℕ
cons_frame f g zero = f
cons_frame f g (suc i) = g i

-- The range of addresses that a call works on.
pub record IsRegion (v cnt : ℕ) : Type 0 where
  pub aligned : v % pg_size ≡ 0
  pub ordinary : v + cnt * pg_size ≤ 0xffc00000

-- One round of the loop, from the frame `f` at `p` on.
unfoldable pub mapped_kernel : Kernel → (v p : ℕ) → PPool → Kernel
mapped_kernel k v p pp = record k {
  k_p_pool = (page_table_add k.words pp v p).1;
  words = (page_table_add k.words pp v p).0;
}

module _ (k : Kernel) (v left f p : ℕ) (pp : PPool) (valid : IsPPool k.k_p_pool)
    (region : IsRegion v (suc left)) (took : Palloc k.k_p_pool f p pp) (k' : Kernel)
    (rest : MapsRange (mapped_kernel k v p pp) (v + pg_size) left k') where
  abbrev pool' : PPool
  pool' = (page_table_add k.words pp v p).1

  after_add : Grows pp pool'
  after_add = add-Grows k.words pp v p took.valid

  start_eq : pool'.paddr_start ≡ k.k_p_pool.paddr_start
  start_eq = omega (arith, after_add.same_start, took.same_start)

  taken_now : frame_used pool' f ≡ true
  taken_now = after_add.still f (ground (arith, took.now f))

  first_others :
      (a : ℕ)
      → Ordinary a
      → Mapped k.words a
      → v / 2 ^ 12 ≢ a / 2 ^ 12
      → Mapped (page_table_add k.words pp v p).0 a
        × (addr_v2p (page_table_add k.words pp v p).0 a ≡ addr_v2p k.words a)
  first_others a ha m ne = add_other k.words pp v p a (omega (arith, region.ordinary)) ha ne m

  Ordinary-v : Ordinary v
  Ordinary-v = omega (arith, region.ordinary)

  paddr_lt : (p < 2 ^ 32) × (p % 2 ^ 12 ≡ 0)
  paddr_lt =
      let fits = valid.fits in
      let aligned = valid.aligned in
      (omega (arith, took.address, took.inside), omega (arith, took.address))

  here_now : Mapped k'.words v × (addr_v2p k'.words v ≡ unit_addr k.k_p_pool.paddr_start f)
  unfolding mapped_kernel
  here_now =
      let r =
        rest.others v Ordinary-v (add-Mapped k.words pp v p Ordinary-v)
          (λ i lt. omega (arith, region.aligned, region.ordinary)) in
      (
        r.0,
        r.1
            ∙ add_v2p k.words pp v p Ordinary-v paddr_lt.1 paddr_lt.0
            ∙ omega (arith, region.aligned, took.address),
      )

  suc-Mapped :
      (i : ℕ)
      → i < suc left
      → Mapped k'.words (page_at v i)
        × (addr_v2p k'.words (page_at v i)
            ≡ unit_addr k.k_p_pool.paddr_start (cons_frame f rest.frame i))
  unfolding mapped_kernel
  suc-Mapped zero lt = let e : page_at v 0 ≡ v = omega arith in rw e here_now
  suc-Mapped (suc i) lt =
      let e : page_at v (suc i) ≡ page_at (v + pg_size) i = omega arith in
      rw (e, ← start_eq) (rest.mapped i (omega arith), rest.leads i (omega arith))

  -- A frame that is free after the round was free before it, and is not the one just taken.
  was_free_before :
      (j : ℕ) → frame_used pool' j ≡ false → (frame_used k.k_p_pool j ≡ false) × (f ≢ j)
  was_free_before j unset =
      (ground (arith, took.now j, after_add.still j), λ e. let now = taken_now in ground arith)

  suc_was_free : (i : ℕ) → i < suc left → frame_used k.k_p_pool (cons_frame f rest.frame i) ≡ false
  unfolding mapped_kernel
  suc_was_free zero lt = took.was_free
  suc_was_free (suc i) lt = (was_free_before (rest.frame i) (rest.was_free i (omega arith))).0

  suc_is_used : (i : ℕ) → i < suc left → frame_used k'.k_p_pool (cons_frame f rest.frame i) ≡ true
  unfolding mapped_kernel
  suc_is_used zero lt = rest.grows.still f taken_now
  suc_is_used (suc i) lt = rest.is_used i (omega arith)

  suc_inside : (i : ℕ) → i < suc left → cons_frame f rest.frame i < k.k_p_pool.paddr_bitmap.len * 8
  unfolding mapped_kernel
  suc_inside zero lt = took.inside
  suc_inside (suc i) lt =
      omega (arith, rest.inside i (omega arith), after_add.same_len, took.same_len)

  suc_own : (i j : ℕ) → i < j → j < suc left → cons_frame f rest.frame i ≢ cons_frame f rest.frame j
  unfolding mapped_kernel
  suc_own i zero lt h = absurd (omega arith)
  suc_own zero (suc j) lt h = (was_free_before (rest.frame j) (rest.was_free j (omega arith))).1
  suc_own (suc i) (suc j) lt h = rest.own i j (omega arith) (omega arith)

  suc_others :
      (a : ℕ)
      → Ordinary a
      → Mapped k.words a
      → ((i : ℕ) → i < suc left → a / 2 ^ 12 ≢ page_at v i / 2 ^ 12)
      → Mapped k'.words a × (addr_v2p k'.words a ≡ addr_v2p k.words a)
  unfolding mapped_kernel
  suc_others a ha m apart =
      let ne : v / 2 ^ 12 ≢ a / 2 ^ 12 =
        (λ e. apart 0 (omega arith) (let e' : page_at v 0 ≡ v = omega arith in rw e' (sym e))) in
      let one = first_others a ha m ne in
      let r = rest.others a ha one.0 (λ i lt e.
        apart (suc i) (omega arith)
          (let e' : page_at v (suc i) ≡ page_at (v + pg_size) i = omega arith in rw e' e)) in
      (r.0, r.1 ∙ one.1)

  pub MapsRange-suc : MapsRange k v (suc left) k'
  unfolding mapped_kernel
  MapsRange-suc = record {
    frame = cons_frame f rest.frame;
    mapped = λ i lt. (suc-Mapped i lt).0;
    leads = λ i lt. (suc-Mapped i lt).1;
    was_free = suc_was_free;
    is_used = suc_is_used;
    inside = suc_inside;
    own = suc_own;
    grows =
        Grows-trans
          (record {
            valid = after_add.valid;
            same_start = start_eq;
            same_len = omega (arith, after_add.same_len, took.same_len);
            still = λ j u. after_add.still j (ground (arith, took.now j));
          })
          rest.grows;
    others = suc_others;
    same_pages = rest.same_pages;
  }

pub MapsRange-zero : (k : Kernel) (v : ℕ) → IsPPool k.k_p_pool → MapsRange k v 0 k
MapsRange-zero k v valid = record {
  frame = λ i. 0;
  mapped = λ i lt. absurd (omega arith);
  leads = λ i lt. absurd (omega arith);
  was_free = λ i lt. absurd (omega arith);
  is_used = λ i lt. absurd (omega arith);
  inside = λ i lt. absurd (omega arith);
  own = λ i j lt h. absurd (omega arith);
  grows = Grows-refl k.k_p_pool valid;
  others = λ a ha m apart. (m, refl);
  same_pages = refl;
}
