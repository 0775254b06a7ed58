-- ===== src/Ide/Transfers.antt =====
-- `ide_read` and `ide_write`: which sectors move, and to or from where.
use k_os.Base.{
  ℕ, zero, suc, ◌+◌, ◌-◌, ◌*◌, ◌%◌, ◌^◌, ◌≤◌, ◌<◌, ◌≡◌, inl, inr, refl, ltb, Option, some, List, [],
  ◌∷◌, ◌++◌, arith, Bool-cases, ◌∙◌, ap, sym, subst,
}
use k_os.Base.Word.{u32}
use k_os.Ide.{
  lba_low, lba_mid, lba_high, insw, outsw, sema_down, mutex_lock, mutex_unlock, Trace, Answer,
  IdeHd, sec_cnt, drive_set, sta_cmd, data_reg, cmd_read_sec, cmd_write_sec, sector_words,
  chunk_size, then_trace, ide_set_drive, ide_set_cmd, ide_set_lba, ide_set_data, ide_get_data,
  wait_data, read_chunk, write_chunk, chunk_loop, ide_read, ide_write,
}
use k_os.Ide.Ports.{
  last_written, Transfer, lba_of, lba_of-cong, transfer, transfers, IsDrive, Commanded, written,
  interrupted, SameState, wait_data-SameState, Selects, set_lba-Asks,
}

-- The transfer of `k` sectors at `address` that a command asked for at the disk address `lba`.
abbrev pub chunk_at : (cmd lba address k : ℕ) → Transfer
chunk_at cmd lba address k = record {
  command = cmd;
  lba = lba % 2 ^ 28;
  count = k % 256;
  address = address;
  words = k * 256;
}

-- The transfers, the latest first, are chunks of 1 to 256 sectors that fill the memory from `start`
-- on with `n` sectors in a row; every one asks for the same disk address.
abbrev pub Covers : (cmd lba start n : ℕ) → List Transfer → Type 0
Covers cmd lba start n [] = n ≡ 0
Covers cmd lba start n (x ∷ xs) =
    (k : ℕ) × (0 < k)
    × (k ≤ 256)
    × (k ≤ n)
    × (x ≡ chunk_at cmd lba (u32 (start + (n - k) * 512)) k)
    × Covers cmd lba start (n - k) xs

-- What one round does.
pub record MovesChunk (hd : IdeHd) (r : Option Trace) (cmd lba p k : ℕ) (t : Trace) : Type 0 where
  pub after : Trace
  pub result : r ≡ some after
  pub selects : Selects hd after lba
  pub moved : transfers hd after ≡ chunk_at cmd lba p k ∷ transfers hd t

-- The command, and the polls before the data moves.
record Asked (hd : IdeHd) (r : Option Trace) (cmd lba k : ℕ) (t : Trace) : Type 0 where
  after : Trace
  result : r ≡ some after
  selects : Selects hd after lba
  chunk : (p : ℕ) → transfer hd after p (sector_words k) ≡ chunk_at cmd lba p k
  moved : transfers hd after ≡ transfers hd t

asked_lem :
    (fuel : ℕ) (answer : Answer) (hd : IdeHd) (cmd lba k : ℕ) (t u : Trace)
    → IsDrive fuel answer hd
    → Commanded hd cmd u
    → Selects hd t lba
    → 0 < k
    → k ≤ 256
    → SameState hd u (ide_set_cmd hd cmd (ide_set_lba answer hd lba k t))
    → Asked hd (wait_data fuel answer hd u) cmd lba k t
unfolding ide_set_cmd last_written transfers transfer
asked_lem fuel answer hd cmd lba k t u drive asked sel pos le same =
    let asks = set_lba-Asks fuel answer hd lba k t drive sel in
    let ready = drive.gets_ready cmd u asked in
    let w = wait_data-SameState fuel answer hd u ready.0 ready.1 ready.2 in
    let reg = λ (p : ℕ). w.2.registers p ∙ same.registers p in
    let command : last_written (sta_cmd hd) w.0 ≡ cmd = reg (sta_cmd hd) ∙ ground arith in
    let set = ide_set_lba answer hd lba k t in
    let low : last_written (lba_low hd) w.0 ≡ last_written (lba_low hd) set =
      reg (lba_low hd) ∙ ground arith in
    let mid : last_written (lba_mid hd) w.0 ≡ last_written (lba_mid hd) set =
      reg (lba_mid hd) ∙ ground arith in
    let high : last_written (lba_high hd) w.0 ≡ last_written (lba_high hd) set =
      reg (lba_high hd) ∙ ground arith in
    let dev : last_written (drive_set hd) w.0 ≡ last_written (drive_set hd) set =
      reg (drive_set hd) ∙ ground arith in
    let address : lba_of hd w.0 ≡ lba % 2 ^ 28 =
      lba_of-cong hd w.0 set low mid high dev ∙ asks.address in
    let count : last_written (sec_cnt hd) w.0 ≡ k % 256 =
      reg (sec_cnt hd) ∙ ground (arith, asks.count) in
    let words : sector_words k ≡ k * 256 = omega arith in
    record {
      after = w.0;
      result = w.1;
      selects = inr (dev ∙ asks.selects);
      chunk = λ p i. record {
        command = command i;
        lba = address i;
        count = count i;
        address = p;
        words = words i;
      };
      moved = w.2.moved ∙ same.moved ∙ asks.moved;
    }

read_chunk-MovesChunk :
    (fuel : ℕ) (answer : Answer) (hd : IdeHd) (lba p k : ℕ) (t : Trace)
    → IsDrive fuel answer hd
    → Selects hd t lba
    → 0 < k
    → k ≤ 256
    → MovesChunk hd (read_chunk fuel answer hd lba p k t) cmd_read_sec lba p k t
unfolding read_chunk ide_set_cmd ide_get_data last_written transfers
read_chunk-MovesChunk fuel answer hd lba p k t drive sel pos le =
    let u = sema_down ∷ ide_set_cmd hd cmd_read_sec (ide_set_lba answer hd lba k t) in
    let a =
      asked_lem fuel answer hd cmd_read_sec lba k t u drive
        (interrupted (ide_set_lba answer hd lba k t)) sel pos le
        (record { registers = λ q. refl; moved = refl }) in
    record {
      after = insw (data_reg hd) p (sector_words k) ∷ a.after;
      result = rw (a.result, then_trace) refl;
      selects = a.selects;
      moved = λ i. a.chunk p i ∷ a.moved i;
    }

write_chunk-MovesChunk :
    (fuel : ℕ) (answer : Answer) (hd : IdeHd) (lba p k : ℕ) (t : Trace)
    → IsDrive fuel answer hd
    → Selects hd t lba
    → 0 < k
    → k ≤ 256
    → MovesChunk hd (write_chunk fuel answer hd lba p k t) cmd_write_sec lba p k t
unfolding write_chunk ide_set_cmd ide_set_data last_written transfers
write_chunk-MovesChunk fuel answer hd lba p k t drive sel pos le =
    let u = ide_set_cmd hd cmd_write_sec (ide_set_lba answer hd lba k t) in
    let a =
      asked_lem fuel answer hd cmd_write_sec lba k t u drive
        (written (ide_set_lba answer hd lba k t)) sel pos le
        (record { registers = λ q. refl; moved = refl }) in
    record {
      after = sema_down ∷ outsw (data_reg hd) p (sector_words k) ∷ a.after;
      result = rw (a.result, then_trace) refl;
      selects = a.selects;
      moved = λ i. a.chunk p i ∷ a.moved i;
    }

-- What a whole call does: its transfers stand before those of the past.
pub record MovesAll (hd : IdeHd) (r : Option Trace) (cmd lba start n : ℕ) (t : Trace) : Type 0 where
  pub after : Trace
  pub result : r ≡ some after
  pub ts : List Transfer
  pub moved : transfers hd after ≡ ts ++ transfers hd t
  pub covers : Covers cmd lba start n ts

module _ (hd : IdeHd) (cmd lba start cnt : ℕ) (chunk : ℕ → ℕ → Trace → Option Trace)
    (chunk-MovesChunk : (p k : ℕ) (t : Trace)
      → Selects hd t lba
      → 0 < k
      → k ≤ 256
      → MovesChunk hd (chunk p k t) cmd lba p k t) where
  chunk_loop-MovesAll :
      (rounds p cnt_done : ℕ) (t old : Trace) (ts : List Transfer)
      → Selects hd t lba
      → cnt_done ≤ cnt
      → cnt < cnt_done + rounds
      → p ≡ u32 (start + cnt_done * 512)
      → transfers hd t ≡ ts ++ transfers hd old
      → Covers cmd lba start cnt_done ts
      → MovesAll hd (chunk_loop rounds chunk p cnt cnt_done t) cmd lba start cnt old
  unfolding chunk_loop
  chunk_loop-MovesAll zero p cnt_done t old ts sel le enough e moved covers = absurd (omega arith)
  chunk_loop-MovesAll (suc rounds) p cnt_done t old ts sel le enough e moved covers =
      elim (Bool-cases (ltb cnt_done cnt)) [
        | inl more ↦
            let k = chunk_size cnt cnt_done in
            let pos : 0 < k = ground (arith, more) in
            let fits : k ≤ 256 = ground arith in
            let below : cnt_done + k ≤ cnt = ground (arith, more) in
            let c = chunk-MovesChunk p k t sel pos fits in
            let back : cnt_done + k - k ≡ cnt_done = omega arith in
            let at : p ≡ u32 (start + (cnt_done + k - k) * 512) = omega arith in
            let rest =
              chunk_loop-MovesAll rounds (u32 (p + k * 512)) (cnt_done + k) c.after old
                (chunk_at cmd lba p k ∷ ts) c.selects below (omega arith) (omega arith)
                (c.moved ∙ ap (λ xs. chunk_at cmd lba p k ∷ xs) moved)
                (
                  k,
                  pos,
                  fits,
                  omega arith,
                  ap (λ a. chunk_at cmd lba a k) at,
                  subst (λ n. Covers cmd lba start n ts) (sym back) covers,
                ) in
            record {
              after = rest.after;
              result = rw (more, c.result, then_trace) rest.result;
              ts = rest.ts;
              moved = rest.moved;
              covers = rest.covers;
            }
        | inr done ↦
            let all : cnt_done ≡ cnt = ground (arith, done) in
            record {
              after = t;
              result = rw done refl;
              ts = ts;
              moved = moved;
              covers = subst (λ n. Covers cmd lba start n ts) all covers;
            }
      ]

-- With a drive that reads its register back and gets ready in time after a command, and where every
-- wait for the mutex and for the drive's interrupt comes to its end, `ide_read` ends within a round for
-- each sector, and moves `cnt` sectors in chunks of at most 256 to the memory from `dst` on, one
-- behind the other; but every chunk is read from the same disk address, `lba`.
pub read-Covers :
    (rounds fuel : ℕ) (answer : Answer) (hd : IdeHd) (lba dst cnt : ℕ) (t : Trace)
    → IsDrive fuel answer hd
    → cnt < rounds
    → dst < 2 ^ 32
    → MovesAll hd (ide_read rounds fuel answer hd lba dst cnt t) cmd_read_sec lba dst cnt t
unfolding ide_read ide_set_drive transfers last_written
read-Covers rounds fuel answer hd lba dst cnt t drive enough small =
    let t₁ = ide_set_drive hd (mutex_lock ∷ t) in
    let r =
      chunk_loop-MovesAll hd cmd_read_sec lba dst cnt (read_chunk fuel answer hd lba)
        (λ p k u sel pos le. read_chunk-MovesChunk fuel answer hd lba p k u drive sel pos le) rounds
        dst 0 t₁ t [] (inl (ground arith)) (omega arith) (omega arith) (omega arith) refl refl in
    record {
      after = mutex_unlock ∷ r.after;
      result = rw (r.result, then_trace) refl;
      ts = r.ts;
      moved = r.moved;
      covers = r.covers;
    }

-- The same of `ide_write` and the memory from `src` on.
pub write-Covers :
    (rounds fuel : ℕ) (answer : Answer) (hd : IdeHd) (lba src cnt : ℕ) (t : Trace)
    → IsDrive fuel answer hd
    → cnt < rounds
    → src < 2 ^ 32
    → MovesAll hd (ide_write rounds fuel answer hd lba src cnt t) cmd_write_sec lba src cnt t
unfolding ide_write ide_set_drive transfers last_written
write-Covers rounds fuel answer hd lba src cnt t drive enough small =
    let t₁ = ide_set_drive hd (mutex_lock ∷ t) in
    let r =
      chunk_loop-MovesAll hd cmd_write_sec lba src cnt (write_chunk fuel answer hd lba)
        (λ p k u sel pos le. write_chunk-MovesChunk fuel answer hd lba p k u drive sel pos le)
        rounds src 0 t₁ t [] (inl (ground arith)) (omega arith) (omega arith) (omega arith) refl
        refl in
    record {
      after = mutex_unlock ∷ r.after;
      result = rw (r.result, then_trace) refl;
      ts = r.ts;
      moved = r.moved;
      covers = r.covers;
    }
