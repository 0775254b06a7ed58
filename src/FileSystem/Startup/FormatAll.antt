-- ===== src/FileSystem/Startup/FormatAll.antt =====
-- The loop of `fs_init` over the partitions, as far as the disk is concerned.
use k_os.Base.{
  ℕ, ◌+◌, ◌≤◌, ◌<◌, ◌≡◌, ◌⊎◌, inl, inr, refl, List, [], ◌∷◌, Each, each_nil, each_cons, Each-zip,
  arith, ap, ◌∙◌, sym, Bool-cases, ◌==◌,
}
use k_os.FileSystem.{fs_magic, init_super_block}
use k_os.FileSystem.Disk.{Disk}
use k_os.FileSystem.Disk.Format.{Fits, format_disk, format-outside}
use k_os.FileSystem.Startup.{MountPtn, Buffers, read_super}
use k_os.FileSystem.Startup.Mounted.{read_super-sector, read_super-format}
use k_os.FileSystem.Startup.Entries.{bytes_of, formatted, format_all}

abbrev pub IsFormatted : Disk → MountPtn → Type 0
IsFormatted disk p = (read_super disk p.ptn).magic ≡ fs_magic

abbrev pub Outside : (sector : ℕ) → MountPtn → Type 0
Outside sector p = (sector < p.ptn.start_lba + 1) ⊎ (p.ptn.start_lba + p.ptn.sec_cnt ≤ sector)

abbrev pub Beside : MountPtn → MountPtn → Type 0
Beside p q =
    (p.ptn.start_lba + p.ptn.sec_cnt ≤ q.ptn.start_lba)
    ⊎ (q.ptn.start_lba + q.ptn.sec_cnt ≤ p.ptn.start_lba)

-- Partitions that fit a disk and do not overlap.
pub data IsDisjoint : List MountPtn → Type 0 where
  disjoint_nil : IsDisjoint []
  disjoint_cons :
      {p : MountPtn} {ps : List MountPtn}
      → Fits p.ptn
      → Each (Beside p) ps
      → IsDisjoint ps
      → IsDisjoint (p ∷ ps)

formatted-done :
    (b : Buffers) (p : MountPtn) (disk : Disk) → IsFormatted disk p → formatted b p.ptn disk ≡ disk
unfolding formatted
formatted-done b p disk done = rw done refl

formatted-Outside :
    (b : Buffers) (p : MountPtn) (disk : Disk) (sector o : ℕ)
    → Fits p.ptn
    → Outside sector p
    → formatted b p.ptn disk sector o ≡ disk sector o
unfolding formatted format_disk
formatted-Outside b p disk sector o fits away =
    let outside = format-outside b.stack (bytes_of b.garbage) p.ptn disk sector o fits away in
    elim (Bool-cases ((read_super disk p.ptn).magic == fs_magic)) [
      | inl done ↦ rw done refl
      | inr other ↦ rw other outside
    ]

formatted-IsFormatted :
    (b : Buffers) (p : MountPtn) (disk : Disk) → Fits p.ptn → IsFormatted (formatted b p.ptn disk) p
unfolding formatted format_disk init_super_block
formatted-IsFormatted b p disk fits =
    elim (Bool-cases ((read_super disk p.ptn).magic == fs_magic)) [
      | inl done ↦ rw done (ground (arith, done))
      | inr other ↦
          rw other
            (ap (λ sb. sb.magic) (read_super-format b.stack (bytes_of b.garbage) p.ptn disk fits))
    ]

-- The super block of a partition beside stays.
read_super-Beside :
    (b : Buffers) (p q : MountPtn) (disk : Disk)
    → Fits p.ptn
    → Fits q.ptn
    → Beside p q
    → read_super (formatted b p.ptn disk) q.ptn ≡ read_super disk q.ptn
read_super-Beside b p q disk fits fits' beside =
    read_super-sector _ q.ptn (disk (q.ptn.start_lba + 1))
      (omega (arith, fits'.room, fits'.in_reach))
      (λ a lt. formatted-Outside b p disk (q.ptn.start_lba + 1) a fits (ground arith))
    ∙ sym
        (read_super-sector disk q.ptn _ (omega (arith, fits'.room, fits'.in_reach)) (λ a lt. refl))

others_keep :
    (b : Buffers) (p : MountPtn) (disk : Disk) (ps : List MountPtn)
    → Fits p.ptn
    → Each (λ q. Fits q.ptn) ps
    → Each (Beside p) ps
    → Each (λ q. read_super (formatted b p.ptn disk) q.ptn ≡ read_super disk q.ptn) ps
others_keep b p disk ps fits =
    Each-zip ps (λ q fits' beside. read_super-Beside b p q disk fits fits' beside)

disjoint-Fits : (ps : List MountPtn) → IsDisjoint ps → Each (λ q. Fits q.ptn) ps
disjoint-Fits [] disjoint_nil = each_nil
disjoint-Fits (p ∷ ps) (disjoint_cons fits beside disjoint) =
    each_cons fits (disjoint-Fits ps disjoint)

-- A partition that is formatted on `disk`, or that a sector lies outside of.
abbrev pub Spares : Disk → (sector : ℕ) → MountPtn → Type 0
Spares disk sector p = IsFormatted disk p ⊎ Outside sector p

Spares-same :
    (disk disk' : Disk) (sector : ℕ) (q : MountPtn)
    → Spares disk sector q
    → read_super disk' q.ptn ≡ read_super disk q.ptn
    → Spares disk' sector q
Spares-same disk disk' sector q (inl done) same = inl (ap (λ sb. sb.magic) same ∙ done)
Spares-same disk disk' sector q (inr away) same = inr away

pub format_all-Spares :
    (buffers : ℕ → Buffers) (idx : ℕ) (ps : List MountPtn) (disk : Disk) (sector o : ℕ)
    → IsDisjoint ps
    → Each (Spares disk sector) ps
    → format_all buffers idx ps disk sector o ≡ disk sector o
unfolding format_all
format_all-Spares buffers idx [] disk sector o disjoint_nil each_nil = refl
format_all-Spares buffers idx (p ∷ ps) disk sector o (disjoint_cons fits beside disjoint)
      (each_cons (inl done) spare) =
    let same = formatted-done (buffers idx) p disk done in
    rw same (format_all-Spares buffers (idx + 1) ps disk sector o disjoint spare)
format_all-Spares buffers idx (p ∷ ps) disk sector o (disjoint_cons fits beside disjoint)
      (each_cons (inr away) spare) =
    let b = buffers idx in
    let others = others_keep b p disk ps fits (disjoint-Fits ps disjoint) beside in
    let spare' = Each-zip ps (Spares-same disk (formatted b p.ptn disk) sector) spare others in
    format_all-Spares buffers (idx + 1) ps (formatted b p.ptn disk) sector o disjoint spare'
    ∙ formatted-Outside b p disk sector o fits away

pub format_all-formatted :
    (buffers : ℕ → Buffers) (idx : ℕ) (ps : List MountPtn) (disk : Disk)
    → Each (IsFormatted disk) ps
    → format_all buffers idx ps disk ≡ disk
unfolding format_all
format_all-formatted buffers idx [] disk each_nil = refl
format_all-formatted buffers idx (p ∷ ps) disk (each_cons done all) =
    rw (formatted-done (buffers idx) p disk done)
      (format_all-formatted buffers (idx + 1) ps disk all)

-- A partition beside all of them keeps its super block.
format_all-Beside :
    (buffers : ℕ → Buffers) (idx : ℕ) (ps : List MountPtn) (p : MountPtn) (disk : Disk)
    → Fits p.ptn
    → IsDisjoint ps
    → Each (Beside p) ps
    → read_super (format_all buffers idx ps disk) p.ptn ≡ read_super disk p.ptn
unfolding format_all
format_all-Beside buffers idx [] p disk fits disjoint_nil each_nil = refl
format_all-Beside buffers idx (q ∷ ps) p disk fits (disjoint_cons fits' besides disjoint)
      (each_cons beside others) =
    format_all-Beside buffers (idx + 1) ps p _ fits disjoint others
    ∙ read_super-Beside (buffers idx) q p disk fits' fits (ground arith)

pub format_all-IsFormatted :
    (buffers : ℕ → Buffers) (idx : ℕ) (ps : List MountPtn) (disk : Disk)
    → IsDisjoint ps
    → Each (IsFormatted (format_all buffers idx ps disk)) ps
unfolding format_all
format_all-IsFormatted buffers idx [] disk disjoint_nil = each_nil
format_all-IsFormatted buffers idx (p ∷ ps) disk (disjoint_cons fits beside disjoint) =
    let disk' = formatted (buffers idx) p.ptn disk in
    let same = format_all-Beside buffers (idx + 1) ps p disk' fits disjoint beside in
    each_cons (ap (λ sb. sb.magic) same ∙ formatted-IsFormatted (buffers idx) p disk fits)
      (format_all-IsFormatted buffers (idx + 1) ps disk' disjoint)
