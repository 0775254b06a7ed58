-- ===== src/FileSystem/Startup/Entries.antt =====
-- The root directory and the ranges of inode numbers after `fs_init`.
use mathlib.Core.Option.{some-injective}
use mathlib.Core.List.{append_assoc}
use k_os.Base.{
  ℕ, zero, suc, ◌+◌, ◌≡◌, refl, true, false, Option, none, some, ◌==◌, if◌then◌else◌, Bool-cases,
  inl, inr, List, [], ◌∷◌, ◌++◌, map, replicate, length, Each, each_nil, each_cons, Each-append,
  arith, ap, ◌∙◌, sym, subst,
}
use k_os.Base.Word.{u32}
use k_os.CString.{Memory}
use k_os.FileSystem.{IdePtn, SuperBlock, fs_magic}
use k_os.FileSystem.RootDir.{Dirent, ft_dir, ft_unknown, is_unknown, mount_entry, assign_inodes}
use k_os.FileSystem.RootDir.Mount.{has_room}
use k_os.FileSystem.Disk.{Disk}
use k_os.FileSystem.Disk.Format.{format_disk, TailFits, fs_format-writes}
use k_os.FileSystem.Startup.{
  MountPtn, Buffers, FsState, read_super, ensure_format, mount_all, root_dir_init,
}
use k_os.FileSystem.Startup.Mounted.{Mounts, fs_mount-Mounts}

-- An entry of the zeroed root directory.
abbrev pub blank : Dirent
blank = record { i_no = 0; filename = []; f_type = ft_unknown }

-- The root directory's entry of a mounted partition.
abbrev pub entry_of : MountPtn → Dirent
entry_of p = record { i_no = p.inode_base; filename = p.name; f_type = ft_dir }

abbrev pub IsUsed : Dirent → Type 0
IsUsed d = is_unknown d.f_type ≡ false

mount_entry-used :
    (name : List ℕ) (base : ℕ) (used rest : List Dirent)
    → Each IsUsed used
    → mount_entry name base (used ++ blank ∷ rest)
      ≡ some (used ++ record { i_no = base; filename = name; f_type = ft_dir } ∷ rest)
unfolding mount_entry
mount_entry-used name base [] rest each_nil = refl
mount_entry-used name base (d ∷ used) rest (each_cons h all) =
    rw (h, mount_entry-used name base used rest all) refl

pub mount_entry-full :
    (name : List ℕ) (base : ℕ) (used : List Dirent)
    → Each IsUsed used
    → mount_entry name base used ≡ none
unfolding mount_entry
mount_entry-full name base [] each_nil = refl
mount_entry-full name base (d ∷ used) (each_cons h all) =
    rw (h, mount_entry-full name base used all) refl

pub has_room-used : (used rest : List Dirent) → has_room (used ++ blank ∷ rest) ≡ true
unfolding has_room
has_room-used [] rest = refl
has_room-used (d ∷ used) rest = ground (arith, has_room-used used rest)

-- The partitions' ranges of inode numbers follow one another; `max` is the last number given away.
pub data IsNumbered : (max : ℕ) → List MountPtn → Type 0 where
  numbered_nil : {max : ℕ} → IsNumbered max []
  numbered_cons :
      {max : ℕ} {p : MountPtn} {ps : List MountPtn}
      → p.inode_base ≡ u32 (max + 1)
      → IsNumbered (u32 (max + p.inode_cnt)) ps
      → IsNumbered max (p ∷ ps)

-- The bytes of a buffer that `sys_malloc` found.
abbrev pub bytes_of : Option Memory → Memory
bytes_of none = λ a. 0
bytes_of (some garbage) = garbage

-- The disk once `ptn` has a file system.
unfoldable pub formatted : Buffers → IdePtn → Disk → Disk
formatted b ptn disk =
    if (read_super disk ptn).magic == fs_magic
    then disk
    else format_disk b.stack (bytes_of b.garbage) ptn disk

-- `sys_malloc` has a buffer for `fs_format`.
abbrev pub IsGranted : Buffers → Type 0
IsGranted b = b.garbage ≡ some (bytes_of b.garbage)

ensure_format-formatted :
    (b : Buffers) (ptn : IdePtn) (disk : Disk)
    → IsGranted b
    → TailFits ptn
    → ensure_format b ptn disk ≡ some (formatted b ptn disk)
unfolding ensure_format formatted format_disk
ensure_format-formatted b ptn disk granted fits =
    let writes = fs_format-writes ptn (bytes_of b.garbage) fits in
    elim (Bool-cases ((read_super disk ptn).magic == fs_magic)) [
      | inl done ↦ rw done refl
      | inr other ↦ rw (other, ensure_format, granted, writes) refl
    ]

-- The disk after the loop.
unfoldable pub format_all : (buffers : ℕ → Buffers) → (idx : ℕ) → List MountPtn → Disk → Disk
format_all buffers idx [] disk = disk
format_all buffers idx (p ∷ ps) disk =
    format_all buffers (idx + 1) ps (formatted (buffers idx) p.ptn disk)

-- The loop goes through, and leaves `n` entries of the root directory free.
pub record Completes (buffers : ℕ → Buffers) (idx : ℕ) (ps : List MountPtn) (s : FsState)
    (used : List Dirent) (n : ℕ) : Type 0 where
  pub ptns : List MountPtn
  pub state : FsState
  pub mount_eq : mount_all buffers idx ps s ≡ some (ptns, state)
  pub same_names : map (λ p. p.name) ptns ≡ map (λ p. p.name) ps
  pub entries_eq : state.root_dir.entries ≡ used ++ (map entry_of ptns ++ replicate n blank)
  pub numbered : IsNumbered s.inode_max ptns
  pub disk_eq : state.disk ≡ format_all buffers idx ps s.disk

-- Not mounted before, as `sys_malloc` leaves it, and of a size for which `fs_format` stays within its
-- buffer.
pub record IsUnmounted (p : MountPtn) : Type 0 where
  pub base : p.inode_base ≡ 0
  pub tail_fits : TailFits p.ptn

-- The root directory after one more mount.
pub Mounts-entries :
    (b : Buffers) (p : MountPtn) (s : FsState) (sb : SuperBlock) (used rest : List Dirent)
    (r : Mounts b p s sb)
    → Each IsUsed used
    → s.root_dir.entries ≡ used ++ blank ∷ rest
    → r.state.root_dir.entries ≡ used ++ entry_of r.ptn ∷ rest
Mounts-entries b p s sb used rest r all at =
    let entered : mount_entry p.name r.ptn.inode_base s.root_dir.entries
        ≡ some (used ++ entry_of r.ptn ∷ rest) =
      rw (at, r.name_eq) (mount_entry-used p.name r.ptn.inode_base used rest all) in
    some-injective _ _ (sym r.entries_eq ∙ entered)

-- The round of the loop for `p`, before the others.
Completes-cons :
    (buffers : ℕ → Buffers) (idx : ℕ) (p : MountPtn) (ps : List MountPtn) (s : FsState)
    (used : List Dirent) (n : ℕ) (sb : SuperBlock)
    (r : Mounts (buffers idx) p (record s { disk = formatted (buffers idx) p.ptn s.disk }) sb)
    → ensure_format (buffers idx) p.ptn s.disk ≡ some (formatted (buffers idx) p.ptn s.disk)
    → p.inode_base ≡ 0
    → Completes buffers (idx + 1) ps r.state (used ++ entry_of r.ptn ∷ []) n
    → Completes buffers idx (p ∷ ps) s used n
unfolding mount_all format_all assign_inodes
Completes-cons buffers idx p ps s used n sb r format new rest = record {
  ptns = r.ptn ∷ rest.ptns;
  state = rest.state;
  mount_eq = rw (mount_all, format, mount_all, r.mount_eq, rest.mount_eq) refl;
  same_names = rw (r.name_eq, rest.same_names) refl;
  entries_eq = rest.entries_eq ∙ append_assoc used (entry_of r.ptn ∷ []) _;
  numbered = numbered_cons (r.base_eq ∙ rw new refl) (
      subst (λ max. IsNumbered max rest.ptns) (r.inode_max_eq ∙ rw (new, r.cnt_eq) refl)
        rest.numbered);
  disk_eq = rest.disk_eq ∙ ap (format_all buffers (idx + 1) ps) r.disk_eq;
}

mount_all-Completes :
    (buffers : ℕ → Buffers) (idx : ℕ) (ps : List MountPtn) (s : FsState) (used : List Dirent)
    (k n : ℕ)
    → ((i : ℕ) → IsGranted (buffers i))
    → Each IsUnmounted ps
    → Each IsUsed used
    → s.root_dir.entries ≡ used ++ replicate k blank
    → k ≡ length ps + n
    → Completes buffers idx ps s used n
unfolding mount_all format_all
mount_all-Completes buffers idx [] s used k n granted each_nil all at size = record {
  ptns = [];
  state = s;
  mount_eq = refl;
  same_names = refl;
  entries_eq = (let e : k ≡ n = omega (arith, size) in rw (at, e) refl);
  numbered = numbered_nil;
  disk_eq = refl;
}
mount_all-Completes buffers idx (p ∷ ps) s used zero n granted (each_cons new news) all at size =
    absurd (omega (arith, size))
mount_all-Completes buffers idx (p ∷ ps) s used (suc k) n granted (each_cons new news) all at size =
    let b = buffers idx in
    let s₁ : FsState = record s { disk = formatted b p.ptn s.disk } in
    let sb = read_super s₁.disk p.ptn in
    let r = fs_mount-Mounts b p s₁ sb refl (rw at (has_room-used used _)) in
    let rest =
      mount_all-Completes buffers (idx + 1) ps r.state (used ++ entry_of r.ptn ∷ []) k n granted
        news (Each-append _ _ all (each_cons refl each_nil))
        (Mounts-entries b p s₁ sb used (replicate k blank) r all at
          ∙ sym (append_assoc used (entry_of r.ptn ∷ []) (replicate k blank)))
        (omega (arith, size)) in
    Completes-cons buffers idx p ps s used n sb r
      (ensure_format-formatted b p.ptn s.disk (granted idx) new.tail_fits) new.base rest

-- The two entries that `root_dir_init` makes.
abbrev pub dot_entries : List Dirent
dot_entries =
    record { i_no = 0; filename = b'.' ∷ []; f_type = ft_dir }
    ∷ record { i_no = 0; filename = b'.' ∷ b'.' ∷ []; f_type = ft_dir }
    ∷ []

pub fs_init-Completes :
    (root_blk : ℕ) (buffers : ℕ → Buffers) (ps : List MountPtn) (s : FsState) (n : ℕ)
    → ((i : ℕ) → IsGranted (buffers i))
    → Each IsUnmounted ps
    → length ps + n ≡ 8
    → Completes buffers 0 ps (root_dir_init root_blk s) dot_entries n
unfolding root_dir_init
fs_init-Completes root_blk buffers ps s n granted news size =
    mount_all-Completes buffers 0 ps (root_dir_init root_blk s) dot_entries 8 n granted news
      (each_cons refl (each_cons refl each_nil)) refl (sym size)
