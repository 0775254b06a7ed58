-- ===== src/FileSystem/RootDir.antt =====
-- code/kernel/src/fs.c: the entries of the root directory, as `fs_mount` and `fs_unmount` change
-- them, and the range of inode numbers that a mounted partition gets. Names are compared as the
-- strings that `strcmp` compares.
pub mod Mount
use k_os.Base.{
  ℕ, ◌+◌, ◌-◌, ◌%◌, ◌^◌, ◌≤◌, ◌<◌, ◌≡◌, refl, Bool, true, false, not, ◌&&◌, ◌==◌, Option, none,
  some, if◌then◌else◌, List, [], ◌∷◌, arith, Bool-cases, inl, inr, ap, ◌∙◌,
}
use k_os.Base.Word.{u32, sub32}

-- `enum file_types`
pub data FileTypes : Type 0 where
  ft_unknown ft_file ft_dir : FileTypes

-- `struct dirent`
pub record Dirent : Type 0 where
  pub i_no : ℕ
  pub filename : List ℕ
  pub f_type : FileTypes

abbrev pub is_unknown : FileTypes → Bool
is_unknown ft_unknown = true
is_unknown ft_file = false
is_unknown ft_dir = false

-- `!strcmp(a, b)`
unfoldable pub same_name : List ℕ → List ℕ → Bool
same_name [] [] = true
same_name [] (d ∷ t) = false
same_name (c ∷ s) [] = false
same_name (c ∷ s) (d ∷ t) = (c == d) && same_name s t

-- The root directory: its entries, and `i_size` of its inode.
pub record RootDir : Type 0 where
  pub entries : List Dirent
  pub i_size : ℕ

-- The first entry that is not in use is filled in; `none` if there is none.
unfoldable pub mount_entry : (name : List ℕ) → (inode_base : ℕ) → List Dirent → Option (List Dirent)
mount_entry name inode_base [] = none
mount_entry name inode_base (d ∷ ds) =
    let rest = mount_entry name inode_base ds in
    if is_unknown d.f_type
    then some (record { i_no = inode_base; filename = name; f_type = ft_dir } ∷ ds)
    else elim rest [ none ↦ none | some ds' ↦ some (d ∷ ds') ]

-- The end of `fs_mount`; `none` is the failed assertion of a full directory.
unfoldable pub mount_dir : (name : List ℕ) → (inode_base : ℕ) → RootDir → Option RootDir
mount_dir name inode_base dir = elim (mount_entry name inode_base dir.entries) [
  | none ↦ none
  | some ds ↦ some (record { entries = ds; i_size = u32 (dir.i_size + 24) })
]

-- `fs_unmount`: the first entry of that name, in use or not, is no longer in use.
unfoldable pub unmount_entry : (name : List ℕ) → List Dirent → (i_size : ℕ) → RootDir
unmount_entry name [] i_size = record { entries = []; i_size = i_size }
unmount_entry name (d ∷ ds) i_size =
    let rest = unmount_entry name ds i_size in
    if same_name d.filename name
    then record { entries = record d { f_type = ft_unknown } ∷ ds; i_size = sub32 i_size 24 }
    else record rest { entries = d ∷ rest.entries }

unfoldable pub fs_unmount : (name : List ℕ) → RootDir → RootDir
fs_unmount name dir = unmount_entry name dir.entries dir.i_size

-- `if (0 == ptn->inode_base)`: the partition's range and the next `inode_max`.
unfoldable pub assign_inodes : (inode_base inode_cnt inode_max : ℕ) → ℕ × ℕ
assign_inodes inode_base inode_cnt inode_max =
    if inode_base == 0
    then (u32 (inode_max + 1), u32 (inode_max + inode_cnt))
    else (inode_base, inode_max)

-- The entries in use.
unfoldable pub live : List Dirent → List Dirent
live [] = []
live (d ∷ ds) = if is_unknown d.f_type then live ds else d ∷ live ds

-- Whether an entry in use has that name.
unfoldable pub has_name : List ℕ → List Dirent → Bool
has_name name [] = false
has_name name (d ∷ ds) = if same_name d.filename name then true else has_name name ds
