-- ===== src/FileSystem/RootDir/Mount.antt =====
-- Mounting a partition, and unmounting it again.
use k_os.Base.{
  ℕ, ◌+◌, ◌^◌, ◌<◌, ◌≡◌, refl, Bool, true, false, some, if◌then◌else◌, List, [], ◌∷◌, arith,
  Bool-cases, inl, inr, ap, ◌∙◌,
}
use k_os.Base.Word.{u32, sub32}
use k_os.FileSystem.RootDir.{
  ft_dir, Dirent, RootDir, is_unknown, same_name, mount_entry, mount_dir, unmount_entry, fs_unmount,
  live, has_name,
}

same_name_refl : (s : List ℕ) → same_name s s ≡ true
unfolding same_name
same_name_refl [] = refl
same_name_refl (c ∷ s) = ground (arith, same_name_refl s)

-- What mounting and unmounting make of the entries.
record Remounts (name : List ℕ) (base size : ℕ) (ds : List Dirent) : Type 0 where
  mounted : List Dirent
  mount_eq : mount_entry name base ds ≡ some mounted
  unmount_live : live (unmount_entry name mounted size).entries ≡ live ds
  unmount_size : (unmount_entry name mounted size).i_size ≡ sub32 size 24

unfoldable pub has_room : List Dirent → Bool
has_room [] = false
has_room (d ∷ ds) = if is_unknown d.f_type then true else has_room ds

remounts :
    (name : List ℕ) (base size : ℕ) (ds : List Dirent)
    → has_room ds ≡ true
    → has_name name (live ds) ≡ false
    → Remounts name base size ds
unfolding mount_entry unmount_entry live has_name has_room
remounts name base size [] room fresh = absurd (ground arith)
remounts name base size (d ∷ ds) room fresh = elim (Bool-cases (is_unknown d.f_type)) [
  | inl free ↦ record {
    mounted = record { i_no = base; filename = name; f_type = ft_dir } ∷ ds;
    mount_eq = rw free refl;
    unmount_live = rw (same_name_refl name, free, unmount_entry, live) refl;
    unmount_size = rw (same_name_refl name, unmount_entry) refl;
  }
  | inr used ↦
      let fresh' = rw used at fresh in
      let other : same_name d.filename name ≡ false = ground (arith, fresh') in
      let r = remounts name base size ds (rw used at room) (ground (arith, fresh', other)) in
      record {
        mounted = d ∷ r.mounted;
        mount_eq = rw (used, r.mount_eq) refl;
        unmount_live = rw (other, used) (ap (λ xs. d ∷ xs) r.unmount_live);
        unmount_size = rw other r.unmount_size;
      }
]

-- In a root directory with a free entry, none of whose entries in use has the partition's name,
-- `fs_mount` finds an entry, and a `fs_unmount` after it leaves the entries in use and the size as
-- they were.
pub unmount-mount :
    (name : List ℕ) (base : ℕ) (dir : RootDir)
    → has_room dir.entries ≡ true
    → has_name name (live dir.entries) ≡ false
    → dir.i_size < 2 ^ 32
    → (after : RootDir) × (mount_dir name base dir ≡ some after)
      × (live (fs_unmount name after).entries ≡ live dir.entries)
      × ((fs_unmount name after).i_size ≡ dir.i_size)
unfolding mount_dir fs_unmount
unmount-mount name base dir room fresh small =
    let r = remounts name base (u32 (dir.i_size + 24)) dir.entries room fresh in
    (
      record { entries = r.mounted; i_size = u32 (dir.i_size + 24) },
      rw (r.mount_eq, mount_dir) refl,
      r.unmount_live,
      r.unmount_size ∙ omega arith,
    )
