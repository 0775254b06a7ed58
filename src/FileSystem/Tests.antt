-- ===== src/FileSystem/Tests.antt =====
-- The theorems on `fs_format` at concrete partitions.
use k_os.Base.{◌≡◌, refl, true, false, some, none, [], ◌∷◌, arith}
use k_os.CString.{Memory}
use k_os.FileSystem.{IdePtn, init_super_block, last_byte, buf_size, fs_format}
use k_os.FileSystem.RootDir.{
  RootDir, ft_dir, ft_unknown, mount_dir, fs_unmount, live, has_name, same_name,
}
use k_os.FileSystem.RootDir.Mount.{has_room, unmount-mount}
use k_os.FileSystem.Layout.{IsLayout, init_super_block-IsLayout, tail_overruns}

abbrev partition : IdePtn
partition = record { start_lba = 2048; sec_cnt = 20000 }

abbrev odd_partition : IdePtn
odd_partition = record { start_lba = 2048; sec_cnt = 33284 }

init_super_block-IsLayout_example : IsLayout partition (init_super_block partition)
init_super_block-IsLayout_example =
    init_super_block-IsLayout partition (omega arith) (omega arith) (omega arith)

abbrev blank : Memory
blank a = 7

tail_overruns_example :
    (last_byte (init_super_block odd_partition).blk_cnt ≡ buf_size odd_partition)
    × (fs_format odd_partition (some blank) ≡ none)
tail_overruns_example =
    tail_overruns odd_partition 1 1 blank (omega arith) (omega arith) (omega arith) refl

abbrev root_dir : RootDir
root_dir = record {
  entries =
      record { i_no = 0; filename = b'.' ∷ []; f_type = ft_dir }
      ∷ record { i_no = 0; filename = b'a' ∷ []; f_type = ft_unknown }
      ∷ [];
  i_size = 24;
}

room : has_room root_dir.entries ≡ true
unfolding has_room
room = refl

fresh : has_name (b'a' ∷ []) (live root_dir.entries) ≡ false
unfolding has_name live same_name
fresh = refl

unmount-mount_example :
    (after : RootDir) × (mount_dir (b'a' ∷ []) 1 root_dir ≡ some after)
    × (live (fs_unmount (b'a' ∷ []) after).entries ≡ live root_dir.entries)
    × ((fs_unmount (b'a' ∷ []) after).i_size ≡ 24)
unmount-mount_example = unmount-mount (b'a' ∷ []) 1 root_dir room fresh (omega arith)
