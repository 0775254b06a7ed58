-- ===== src/Syscall/Dispatch.antt =====
-- System calls reach the function of their number, or what lies behind the table.
use k_os.Base.{ℕ, ◌+◌, ◌*◌, ◌/◌, ◌^◌, ◌<◌, ◌≡◌, ◌≢◌, refl, ==_ne, ==_refl, arith}
use k_os.Base.Word.{u32}
use k_os.Syscall.{
  Code, Registers, sys_test_syscall1, sys_test_syscall2, sys_test_syscall3, syscall_init, call,
  syscall_entry, test_syscall1, test_syscall2, test_syscall3,
}

-- Four functions at four addresses.
pub record IsCode (c : Code) : Type 0 where
  pub apart_01 : c.at_syscall1 ≢ c.at_syscall0
  pub apart_02 : c.at_syscall2 ≢ c.at_syscall0
  pub apart_03 : c.at_syscall3 ≢ c.at_syscall0
  pub apart_12 : c.at_syscall2 ≢ c.at_syscall1
  pub apart_13 : c.at_syscall3 ≢ c.at_syscall1
  pub apart_23 : c.at_syscall3 ≢ c.at_syscall2

-- After `syscall_init` the user's call of each of the three functions with arguments shows and returns
-- what the kernel's function does on the same arguments.
pub syscall_round_trip :
    (c : Code) (words : ℕ → ℕ) (r : Registers) (a b d : ℕ)
    → IsCode c
    → ((test_syscall1 c (syscall_init c words) r a).0.eax ≡ (sys_test_syscall1 a).0)
      × ((test_syscall1 c (syscall_init c words) r a).1 ≡ (sys_test_syscall1 a).1)
      × ((test_syscall2 c (syscall_init c words) r a b).0.eax ≡ (sys_test_syscall2 a b).0)
      × ((test_syscall2 c (syscall_init c words) r a b).1 ≡ (sys_test_syscall2 a b).1)
      × ((test_syscall3 c (syscall_init c words) r a b d).0.eax ≡ (sys_test_syscall3 a b d).0)
      × ((test_syscall3 c (syscall_init c words) r a b d).1 ≡ (sys_test_syscall3 a b d).1)
unfolding test_syscall1 test_syscall2 test_syscall3 syscall_entry syscall_init call
    sys_test_syscall1 sys_test_syscall2 sys_test_syscall3
syscall_round_trip c words r a b d is =
    let e1 = ==_ne _ _ is.apart_01 in
    let e2 = ==_ne _ _ is.apart_02 in
    let e3 = ==_ne _ _ is.apart_03 in
    let f2 = ==_ne _ _ is.apart_12 in
    let f3 = ==_ne _ _ is.apart_13 in
    let g3 = ==_ne _ _ is.apart_23 in
    (
      rw (e1, ==_refl c.at_syscall1) refl,
      rw (e1, ==_refl c.at_syscall1) refl,
      rw (e2, f2, ==_refl c.at_syscall2) refl,
      rw (e2, f2, ==_refl c.at_syscall2) refl,
      rw (e3, f3, g3, ==_refl c.at_syscall3) refl,
      rw (e3, f3, g3, ==_refl c.at_syscall3) refl,
    )

-- Numbers are not checked: `n + i * 2 ^ 30` is taken for `n`, so that such a call leaves the same
-- registers and output as the call number `n`; and that is what the code does whose address stands `n`
-- words behind the start of the table, also past its 32 entries, with the user's three registers as
-- arguments.
pub syscall_unchecked :
    (c : Code) (words : ℕ → ℕ) (r : Registers) (n i : ℕ)
    → n < 2 ^ 30
    → r.eax ≡ n + i * 2 ^ 30
    → (syscall_entry c (syscall_init c words) r
        ≡ syscall_entry c (syscall_init c words) (record r { eax = n }))
      × (syscall_entry c (syscall_init c words) r ≡ (
        record r { eax = u32 (call c (syscall_init c words n) r.ebx r.ecx r.edx).0 },
        (call c (syscall_init c words n) r.ebx r.ecx r.edx).1,
      ))
unfolding syscall_entry
syscall_unchecked c words r n i low at =
    let e : u32 (r.eax * 4) / 4 ≡ n = omega (arith, at, low) in
    let f : u32 (n * 4) / 4 ≡ n = omega (arith, low) in (rw (e, f) refl, rw e refl)
