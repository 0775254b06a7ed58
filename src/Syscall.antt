-- ===== src/Syscall.antt =====
-- code/kernel/src/syscall_sys.c, code/usr/src/syscall_usr.c and `syscall_entry` of
-- code/kernel/src/kernel.s: system calls from the user's `int 0x80` to the kernel's function and
-- back. The table `syscall_func` is the memory from its address on, in words: the entry does not look at
-- its length. The addresses of the four functions are parameters, and so is what a call of any other
-- address does.
pub mod Dispatch
mod Tests
use Prim.Native.String.{String}
use k_os.Base.{
  ℕ, zero, suc, ◌+◌, ◌*◌, ◌/◌, ◌%◌, ◌^◌, ◌==◌, if◌then◌else◌, List, [], ◌∷◌, ◌++◌, update,
}
use k_os.Base.Word.{u32}

abbrev pub syscall_max : ℕ
syscall_max = 32

-- `enum SyscallNR`
abbrev pub sys_test0 : ℕ
sys_test0 = 0

abbrev pub sys_test1 : ℕ
sys_test1 = 1

abbrev pub sys_test2 : ℕ
sys_test2 = 2

abbrev pub sys_test3 : ℕ
sys_test3 = 3

-- What goes to the screen.
pub data Shown : Type 0 where
  put_str : String → Shown
  put_int : ℕ → Shown

abbrev argument : String → (arg : ℕ) → List Shown
argument label arg = put_str label ∷ put_int arg ∷ put_str "\n" ∷ []

unfoldable pub sys_test_syscall0 : List Shown
sys_test_syscall0 = put_str "sys_test_syscall0() called\n" ∷ []

-- The rest of the four functions' bodies, with their results; `arg : uint32_t`.
unfoldable pub sys_test_syscall1 : (arg : ℕ) → ℕ × List Shown
sys_test_syscall1 arg = (0x9527, put_str "sys_test_syscall1()\n" ∷ argument "argument 1: 0x" arg)

unfoldable pub sys_test_syscall2 : (arg1 arg2 : ℕ) → ℕ × List Shown
sys_test_syscall2 arg1 arg2 = (
  0x9528,
  put_str "sys_test_syscall2()\n" ∷ argument "argument 1: 0x" arg1
      ++ argument "argument 2: 0x" arg2,
)

unfoldable pub sys_test_syscall3 : (arg1 arg2 arg3 : ℕ) → ℕ × List Shown
sys_test_syscall3 arg1 arg2 arg3 = (
  0x9529,
  put_str "sys_test_syscall3()\n" ∷ argument "argument 1: 0x" arg1
      ++ (argument "argument 2: 0x" arg2 ++ argument "argument 3: 0x" arg3),
)

-- The functions' addresses, and what runs at any other address.
pub record Code : Type 0 where
  pub at_syscall0 : ℕ
  pub at_syscall1 : ℕ
  pub at_syscall2 : ℕ
  pub at_syscall3 : ℕ
  pub elsewhere : (address arg1 arg2 arg3 : ℕ) → ℕ × List Shown

unfoldable pub syscall_init : Code → (syscall_func : ℕ → ℕ) → ℕ → ℕ
syscall_init c syscall_func =
    update
      (update (update (update syscall_func sys_test0 c.at_syscall0) sys_test1 c.at_syscall1)
        sys_test2 c.at_syscall2)
      sys_test3 c.at_syscall3

-- The registers at `int 0x80`. `sys_test_syscall0` leaves what is in `eax`, the last of its output
-- function, which is a part of `elsewhere` at its address.
pub record Registers : Type 0 where
  pub eax : ℕ
  pub ebx : ℕ
  pub ecx : ℕ
  pub edx : ℕ

-- A call of the code at `address` with three words on the stack.
unfoldable pub call : Code → (address arg1 arg2 arg3 : ℕ) → ℕ × List Shown
call c address arg1 arg2 arg3 =
    if address == c.at_syscall0
    then ((c.elsewhere address arg1 arg2 arg3).0, sys_test_syscall0)
    else if address == c.at_syscall1
    then sys_test_syscall1 arg1
    else if address == c.at_syscall2
    then sys_test_syscall2 arg1 arg2
    else if address == c.at_syscall3
    then sys_test_syscall3 arg1 arg2 arg3
    else c.elsewhere address arg1 arg2 arg3

-- `syscall_entry`: the word at `syscall_func + eax * 4`, a sum of 32 bits; the result replaces the saved `eax`, the other registers are restored.
unfoldable pub syscall_entry : Code → (syscall_func : ℕ → ℕ) → Registers → Registers × List Shown
syscall_entry c syscall_func r =
    let (result, shown) = call c (syscall_func (u32 (r.eax * 4) / 4)) r.ebx r.ecx r.edx in
    (record r { eax = u32 result }, shown)

-- The macros `_syscall0` to `_syscall3`, which leave the registers that they do not name as they are.
unfoldable pub test_syscall0 : Code → (ℕ → ℕ) → Registers → Registers × List Shown
test_syscall0 c table r = syscall_entry c table (record r { eax = sys_test0 })

unfoldable pub test_syscall1 : Code → (ℕ → ℕ) → Registers → (a : ℕ) → Registers × List Shown
test_syscall1 c table r a = syscall_entry c table (record r { eax = sys_test1; ebx = a })

unfoldable pub test_syscall2 : Code → (ℕ → ℕ) → Registers → (a b : ℕ) → Registers × List Shown
test_syscall2 c table r a b = syscall_entry c table (record r { eax = sys_test2; ebx = a; ecx = b })

unfoldable pub test_syscall3 : Code → (ℕ → ℕ) → Registers → (a b d : ℕ) → Registers × List Shown
test_syscall3 c table r a b d =
    syscall_entry c table (record r { eax = sys_test3; ebx = a; ecx = b; edx = d })
