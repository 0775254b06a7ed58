-- ===== src/Syscall/Tests.antt =====
-- System calls at concrete addresses.
use k_os.Base.{ℕ, ◌*◌, ◌≡◌, [], arith}
use k_os.Base.Word.{u32}
use k_os.Syscall.{
  Code, Registers, sys_test_syscall1, sys_test_syscall2, sys_test_syscall3, syscall_init, call,
  syscall_entry, test_syscall1, test_syscall2, test_syscall3,
}
use k_os.Syscall.Dispatch.{IsCode, syscall_round_trip, syscall_unchecked}

abbrev code : Code
code = record {
  at_syscall0 = 0xC0011000;
  at_syscall1 = 0xC0011040;
  at_syscall2 = 0xC0011080;
  at_syscall3 = 0xC0011100;
  elsewhere = λ address a b c. (address, []);
}

code-IsCode : IsCode code
code-IsCode = record {
  apart_01 = omega arith;
  apart_02 = omega arith;
  apart_03 = omega arith;
  apart_12 = omega arith;
  apart_13 = omega arith;
  apart_23 = omega arith;
}

abbrev words : ℕ → ℕ
words n = n * 16

abbrev registers : Registers
registers = record { eax = 40; ebx = 1; ecx = 2; edx = 3 }

syscall_round_trip_example :
    ((test_syscall1 code (syscall_init code words) registers 5).0.eax ≡ (sys_test_syscall1 5).0)
    × ((test_syscall1 code (syscall_init code words) registers 5).1 ≡ (sys_test_syscall1 5).1)
    × ((test_syscall2 code (syscall_init code words) registers 5 6).0.eax
        ≡ (sys_test_syscall2 5 6).0)
    × ((test_syscall2 code (syscall_init code words) registers 5 6).1 ≡ (sys_test_syscall2 5 6).1)
    × ((test_syscall3 code (syscall_init code words) registers 5 6 7).0.eax
        ≡ (sys_test_syscall3 5 6 7).0)
    × ((test_syscall3 code (syscall_init code words) registers 5 6 7).1
        ≡ (sys_test_syscall3 5 6 7).1)
syscall_round_trip_example = syscall_round_trip code words registers 5 6 7 code-IsCode

-- Number 2 ^ 30 + 40 is taken for number 40, which is behind the table.
abbrev wrapped : Registers
wrapped = record registers { eax = 0x40000028 }

syscall_unchecked_example :
    (syscall_entry code (syscall_init code words) wrapped
      ≡ syscall_entry code (syscall_init code words) registers)
    × (syscall_entry code (syscall_init code words) wrapped ≡ (
      record registers { eax = u32 (call code (syscall_init code words 40) 1 2 3).0 },
      (call code (syscall_init code words 40) 1 2 3).1,
    ))
syscall_unchecked_example = syscall_unchecked code words wrapped 40 1 (omega arith) (omega arith)
