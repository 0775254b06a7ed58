-- ===== src/Printk.antt =====
-- code/kernel/src/printk.c: `printk`, with its buffer of 1024 bytes on the stack. What it shows under
-- its mutex is the list of the bytes given to `put_str`.
pub mod Overrun
mod Tests
use k_os.Base.{ℕ, ◌+◌, ◌-◌, Option, none, some, ltb, if◌then◌else◌, List, length}
use k_os.CString.{Memory}
use k_os.Stdio.{vsprintf}

-- `char buf[1024]`
abbrev pub buf_size : ℕ
buf_size = 1024

-- `overruns n`: the last `n` of the bytes that `vsprintf` writes, with the NUL, are behind the buffer.
pub data Printed : Type 0 where
  shows : List ℕ → Printed
  overruns : ℕ → Printed

-- `ap k` is argument number `k` behind the format; `fuel` is that of `vsprintf`.
unfoldable pub printk : ℕ → Memory → (ap : ℕ → ℕ) → (format : ℕ) → Option Printed
printk fuel m ap format = elim (vsprintf fuel m ap format) [
  | none ↦ none
  | some out ↦
      some (if ltb (length out) buf_size then shows out else overruns (length out + 1 - buf_size))
]
