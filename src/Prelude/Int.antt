-- ===== src/Prelude/Int.antt =====
-- Integers over the native numbers, as the code's `i64` timestamps are read.
use Prim.Native.Nat.{ℕ}
use mathlib.Core.Bool.{Bool, true, false}
use fenrir.Prelude.Tests.{leb}

pub data ℤ : Type 0 where
  -- n, and - (n + 1)
  pos negsuc : ℕ → ℤ

-- `<=`.
abbrev pub leb_int : ℤ → ℤ → Bool
leb_int (pos m) (pos n) = leb m n
leb_int (pos m) (negsuc n) = false
leb_int (negsuc m) (pos n) = true
leb_int (negsuc m) (negsuc n) = leb n m
