-- ===== src/Integers.antt =====
-- A Python integer as a decoded JSON value carries it and as SQLite binds it.
use palaver.Prelude.{ℕ, Bool, Option, none, some, ltb}
use palaver.Json.{Value, int, neg}

pub data ℤ : Type 0 where
  pos negsuc : ℕ → ℤ

-- `isinstance(v, int) and not isinstance(v, bool)`, with the integer.
unfoldable pub integer : Value → Option ℤ
integer (int n) = some (pos n)
integer (neg n) = some (negsuc n)
integer _ = none

-- Whether SQLite can bind the integer; if not, `execute` raises `OverflowError`.
unfoldable pub fits_int64 : ℤ → Bool
fits_int64 (pos n) = ltb n 0x8000000000000000
fits_int64 (negsuc n) = ltb n 0x8000000000000000
