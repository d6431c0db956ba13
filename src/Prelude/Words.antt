-- ===== src/Prelude/Words.antt =====
-- Machine words and the C `int`. An unsigned word is a native number with its wrap written out;
-- a status is an integer, 0 for success and a negated errno (the values of Linux) for an error.
use Prim.Native.Nat.{ℕ, zero, suc, ◌+◌, ◌-◌, ◌%◌, ◌^◌}
use mathlib.Core.Bool.{Bool, true, false}

abbrev pub word32 : ℕ
word32 = 2 ^ 32

abbrev pub word64 : ℕ
word64 = 2 ^ 64

-- `UINT64_MAX`
abbrev pub max64 : ℕ
max64 = 2 ^ 64 - 1

-- `a + b` and `a - b` on uint64_t
abbrev pub add64 : ℕ → ℕ → ℕ
add64 a b = (a + b) % word64

abbrev pub sub64 : ℕ → ℕ → ℕ
sub64 a b = (a + word64 - b) % word64

-- `a + b` and `a - b` on uint32_t
abbrev pub add32 : ℕ → ℕ → ℕ
add32 a b = (a + b) % word32

abbrev pub sub32 : ℕ → ℕ → ℕ
sub32 a b = (a + word32 - b) % word32

-- `pos n` is n, and `negsuc n` is -(n + 1).
pub data ℤ : Type 0 where
  pos : ℕ → ℤ
  negsuc : ℕ → ℤ

abbrev pub is_zero : ℤ → Bool
is_zero (pos zero) = true
is_zero (pos (suc n)) = false
is_zero (negsuc n) = false

abbrev pub is_negative : ℤ → Bool
is_negative (pos n) = false
is_negative (negsuc n) = true

abbrev pub ok : ℤ
ok = pos 0

-- -errno
abbrev pub enoent : ℤ
enoent = negsuc 1

abbrev pub eio : ℤ
eio = negsuc 4

abbrev pub e2big : ℤ
e2big = negsuc 6

abbrev pub eagain : ℤ
eagain = negsuc 10

abbrev pub ebusy : ℤ
ebusy = negsuc 15

abbrev pub eexist : ℤ
eexist = negsuc 16

abbrev pub einval : ℤ
einval = negsuc 21

abbrev pub enospc : ℤ
enospc = negsuc 27

abbrev pub epipe : ℤ
epipe = negsuc 31

abbrev pub eilseq : ℤ
eilseq = negsuc 83

abbrev pub erange : ℤ
erange = negsuc 33

abbrev pub enodata : ℤ
enodata = negsuc 60

abbrev pub etime : ℤ
etime = negsuc 61

abbrev pub ebadmsg : ℤ
ebadmsg = negsuc 73

abbrev pub eoverflow : ℤ
eoverflow = negsuc 74

abbrev pub emsgsize : ℤ
emsgsize = negsuc 89

abbrev pub eprotonosupport : ℤ
eprotonosupport = negsuc 92

abbrev pub eopnotsupp : ℤ
eopnotsupp = negsuc 94

abbrev pub eshutdown : ℤ
eshutdown = negsuc 107

abbrev pub etimedout : ℤ
etimedout = negsuc 109

abbrev pub ealready : ℤ
ealready = negsuc 113

abbrev pub ecanceled : ℤ
ecanceled = negsuc 124
