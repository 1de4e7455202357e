-- ===== src/Ffi/Memory.antt =====
-- The memory that C hands over, and the codes that calls return.
use tari_crypto.Base.{
  ℕ, ◌==◌, Bool, Bytes, Option, Run, done, panic, length, if◌then◌else◌, not, ◌||◌,
}

-- `c_int`; `negsuc n` is `-(n + 1)`.
pub data ℤ : Type 0 where
  pos negsuc : ℕ → ℤ

abbrev pub ok_code : ℤ
ok_code = pos 0

abbrev pub null_pointer : ℤ
null_pointer = negsuc 0

abbrev pub buffer_too_small : ℤ
buffer_too_small = negsuc 1

abbrev pub invalid_secret_key_ser : ℤ
invalid_secret_key_ser = negsuc 999

abbrev pub signing_error : ℤ
signing_error = negsuc 1099

abbrev pub str_conv_err : ℤ
str_conv_err = negsuc 1999

abbrev pub integer_overflow : ℤ
integer_overflow = negsuc 2999

-- The arrays of `KEY_LENGTH` bytes, the error codes, and what `CStr::from_ptr(p).to_str()` reads:
-- nothing where the string is not UTF-8. Arrays at different addresses do not overlap.
pub record Memory : Type 0 where
  pub keys : ℕ → Bytes
  pub codes : ℕ → ℤ
  pub strings : ℕ → Option Bytes

abbrev pub key_length : ℕ
key_length = 32

abbrev pub is_null : ℕ → Bool
is_null p = p == 0

-- `*p` of an array and of a string. Here and below a null pointer is undefined behaviour, which
-- counts as a panic.
unfoldable pub read : Memory → ℕ → Run Bytes
read mem p = if is_null p then panic else done (mem.keys p)

unfoldable pub read_string : Memory → ℕ → Run (Option Bytes)
read_string mem p = if is_null p then panic else done (mem.strings p)

-- `(*p).copy_from_slice(bytes)`: it panics on other lengths too.
unfoldable pub write : Memory → ℕ → Bytes → Run Memory
write mem p bytes =
    if is_null p || not (length bytes == key_length)
    then panic
    else done (record mem { keys = λ q. if q == p then bytes else mem.keys q })

unfoldable pub write_code : Memory → ℕ → ℤ → Run Memory
write_code mem p code =
    if is_null p
    then panic
    else done (record mem { codes = λ q. if q == p then code else mem.codes q })
