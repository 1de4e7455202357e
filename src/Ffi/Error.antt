-- ===== src/Ffi/Error.antt =====
-- src/ffi/error.rs: the messages of the codes, and their copy into a buffer of the caller.
use tari_crypto.Base.{ℕ, ◌==◌, ltb, Bool, not, Bytes, [], ◌∷◌, length, set, if◌then◌else◌}
use tari_crypto.Ffi.Memory.{ℤ, pos, negsuc, null_pointer, buffer_too_small, integer_overflow}

-- "The operation completed without errors."
abbrev no_error : Bytes
no_error =
    84 ∷ 104 ∷ 101 ∷ 32 ∷ 111 ∷ 112 ∷ 101 ∷ 114 ∷ 97 ∷ 116 ∷ 105 ∷ 111 ∷ 110 ∷ 32 ∷ 99 ∷ 111 ∷ 109
    ∷ 112 ∷ 108 ∷ 101 ∷ 116 ∷ 101 ∷ 100 ∷ 32 ∷ 119 ∷ 105 ∷ 116 ∷ 104 ∷ 111 ∷ 117 ∷ 116 ∷ 32 ∷ 101
    ∷ 114 ∷ 114 ∷ 111 ∷ 114 ∷ 115 ∷ 46 ∷ []

-- "A null pointer was passed as an input pointer"
abbrev null_input : Bytes
null_input =
    65 ∷ 32 ∷ 110 ∷ 117 ∷ 108 ∷ 108 ∷ 32 ∷ 112 ∷ 111 ∷ 105 ∷ 110 ∷ 116 ∷ 101 ∷ 114 ∷ 32 ∷ 119 ∷ 97
    ∷ 115 ∷ 32 ∷ 112 ∷ 97 ∷ 115 ∷ 115 ∷ 101 ∷ 100 ∷ 32 ∷ 97 ∷ 115 ∷ 32 ∷ 97 ∷ 110 ∷ 32 ∷ 105 ∷ 110
    ∷ 112 ∷ 117 ∷ 116 ∷ 32 ∷ 112 ∷ 111 ∷ 105 ∷ 110 ∷ 116 ∷ 101 ∷ 114 ∷ []

-- "The provided buffer was too small"
abbrev small_buffer : Bytes
small_buffer =
    84 ∷ 104 ∷ 101 ∷ 32 ∷ 112 ∷ 114 ∷ 111 ∷ 118 ∷ 105 ∷ 100 ∷ 101 ∷ 100 ∷ 32 ∷ 98 ∷ 117 ∷ 102 ∷ 102
    ∷ 101 ∷ 114 ∷ 32 ∷ 119 ∷ 97 ∷ 115 ∷ 32 ∷ 116 ∷ 111 ∷ 111 ∷ 32 ∷ 115 ∷ 109 ∷ 97 ∷ 108 ∷ 108 ∷ []

-- "Invalid secret key representation."
abbrev bad_secret_key : Bytes
bad_secret_key =
    73 ∷ 110 ∷ 118 ∷ 97 ∷ 108 ∷ 105 ∷ 100 ∷ 32 ∷ 115 ∷ 101 ∷ 99 ∷ 114 ∷ 101 ∷ 116 ∷ 32 ∷ 107 ∷ 101
    ∷ 121 ∷ 32 ∷ 114 ∷ 101 ∷ 112 ∷ 114 ∷ 101 ∷ 115 ∷ 101 ∷ 110 ∷ 116 ∷ 97 ∷ 116 ∷ 105 ∷ 111 ∷ 110
    ∷ 46 ∷ []

-- "Error creating signature"
abbrev bad_signature : Bytes
bad_signature =
    69 ∷ 114 ∷ 114 ∷ 111 ∷ 114 ∷ 32 ∷ 99 ∷ 114 ∷ 101 ∷ 97 ∷ 116 ∷ 105 ∷ 110 ∷ 103 ∷ 32 ∷ 115 ∷ 105
    ∷ 103 ∷ 110 ∷ 97 ∷ 116 ∷ 117 ∷ 114 ∷ 101 ∷ []

-- "String conversion error"
abbrev bad_string : Bytes
bad_string =
    83 ∷ 116 ∷ 114 ∷ 105 ∷ 110 ∷ 103 ∷ 32 ∷ 99 ∷ 111 ∷ 110 ∷ 118 ∷ 101 ∷ 114 ∷ 115 ∷ 105 ∷ 111 ∷ 110
    ∷ 32 ∷ 101 ∷ 114 ∷ 114 ∷ 111 ∷ 114 ∷ []

-- "Integer overflowed"
abbrev overflowed : Bytes
overflowed =
    73 ∷ 110 ∷ 116 ∷ 101 ∷ 103 ∷ 101 ∷ 114 ∷ 32 ∷ 111 ∷ 118 ∷ 101 ∷ 114 ∷ 102 ∷ 108 ∷ 111 ∷ 119
    ∷ 101 ∷ 100 ∷ []

-- "Unknown error code."
abbrev unknown : Bytes
unknown =
    85 ∷ 110 ∷ 107 ∷ 110 ∷ 111 ∷ 119 ∷ 110 ∷ 32 ∷ 101 ∷ 114 ∷ 114 ∷ 111 ∷ 114 ∷ 32 ∷ 99 ∷ 111 ∷ 100
    ∷ 101 ∷ 46 ∷ []

unfoldable pub get_error_message : ℤ → Bytes
unfolding no_error null_input small_buffer bad_secret_key bad_signature bad_string overflowed
    unknown
get_error_message (pos n) = if n == 0 then no_error else unknown
get_error_message (negsuc n) =
    if n == 0
    then null_input
    else if n == 1
    then small_buffer
    else if n == 999
    then bad_secret_key
    else if n == 1099
    then bad_signature
    else if n == 1999
    then bad_string
    else if n == 2999
    then overflowed
    else unknown

-- `ptr::copy_nonoverlapping` of a source that is no longer than the buffer.
unfoldable pub copy_into : Bytes → Bytes → Bytes
copy_into [] cells = cells
copy_into (b ∷ bs) [] = []
copy_into (b ∷ bs) (c ∷ cells) = b ∷ copy_into bs cells

-- `c_int::try_from(n).unwrap_or(c_int::MAX)`
unfoldable pub to_c_int : ℕ → ℤ
to_c_int n = if ltb 2147483647 n then pos 2147483647 else pos n

-- `cells` are the `size` bytes at `buffer`; the result is the code returned and what they are then.
unfoldable pub lookup_error_message : ℤ → Bool → ℤ → Bytes → ℤ × Bytes
unfolding get_error_message copy_into to_c_int
lookup_error_message code buffer_is_null (negsuc _) cells =
    if buffer_is_null then (null_pointer, cells) else (integer_overflow, cells)
lookup_error_message code buffer_is_null (pos size) cells =
    let message = get_error_message code in
    if buffer_is_null
    then (null_pointer, cells)
    else if not (ltb (length message) size)
    then (buffer_too_small, cells)
    else (to_c_int (length message), set (copy_into message cells) (length message) 0)
