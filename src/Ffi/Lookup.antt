-- ===== src/Ffi/Lookup.antt =====
-- What a caller of `lookup_error_message` reads in its buffer.
use tari_crypto.Base.{
  ℕ, suc, ◌==◌, ◌<◌, ◌≡◌, ltb, ltb→lt, refl, ap, ◌∙◌, ◌⊎◌, inl, inr, Bool, true, false, not, ◌&&◌,
  Bytes, [], ◌∷◌, length, set, length-set, Bool-cases, if◌then◌else◌, arith,
}
use tari_crypto.Ffi.Memory.{ℤ, pos, negsuc, buffer_too_small}
use tari_crypto.Ffi.Error.{get_error_message, copy_into, to_c_int, lookup_error_message}

-- A C string: the bytes before the first 0.
unfoldable pub c_string : Bytes → Bytes
c_string [] = []
c_string (b ∷ bs) = let rest = c_string bs in if b == 0 then [] else b ∷ rest

unfoldable no_zero : Bytes → Bool
no_zero [] = true
no_zero (b ∷ bs) = not (b == 0) && no_zero bs

message-no_zero : (code : ℤ) → no_zero (get_error_message code) ≡ true
unfolding no_zero get_error_message
message-no_zero (pos n) = ground arith
message-no_zero (negsuc n) = ground arith

message_length : (code : ℤ) → length (get_error_message code) < 64
unfolding get_error_message
message_length (pos n) = ground arith
message_length (negsuc n) = ground arith

c_string-copy_into :
    (message cells : Bytes)
    → no_zero message ≡ true
    → length message < length cells
    → c_string (set (copy_into message cells) (length message) 0) ≡ message
unfolding c_string no_zero copy_into
c_string-copy_into [] [] z l = refl
c_string-copy_into [] (c ∷ cells) z l = refl
c_string-copy_into (b ∷ bs) [] z l = absurd (omega arith)
c_string-copy_into (b ∷ bs) (c ∷ cells) z l =
    ground (arith, c_string-copy_into bs cells (ground arith) (ground arith))

length-copy_into : (message cells : Bytes) → length (copy_into message cells) ≡ length cells
unfolding copy_into
length-copy_into [] cells = refl
length-copy_into (b ∷ bs) [] = refl
length-copy_into (b ∷ bs) (c ∷ cells) = ap suc (length-copy_into bs cells)

-- With a buffer that has as many bytes as said, the call returns the length of the message, and
-- the buffer, of the same length, reads as the message; or the message and its final 0 do not fit,
-- the call returns `BUFFER_TOO_SMALL`, and the buffer is as it was.
pub lookup_error_message_lem :
    (code : ℤ) (cells : Bytes)
    → let message = get_error_message code in
      let (result, cells') = lookup_error_message code false (pos (length cells)) cells in
      ((length message < length cells)
        × (result ≡ pos (length message))
        × (length cells' ≡ length cells)
        × (c_string cells' ≡ message))
      ⊎ ((ltb (length message) (length cells) ≡ false)
          × (result ≡ buffer_too_small)
          × (cells' ≡ cells))
unfolding lookup_error_message
lookup_error_message_lem code cells =
    let message = get_error_message code in
    elim (Bool-cases (ltb (length message) (length cells))) [
      | inr e ↦ inr (e, rw e refl, rw e refl)
      | inl e ↦
          let fits = ltb→lt (length message) (length cells) e in
          inl (
            fits,
            rw e (small (length message) (message_length code)),
            rw e (
                length-set (copy_into message cells) (length message) 0
                ∙ length-copy_into message cells),
            rw e (c_string-copy_into message cells (message-no_zero code) fits),
          )
    ]
  where
    small : (n : ℕ) → n < 64 → to_c_int n ≡ pos n
    small n h = unfold to_c_int in ground arith
