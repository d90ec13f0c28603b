-- ===== src/Platform/Crypto/Sealed.antt =====
-- What internal/platform/crypto/aes.go seals, it opens.

use Prim.Native.String.{String}
use dst_go_backend.Base.{
  ℕ, zero, suc, ◌+◌, ◌*◌, ◌/◌, ◌%◌, ◌<◌, ◌≡◌, refl, sym, ap, Bool, true, false, ltb, ltb→lt, all,
  some, List, [], ◌∷◌, ◌++◌, length, length-append, take, drop, arith,
}
use dst_go_backend.Apperr.{ok}
use dst_go_backend.Platform.Crypto.{Gcm, hex_char, unhex, encode_hex, decode_hex, encrypt, decrypt}

abbrev pub is_byte : ℕ → Bool
is_byte b = ltb b 256

-- Bytes that are sealed with a nonce of the right size are opened with it, and are sealed to bytes.
pub record GcmLaws (gcm : Gcm) : Type 0 where
  pub open-seal :
      (key nonce plain : List ℕ)
      → length nonce ≡ gcm.nonce_size
      → all is_byte plain ≡ true
      → gcm.open_with key nonce (gcm.seal key nonce plain) ≡ some plain
  pub seal_bytes :
      (key nonce plain : List ℕ)
      → all is_byte plain ≡ true
      → all is_byte (gcm.seal key nonce plain) ≡ true

unhex-hex_char : (n : ℕ) → n < 16 → unhex (hex_char n) ≡ some n
unhex-hex_char zero h = refl
unhex-hex_char (suc zero) h = refl
unhex-hex_char (suc (suc zero)) h = refl
unhex-hex_char (suc (suc (suc zero))) h = refl
unhex-hex_char (suc (suc (suc (suc zero)))) h = refl
unhex-hex_char (suc (suc (suc (suc (suc zero))))) h = refl
unhex-hex_char (suc (suc (suc (suc (suc (suc zero)))))) h = refl
unhex-hex_char (suc (suc (suc (suc (suc (suc (suc zero))))))) h = refl
unhex-hex_char (suc (suc (suc (suc (suc (suc (suc (suc zero)))))))) h = refl
unhex-hex_char (suc (suc (suc (suc (suc (suc (suc (suc (suc zero))))))))) h = refl
unhex-hex_char (suc (suc (suc (suc (suc (suc (suc (suc (suc (suc zero)))))))))) h = refl
unhex-hex_char (suc (suc (suc (suc (suc (suc (suc (suc (suc (suc (suc zero))))))))))) h = refl
unhex-hex_char (suc (suc (suc (suc (suc (suc (suc (suc (suc (suc (suc (suc zero)))))))))))) h = refl
unhex-hex_char (suc (suc (suc (suc (suc (suc (suc (suc (suc (suc (suc (suc (suc zero)))))))))))))
      h =
    refl
unhex-hex_char
      (suc (suc (suc (suc (suc (suc (suc (suc (suc (suc (suc (suc (suc (suc zero)))))))))))))) h =
    refl
unhex-hex_char
      (suc (suc (suc (suc (suc (suc (suc (suc (suc (suc (suc (suc (suc (suc (suc zero)))))))))))))))
      h =
    refl
unhex-hex_char
      (suc
        (suc (suc (suc (suc (suc (suc (suc (suc (suc (suc (suc (suc (suc (suc (suc n))))))))))))))))
      h =
    absurd (omega arith)

decode_hex-encode_hex : (bs : List ℕ) → all is_byte bs ≡ true → decode_hex (encode_hex bs) ≡ some bs
unfolding encode_hex decode_hex
decode_hex-encode_hex [] h = refl
decode_hex-encode_hex (b ∷ bs) h =
    let small : b < 256 = ltb→lt b 256 (ground (arith, h)) in
    let whole : 16 * (b / 16) + b % 16 ≡ b = omega arith in
    rw (unhex-hex_char (b / 16) (omega arith), unhex-hex_char (b % 16) (omega arith))
      (rw (decode_hex-encode_hex bs (ground (arith, h))) (ap (λ x. some (x ∷ bs)) whole))

all-join :
    (p : ℕ → Bool) (xs ys : List ℕ) → all p xs ≡ true → all p ys ≡ true → all p (xs ++ ys) ≡ true
all-join p [] ys h k = k
all-join p (x ∷ xs) ys h k = ground (arith, h, all-join p xs ys, k)

take-front : (xs ys : List ℕ) → take (length xs) (xs ++ ys) ≡ xs
take-front [] ys = refl
take-front (x ∷ xs) ys = ap (λ zs. x ∷ zs) (take-front xs ys)

drop-front : (xs ys : List ℕ) → drop (length xs) (xs ++ ys) ≡ ys
drop-front [] ys = refl
drop-front (x ∷ xs) ys = drop-front xs ys

-- What was encrypted of some bytes with a nonce of the right size is decrypted under the same key, to the
-- same bytes, for a cipher with the laws of `GcmLaws`.
pub decrypt-encrypt :
    (gcm : Gcm)
    → GcmLaws gcm
    → (key nonce plain : List ℕ) (text : String) → length nonce ≡ gcm.nonce_size
    → all is_byte nonce ≡ true
    → all is_byte plain ≡ true
    → encrypt gcm key (ok nonce) plain ≡ ok text
    → decrypt gcm key text ≡ ok plain
unfolding encrypt decrypt
decrypt-encrypt gcm laws key nonce plain text size bytes of_bytes h =
    let sealed = gcm.seal key nonce plain in
    let is : encode_hex (nonce ++ sealed) ≡ text = ground (arith, h) in
    let enough : ltb (length (nonce ++ sealed)) (length nonce) ≡ false =
      ground (arith, length-append nonce sealed) in
    rw (sym is) (
      rw
        (decode_hex-encode_hex (nonce ++ sealed)
          (all-join is_byte nonce sealed bytes (laws.seal_bytes key nonce plain of_bytes)))
        (rw (sym size) (
          rw (enough, take-front nonce sealed, drop-front nonce sealed)
            (rw (laws.open-seal key nonce plain size of_bytes) refl))))
