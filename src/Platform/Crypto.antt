-- ===== src/Platform/Crypto.antt =====
-- internal/platform/crypto/aes.go. A Go string is a sequence of bytes here, as are plain texts and
-- ciphertexts; the hexadecimal text is written out. AES-GCM is Go's `crypto/cipher`: a parameter.
pub mod Sealed
use Prim.Native.Char.{Char, code}
use Prim.Native.String.{String, [], ◌∷◌}
use dst_go_backend.Base.{
  ℕ, zero, suc, ◌+◌, ◌-◌, ◌*◌, ◌/◌, ◌%◌, ltb, leb, ◌==◌, Bool, true, false, not, ◌&&◌, ◌||◌, Option,
  none, some, List, [], ◌∷◌, ◌++◌, length, take, drop, if◌then◌else◌,
}
use dst_go_backend.Apperr.{other, Result, ok, err, ◌>>=◌, ◌>>◌, fail_if}

-- `gcm.Seal` and `gcm.Open` under a key and a nonce, without additional data; `open` is `none` for a
-- text that was not sealed so.
pub record Gcm : Type 0 where
  pub nonce_size : ℕ
  pub seal : List ℕ → List ℕ → List ℕ → List ℕ
  pub open_with : List ℕ → List ℕ → List ℕ → Option (List ℕ)

abbrev pub hex_char : ℕ → Char
hex_char zero = "0"
hex_char (suc zero) = "1"
hex_char (suc (suc zero)) = "2"
hex_char (suc (suc (suc zero))) = "3"
hex_char (suc (suc (suc (suc zero)))) = "4"
hex_char (suc (suc (suc (suc (suc zero))))) = "5"
hex_char (suc (suc (suc (suc (suc (suc zero)))))) = "6"
hex_char (suc (suc (suc (suc (suc (suc (suc zero))))))) = "7"
hex_char (suc (suc (suc (suc (suc (suc (suc (suc zero)))))))) = "8"
hex_char (suc (suc (suc (suc (suc (suc (suc (suc (suc zero))))))))) = "9"
hex_char (suc (suc (suc (suc (suc (suc (suc (suc (suc (suc zero)))))))))) = "a"
hex_char (suc (suc (suc (suc (suc (suc (suc (suc (suc (suc (suc zero))))))))))) = "b"
hex_char (suc (suc (suc (suc (suc (suc (suc (suc (suc (suc (suc (suc zero)))))))))))) = "c"
hex_char (suc (suc (suc (suc (suc (suc (suc (suc (suc (suc (suc (suc (suc zero))))))))))))) = "d"
hex_char (suc (suc (suc (suc (suc (suc (suc (suc (suc (suc (suc (suc (suc (suc zero)))))))))))))) =
    "e"
hex_char _ = "f"

abbrev pub unhex : Char → Option ℕ
unhex ch =
    let c = code ch in
    if leb 48 c && leb c 57
    then some (c - 48)
    else if leb 97 c && leb c 102
    then some (c - 87)
    else if leb 65 c && leb c 70
    then some (c - 55)
    else none

-- `hex.EncodeToString`.
unfoldable pub encode_hex : List ℕ → String
encode_hex [] = []
encode_hex (b ∷ bs) = hex_char (b / 16) ∷ hex_char (b % 16) ∷ encode_hex bs

abbrev pub byte_of : Option ℕ → Option ℕ → Option (List ℕ) → Option (List ℕ)
byte_of (some h) (some l) (some bs) = some ((16 * h + l) ∷ bs)
byte_of _ _ _ = none

-- `hex.DecodeString`.
unfoldable pub decode_hex : String → Option (List ℕ)
decode_hex [] = some []
decode_hex (c ∷ []) = none
decode_hex (c ∷ d ∷ s) = let rest = decode_hex s in byte_of (unhex c) (unhex d) rest

-- The key that `NewAESEncryptor` takes.
unfoldable pub new_encryptor : List ℕ → Result (List ℕ)
new_encryptor key = do
  let n = length key
  fail_if (not (n == 16) && not (n == 24) && not (n == 32)) (other "aes 密钥长度须为 16、24 或 32 字节")
  ok key

module _ (gcm : Gcm) (key : List ℕ) where
  -- `random` is what the random source gives for the nonce.
  unfoldable pub encrypt : Result (List ℕ) → List ℕ → Result String
  encrypt random plain = do nonce ← random; ok (encode_hex (nonce ++ gcm.seal key nonce plain))

  abbrev pub opened : Option (List ℕ) → Result (List ℕ)
  opened none = err (other "cipher: message authentication failed")
  opened (some plain) = ok plain

  abbrev pub decoded : Option (List ℕ) → Result (List ℕ)
  decoded none = err (other "encoding/hex: invalid")
  decoded (some bytes) = ok bytes

  unfoldable pub decrypt : String → Result (List ℕ)
  decrypt cipher_hex = do
    bytes ← decoded (decode_hex cipher_hex)
    fail_if (ltb (length bytes) gcm.nonce_size) (other "密文长度不足")
    opened (gcm.open_with key (take gcm.nonce_size bytes) (drop gcm.nonce_size bytes))
