-- ===== src/Tests/CryptoRuns.antt =====
-- Runs of internal/platform/crypto/aes.go, with a cipher that leaves the text as it is.
use dst_go_backend.Base.{◌≡◌, refl, some, [], ◌∷◌}
use dst_go_backend.Apperr.{ok}
use dst_go_backend.Platform.Crypto.{Gcm, encrypt, decrypt, encode_hex}
use dst_go_backend.Platform.Crypto.Sealed.{GcmLaws, decrypt-encrypt}

abbrev plain_gcm : Gcm
plain_gcm = record {
  nonce_size = 2;
  seal = λ key nonce plain. plain;
  open_with = λ key nonce sealed. some sealed;
}

plain_gcm-GcmLaws : GcmLaws plain_gcm
plain_gcm-GcmLaws = record {
  open-seal = λ key nonce plain size bytes. refl;
  seal_bytes = λ key nonce plain bytes. bytes;
}

decrypt-encrypt_example : decrypt plain_gcm (1 ∷ []) "0aff61" ≡ ok (97 ∷ [])
unfolding encrypt encode_hex
decrypt-encrypt_example =
    decrypt-encrypt plain_gcm plain_gcm-GcmLaws (1 ∷ []) (10 ∷ 255 ∷ []) (97 ∷ []) "0aff61" refl
      refl refl refl
