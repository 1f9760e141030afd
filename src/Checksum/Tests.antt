-- ===== src/Checksum/Tests.antt =====
-- The checksum on short inputs.
use mu_quinet.Prelude.{◌≡◌, refl, [], ◌∷◌, u16}
use mu_quinet.Checksum.{checksum, add_words, fold_sum}

-- The example of RFC 1071, section 3, as a little-endian host reads it.
rfc_bytes : u16 (checksum (0x00 ∷ 0x01 ∷ 0xf2 ∷ 0x03 ∷ 0xf4 ∷ 0xf5 ∷ 0xf6 ∷ 0xf7 ∷ []) 0) ≡ 0x0d22
unfolding checksum add_words fold_sum
rfc_bytes = refl
