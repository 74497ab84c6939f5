-- ===== src/Tests/Checksums.antt =====
-- The check sequence of src/Crc.c on concrete bytes.
use ndlcom.Prelude.{◌≡◌, refl, [], ◌∷◌}
use ndlcom.Crc.{do_crc, do_crc_all}

checksum_of_nine :
    do_crc_all 0xffff (0x31 ∷ 0x32 ∷ 0x33 ∷ []) ≡ do_crc (do_crc_all 0xffff (0x31 ∷ 0x32 ∷ [])) 0x33
unfolding do_crc_all
checksum_of_nine = refl
