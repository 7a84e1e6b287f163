-- ===== src/Crc32/Tests.antt =====
-- Runs of crc32.c at known inputs, and its theorems at concrete ones.
use project.Base.{ℕ, ◌^◌, ◌<◌, ◌≡◌, ◌≢◌, refl, List, [], ◌∷◌, ◌++◌, arith, take}
use project.Crc32.{crc32_tab, update, update_all, crc32}
use project.Crc32.Reference.{shift_register, crc32-shift_register}
use project.Crc32.Detect.{crc32-lt, crc32-append, crc32_detects_burst}

abbrev digits : List ℕ
digits = 49 ∷ 50 ∷ 51 ∷ 52 ∷ 53 ∷ 54 ∷ 55 ∷ 56 ∷ 57 ∷ []

-- The usual check value, and a start value that is not zero, as the daemons use.
check_value : crc32 0 digits 9 ≡ 0xcbf43926
unfolding crc32 update_all update crc32_tab
check_value = refl

no_bytes : crc32 0x04c11db7 digits 0 ≡ 0x04c11db7
unfolding crc32 update_all
no_bytes = refl

crc32-shift_register_example : crc32 0x04c11db7 digits 5 ≡ shift_register 0x04c11db7 (take 5 digits)
crc32-shift_register_example = crc32-shift_register 0x04c11db7 digits 5 (omega arith)

digits_lt : crc32 0x04c11db7 digits 9 < 2 ^ 32
digits_lt = crc32-lt 0x04c11db7 digits 9 (omega arith)

digits_append : crc32 7 (digits ++ (1 ∷ 2 ∷ [])) 11 ≡ crc32 (crc32 7 digits 9) (1 ∷ 2 ∷ []) 2
digits_append = crc32-append 7 digits (1 ∷ 2 ∷ [])

crc32_detects_burst_example : crc32 7 (1 ∷ 2 ∷ 3 ∷ 9 ∷ []) 4 ≢ crc32 7 (1 ∷ 5 ∷ 3 ∷ 9 ∷ []) 4
crc32_detects_burst_example =
    crc32_detects_burst 7 (1 ∷ []) (2 ∷ 3 ∷ []) (5 ∷ 3 ∷ []) (9 ∷ []) (omega arith) (omega arith)
      (omega arith) (omega arith) (omega arith) (ground arith)
