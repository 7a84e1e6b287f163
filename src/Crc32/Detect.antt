-- ===== src/Crc32/Detect.antt =====
-- Error detection by the checksum of crc32.c: the register's range, checksums in parts, and bursts.
use project.Base.{
  ℕ, suc, ◌+◌, ◌/◌, ◌%◌, ◌^◌, ◌≤◌, ◌<◌, ◌≡◌, refl, sym, ap, ap₂, ◌≢◌, ◌∙◌, List, [], ◌∷◌, ◌++◌,
  arith, bit_xor, length, take, take-length, take_front, All, bit_xor_cancel, bit_xor-lt-pow,
  bit_xor_injective_left, mod_byte-bit_xor,
}
use project.Crc32.{update, update_all, all_ones, crc32}
use project.Crc32.Step.{update-lt, shr_bytes, index, update_agree, index_injective}

abbrev pub AreBytes : List ℕ → Type 0
AreBytes = All (λ b. b < 256)

pub update_all-lt : (crc : ℕ) (bs : List ℕ) → crc < 2 ^ 32 → update_all crc bs < 2 ^ 32
unfolding update_all
update_all-lt crc [] h = h
update_all-lt crc (b ∷ bs) h = update_all-lt (update crc b) bs (update-lt crc b h)

pub update_all-append :
    (crc : ℕ) (xs ys : List ℕ) → update_all crc (xs ++ ys) ≡ update_all (update_all crc xs) ys
unfolding update_all
update_all-append crc [] ys = refl
update_all-append crc (x ∷ xs) ys = update_all-append (update crc x) xs ys

crc32_whole :
    (crc : ℕ) (buf : List ℕ)
    → crc32 crc buf (length buf) ≡ bit_xor (update_all (bit_xor crc all_ones) buf) all_ones
unfolding crc32
crc32_whole crc buf = rw take-length

-- The checksum of a 32-bit start value is a 32-bit word, whatever the buffer and the size.
pub crc32-lt : (crc : ℕ) (buf : List ℕ) (size : ℕ) → crc < 2 ^ 32 → crc32 crc buf size < 2 ^ 32
unfolding crc32
crc32-lt crc buf size h =
    bit_xor-lt-pow 32 _ _
      (update_all-lt (bit_xor crc all_ones) (take size buf) (bit_xor-lt-pow 32 _ _ h (omega arith)))
      (omega arith)

-- Bytes behind the size do not matter.
pub crc32_ignores :
    (crc : ℕ) (xs ys : List ℕ) → crc32 crc (xs ++ ys) (length xs) ≡ crc32 crc xs (length xs)
unfolding crc32
crc32_ignores crc xs ys =
    ap (λ (l : List ℕ). bit_xor (update_all (bit_xor crc all_ones) l) all_ones)
      (take_front (length xs) xs ys refl ∙ sym (take-length xs))

-- The checksum of two buffers in a row is that of the second started from that of the first.
pub crc32-append :
    (crc : ℕ) (xs ys : List ℕ)
    → crc32 crc (xs ++ ys) (length (xs ++ ys)) ≡ crc32 (crc32 crc xs (length xs)) ys (length ys)
crc32-append crc xs ys =
    rw (
      crc32_whole crc (xs ++ ys),
      crc32_whole crc xs,
      crc32_whole,
      bit_xor_cancel,
      update_all-append,
    )

-- Two runs over as many bytes that end alike but for `m` low bytes started alike but for as many
-- low bytes more as they read.
update_all_agree :
    (crc crc' m : ℕ) (bs bs' : List ℕ)
    → crc < 2 ^ 32
    → crc' < 2 ^ 32
    → length bs ≡ length bs'
    → m + length bs ≤ 4
    → shr_bytes m (update_all crc bs) ≡ shr_bytes m (update_all crc' bs')
    → shr_bytes (m + length bs) crc ≡ shr_bytes (m + length bs) crc'
unfolding update_all
update_all_agree crc crc' m [] [] h h' e room s = let n : m + 0 ≡ m = omega arith in rw n s
update_all_agree crc crc' m [] (b' ∷ bs') h h' e room s = absurd (omega arith)
update_all_agree crc crc' m (b ∷ bs) [] h h' e room s = absurd (omega arith)
update_all_agree crc crc' m (b ∷ bs) (b' ∷ bs') h h' e room s =
    let n : m + suc (length bs) ≡ suc (m + length bs) = omega arith in
    let ih =
      update_all_agree (update crc b) (update crc' b') m bs bs' (update-lt crc b h)
        (update-lt crc' b' h') (omega arith) (omega arith) s in
    rw n (update_agree (m + length bs) crc crc' b b' (omega arith) h h' ih).1

-- Up to four bytes are determined by the register before them and the one after them.
update_all_injective :
    (crc : ℕ) (bs bs' : List ℕ)
    → crc < 2 ^ 32
    → AreBytes bs
    → AreBytes bs'
    → length bs ≡ length bs'
    → length bs ≤ 4
    → update_all crc bs ≡ update_all crc bs'
    → bs ≡ bs'
unfolding update_all
update_all_injective crc [] [] h v v' e room s = refl
update_all_injective crc [] (b' ∷ bs') h v v' e room s = absurd (omega arith)
update_all_injective crc (b ∷ bs) [] h v v' e room s = absurd (omega arith)
update_all_injective crc (b ∷ bs) (b' ∷ bs') h v v' e room s = ap₂ ◌∷◌ same (
    update_all_injective (update crc b) bs bs' (update-lt crc b h) v.1 v'.1 (omega arith)
      (omega arith) (s ∙ ap (λ (t : ℕ). update_all (update crc t) bs') (sym same)))
  where
    ends : shr_bytes (length bs) (update crc b) ≡ shr_bytes (length bs) (update crc b')
    ends =
        let n : 0 + length bs ≡ length bs = omega arith in
        rw n at (
          update_all_agree (update crc b) (update crc b') 0 bs bs' (update-lt crc b h)
            (update-lt crc b' h) (omega arith) (omega arith) s)

    same : b ≡ b'
    same =
        index_injective crc b b' v.0 v'.0
          (update_agree (length bs) crc crc b b' (omega arith) h h ends).0

update_cancel :
    (crc crc' b : ℕ) → crc < 2 ^ 32 → crc' < 2 ^ 32 → update crc b ≡ update crc' b → crc ≡ crc'
update_cancel crc crc' b h h' s = omega (arith, agree, low)
  where
    agree : (index crc b ≡ index crc' b) × (crc / 256 ≡ crc' / 256)
    agree = update_agree 0 crc crc' b b (omega arith) h h' s

    low : crc % 256 ≡ crc' % 256
    low =
        bit_xor_injective_left _ _ (b % 256)
          (sym (mod_byte-bit_xor crc b) ∙ agree.0 ∙ mod_byte-bit_xor crc' b)

-- After equal bytes, registers that differ still differ.
update_all_cancel :
    (crc crc' : ℕ) (bs : List ℕ)
    → crc < 2 ^ 32
    → crc' < 2 ^ 32
    → update_all crc bs ≡ update_all crc' bs
    → crc ≡ crc'
unfolding update_all
update_all_cancel crc crc' [] h h' s = s
update_all_cancel crc crc' (b ∷ bs) h h' s = update_cancel crc crc' b h h' (
    update_all_cancel (update crc b) (update crc' b) bs (update-lt crc b h) (update-lt crc' b h') s)

-- A burst of errors is detected: two buffers that differ only within one stretch of at most four
-- bytes have different checksums from any 32-bit start value.
pub crc32_detects_burst :
    (crc : ℕ) (pre mid mid' post : List ℕ)
    → crc < 2 ^ 32
    → AreBytes mid
    → AreBytes mid'
    → length mid ≡ length mid'
    → length mid ≤ 4
    → mid ≢ mid'
    → crc32 crc (pre ++ (mid ++ post)) (length (pre ++ (mid ++ post)))
      ≢ crc32 crc (pre ++ (mid' ++ post)) (length (pre ++ (mid' ++ post)))
crc32_detects_burst crc pre mid mid' post h v v' e room ne s = ne (
    update_all_injective start mid mid' start-lt v v' e room (
      update_all_cancel _ _ post (update_all-lt start mid start-lt)
        (update_all-lt start mid' start-lt) ends))
  where
    start : ℕ
    start = update_all (bit_xor crc all_ones) pre

    start-lt : start < 2 ^ 32
    start-lt = update_all-lt (bit_xor crc all_ones) pre (bit_xor-lt-pow 32 _ _ h (omega arith))

    run :
        (bs : List ℕ)
        → crc32 crc (pre ++ (bs ++ post)) (length (pre ++ (bs ++ post)))
          ≡ bit_xor (update_all (update_all start bs) post) all_ones
    run bs = rw (crc32_whole, update_all-append, update_all-append)

    ends : update_all (update_all start mid) post ≡ update_all (update_all start mid') post
    ends = bit_xor_injective_left _ _ all_ones (sym (run mid) ∙ s ∙ run mid')
