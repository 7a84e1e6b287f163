-- ===== src/Crc32/Step.antt =====
-- One byte of the checksum: the table entry of a byte, and how an update moves the register.
use project.Base.{
  ℕ, zero, suc, ◌+◌, ◌/◌, ◌%◌, ◌^◌, ◌≤◌, ◌<◌, ◌≡◌, refl, sym, ap, ◌∙◌, Bool, true, false, ◌&&◌,
  arith, bit_xor, get_or, ltb, ◌==◌, ==_iff, ltb→lt, List, [], ◌∷◌, bit_and_byte, mod_byte-bit_xor,
  div_pow-bit_xor, bit_xor-lt-pow, bit_xor_injective_right, bit_xor-zero,
}
use project.Crc32.{crc32_tab, update}

-- `crc32_tab[i]`
unfoldable pub entry : ℕ → ℕ
unfolding crc32_tab
entry i = get_or crc32_tab i 0

-- Checks every index below `n` by evaluation.
unfoldable pub passes : (ℕ → Bool) → ℕ → Bool
passes test zero = true
passes test (suc limit) = passes test limit && test limit

pub passes_at :
    (test : ℕ → Bool) (limit i : ℕ) → i < limit → passes test limit ≡ true → test i ≡ true
unfolding passes
passes_at test zero i below all = absurd (omega arith)
passes_at test (suc limit) i below all = ground (arith, passes_at test limit i)

entry_bound_table : passes (λ x. ltb (entry x) (2 ^ 32)) 256 ≡ true
unfolding passes entry
entry_bound_table = refl

pub entry-lt : (i : ℕ) → i < 256 → entry i < 2 ^ 32
entry-lt i h = ltb→lt _ _ (passes_at _ 256 i h entry_bound_table)

-- The first position from `i` on whose entry has the top byte `t`.
position_of : ℕ → List ℕ → ℕ → ℕ
position_of t [] i = i
position_of t (e ∷ es) i = elim (e / 2 ^ 24 == t) [ true ↦ i | false ↦ position_of t es (i + 1) ]

top_byte_table : passes (λ x. position_of (entry x / 2 ^ 24) crc32_tab 0 == x) 256 ≡ true
unfolding passes entry position_of
top_byte_table = refl

-- The top bytes of the entries are all different.
pub top_byte_injective : (i j : ℕ) → i < 256 → j < 256 → entry i / 2 ^ 24 ≡ entry j / 2 ^ 24 → i ≡ j
top_byte_injective i j hi hj e =
    sym (at i hi) ∙ ap (λ (t : ℕ). position_of t crc32_tab 0) e ∙ at j hj
  where
    at : (x : ℕ) → x < 256 → position_of (entry x / 2 ^ 24) crc32_tab 0 ≡ x
    at x h = (==_iff _ _).0 (passes_at _ 256 x h top_byte_table)

-- The index of an update, without masks.
abbrev pub index : ℕ → ℕ → ℕ
index crc p = bit_xor crc p % 256

pub update_lem : (crc p : ℕ) → update crc p ≡ bit_xor (entry (index crc p)) (crc / 2 ^ 8)
unfolding update entry
update_lem crc p = rw bit_and_byte

-- The register stays a 32-bit word.
pub update-lt : (crc p : ℕ) → crc < 2 ^ 32 → update crc p < 2 ^ 32
update-lt crc p h =
    rw update_lem (bit_xor-lt-pow 32 _ _ (entry-lt (index crc p) (omega arith)) (omega arith))

-- `x >> 8 * m`
abbrev pub shr_bytes : ℕ → ℕ → ℕ
shr_bytes zero x = x
shr_bytes (suc m) x = shr_bytes m (x / 2 ^ 8)

shr_bytes-bit_xor :
    (m a b : ℕ) → shr_bytes m (bit_xor a b) ≡ bit_xor (shr_bytes m a) (shr_bytes m b)
shr_bytes-bit_xor zero a b = refl
shr_bytes-bit_xor (suc m) a b =
    rw (div_pow-bit_xor 8 a b) (shr_bytes-bit_xor m (a / 2 ^ 8) (b / 2 ^ 8))

-- Shifting on, until three bytes are gone.
shr_bytes_three :
    (a b m : ℕ) → m ≤ 3 → shr_bytes m a ≡ shr_bytes m b → shr_bytes 3 a ≡ shr_bytes 3 b
shr_bytes_three a b zero h e = ap (shr_bytes 3) e
shr_bytes_three a b (suc zero) h e = ap (shr_bytes 2) e
shr_bytes_three a b (suc (suc zero)) h e = ap (shr_bytes 1) e
shr_bytes_three a b (suc (suc (suc zero))) h e = e
shr_bytes_three a b (suc (suc (suc (suc m)))) h e = absurd (omega arith)

-- The top byte of an updated register is the top byte of the entry that was used.
top_byte-update :
    (crc p : ℕ) → crc < 2 ^ 32 → shr_bytes 3 (update crc p) ≡ entry (index crc p) / 2 ^ 24
top_byte-update crc p h =
    rw (update_lem, shr_bytes-bit_xor 3 (entry (index crc p)) (crc / 2 ^ 8), gone, bit_xor-zero)
      (omega arith)
  where
    gone : crc / 256 / 256 / 256 / 256 ≡ 0
    gone = omega arith

-- Two updates whose results agree but for their `m` low bytes, with `m` at most 3, used one index,
-- and the registers before them agree but for `m + 1` low bytes.
pub update_agree :
    (m crc crc' p p' : ℕ)
    → m ≤ 3
    → crc < 2 ^ 32
    → crc' < 2 ^ 32
    → shr_bytes m (update crc p) ≡ shr_bytes m (update crc' p')
    → (index crc p ≡ index crc' p') × (shr_bytes (suc m) crc ≡ shr_bytes (suc m) crc')
update_agree m crc crc' p p' hm h h' e = (same, rest)
  where
    same : index crc p ≡ index crc' p'
    same =
        top_byte_injective _ _ (omega arith) (omega arith)
          (sym (top_byte-update crc p h) ∙ shr_bytes_three _ _ m hm e ∙ top_byte-update crc' p' h')

    split :
        (c q : ℕ)
        → shr_bytes m (update c q) ≡ bit_xor (shr_bytes m (entry (index c q))) (shr_bytes (suc m) c)
    split c q = rw update_lem (shr_bytes-bit_xor m (entry (index c q)) (c / 2 ^ 8))

    rest : shr_bytes (suc m) crc ≡ shr_bytes (suc m) crc'
    rest = bit_xor_injective_right _ _ (shr_bytes m (entry (index crc p))) (
        sym (split crc p)
        ∙ e
        ∙ split crc' p'
        ∙ ap (λ (t : ℕ). bit_xor (shr_bytes m (entry t)) (shr_bytes (suc m) crc')) (sym same))

-- From one register, updates with one index took the same byte.
pub index_injective : (crc p p' : ℕ) → p < 256 → p' < 256 → index crc p ≡ index crc p' → p ≡ p'
index_injective crc p p' h h' e =
    bit_xor_injective_right p p' (crc % 256) (sym (low p h) ∙ e ∙ low p' h')
  where
    low : (q : ℕ) → q < 256 → index crc q ≡ bit_xor (crc % 256) q
    low q hq = let f : q % 256 ≡ q = omega arith in rw (mod_byte-bit_xor, f)
