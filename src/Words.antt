-- ===== src/Words.antt =====
-- 32-bit words in memory: in network order, as `htonl` and `memcpy` put them, and in the host's
-- order (little-endian), as a plain `memcpy` puts them.
use project.Base.{
  ℕ, ◌+◌, ◌*◌, ◌/◌, ◌%◌, ◌^◌, List, [], ◌∷◌, ◌++◌, ◌<◌, ◌≡◌, refl, ap, ◌∙◌, arith, length, get_or,
  get_or-append_right,
}

abbrev pub be32 : ℕ → List ℕ
be32 x = (x / 2 ^ 24 % 256) ∷ (x / 2 ^ 16 % 256) ∷ (x / 2 ^ 8 % 256) ∷ (x % 256) ∷ []

abbrev pub le32 : ℕ → List ℕ
le32 x = (x % 256) ∷ (x / 2 ^ 8 % 256) ∷ (x / 2 ^ 16 % 256) ∷ (x / 2 ^ 24 % 256) ∷ []

-- `ntohl(*(uint32_t *)(buf + i))`
unfoldable pub read_be32 : List ℕ → ℕ → ℕ
read_be32 buf i =
    get_or buf i 0 * 2 ^ 24
    + get_or buf (i + 1) 0 * 2 ^ 16
    + get_or buf (i + 2) 0 * 2 ^ 8
    + get_or buf (i + 3) 0

-- `*(uint32_t *)(buf + i)`
unfoldable pub read_le32 : List ℕ → ℕ → ℕ
read_le32 buf i =
    get_or buf i 0
    + get_or buf (i + 1) 0 * 2 ^ 8
    + get_or buf (i + 2) 0 * 2 ^ 16
    + get_or buf (i + 3) 0 * 2 ^ 24

-- A word behind a list.
pub read_behind :
    (xs ys : List ℕ) (i j : ℕ) → j ≡ length xs + i → read_le32 (xs ++ ys) j ≡ read_le32 ys i
unfolding read_le32
read_behind xs ys i j e = omega (
  arith,
  at 0 i j (omega arith) (omega arith),
  at 1 (i + 1) (j + 1) refl refl,
  at 2 (i + 2) (j + 2) refl refl,
  at 3 (i + 3) (j + 3) refl refl,
)
  where
    at : (k m n : ℕ) → m ≡ i + k → n ≡ j + k → get_or (xs ++ ys) n 0 ≡ get_or ys m 0
    at k m n em en =
        get_or-append_right xs ys n 0 (omega arith) ∙ ap (λ (t : ℕ). get_or ys t 0) (omega arith)

-- A word that is written is read again.
pub read_le32-le32 : (v : ℕ) (ys : List ℕ) → v < 2 ^ 32 → read_le32 (le32 v ++ ys) 0 ≡ v
unfolding read_le32
read_le32-le32 v ys h = omega arith

pub read_be32-be32 : (v : ℕ) (ys : List ℕ) → v < 2 ^ 32 → read_be32 (be32 v ++ ys) 0 ≡ v
unfolding read_be32
read_be32-be32 v ys h = omega arith
