-- ===== src/CBuffer/Space.antt =====
-- `spaceLeft` of cbuffer.c: how many bytes the buffer holds.
use project.Base.{ℕ, ◌+◌, ◌-◌, ◌≤◌, ◌<◌, ◌≡◌, ◌⊎◌, Bool, true, false, arith}
use project.CBuffer.{Buffer, space_left}

-- Positions in range; `is_empty` may be stale only where the positions differ.
pub record InRange (b : Buffer) : Type 0 where
  pub start_in : b.dstart < 64000
  pub end_in : b.dend ≤ 64000

-- How many bytes are held.
unfoldable pub used : Buffer → ℕ
used b = 64000 - (space_left b).0

-- The four cases of `spaceLeft`.
abbrev pub UsedCases : ℕ → ℕ → Bool → ℕ → Type 0
UsedCases dstart dend e n =
    ((dend < dstart) × (n + dstart ≡ 64000 + dend))
    ⊎ ((dstart < dend) × (n + dstart ≡ dend))
    ⊎ ((dstart ≡ dend) × (e ≡ true) × (n ≡ 0))
    ⊎ ((dstart ≡ dend) × (e ≡ false) × (n ≡ 64000))

pub used_cases : (b : Buffer) → InRange b → UsedCases b.dstart b.dend b.is_empty (used b)
unfolding used space_left
used_cases b v = ground arith

pub space_left-used : (b : Buffer) → InRange b → (space_left b).0 + used b ≡ 64000
unfolding used space_left
space_left-used b v = ground arith

-- The buffers differ at most in `is_empty` and `windowend`, and hold equally much.
pub record SameData (b c : Buffer) : Type 0 where
  pub cirbuffer_same : c.cirbuffer ≡ b.cirbuffer
  pub nodes_same : c.nodes ≡ b.nodes
  pub dstart_same : c.dstart ≡ b.dstart
  pub dend_same : c.dend ≡ b.dend
  pub packseq_same : c.packseq ≡ b.packseq
  pub used_same : used c ≡ used b

pub space_left-SameData : (b : Buffer) → SameData b (space_left b).1
unfolding used space_left
space_left-SameData b = ground arith

-- It looks at three fields only.
pub used_eq :
    (b c : Buffer)
    → c.dstart ≡ b.dstart
    → c.dend ≡ b.dend
    → c.is_empty ≡ b.is_empty
    → used c ≡ used b
unfolding used space_left
used_eq b c e f g = ground arith
