-- ===== src/Crc32/Reference.antt =====
-- The table-driven checksum of crc32.c against the shift register that its header describes:
-- one bit at a time, towards the right, with the polynomial 0xedb88320.
use project.Base.{
  ℕ, zero, suc, ◌*◌, ◌/◌, ◌%◌, ◌^◌, ◌<◌, ◌≡◌, refl, sym, ap, ◌∙◌, List, [], ◌∷◌, arith, bit_xor,
  bit_xor_fields, true, All, inl, inr, Bool-cases, bit_xor_assoc, bit_xor_comm, bit_xor-zero, take,
  ◌==◌, ==_iff, if◌then◌else◌, div_two-bit_xor, mod_two-bit_xor, div_pow-bit_xor,
}
use native.Mathlib.Nat.{pow-suc}
use project.Crc32.{update, update_all, all_ones, crc32}
use project.Crc32.Step.{entry, update_lem, passes, passes_at}

-- One shift of the register, with feedback if a one falls out.
shift : ℕ → ℕ
shift x = if x % 2 == 1 then bit_xor (x / 2) 0xedb88320 else x / 2

shifts : ℕ → ℕ → ℕ
shifts zero x = x
shifts (suc n) x = shifts n (shift x)

-- The register takes a byte in and shifts eight times.
feed : ℕ → List ℕ → ℕ
feed crc [] = crc
feed crc (b ∷ bs) = feed (shifts 8 (bit_xor crc b)) bs

pub shift_register : ℕ → List ℕ → ℕ
shift_register crc bs = bit_xor (feed (bit_xor crc all_ones) bs) all_ones

entry_table : passes (λ x. shifts 8 x == entry x) 256 ≡ true
unfolding passes entry shifts shift
entry_table = refl

shifts-entry : (i : ℕ) → i < 256 → shifts 8 i ≡ entry i
shifts-entry i h = (==_iff _ _).0 (passes_at _ 256 i h entry_table)

-- A shift takes an even summand along without feedback.
shift-bit_xor : (a b : ℕ) → shift (bit_xor a (b * 2)) ≡ bit_xor (shift a) b
unfolding shift
shift-bit_xor a b =
    rw (digit, rest)
      (elim (Bool-cases (a % 2 == 1)) [
        | inl e ↦ rw (e, bit_xor_assoc, bit_xor_assoc, bit_xor_comm 0xedb88320 b)
        | inr e ↦ rw e
      ])
  where
    digit : bit_xor a (b * 2) % 2 ≡ a % 2
    digit = omega (arith, mod_two-bit_xor a (b * 2))

    rest : bit_xor a (b * 2) / 2 ≡ bit_xor (a / 2) b
    rest = let e : b * 2 / 2 ≡ b = omega arith in rw (div_two-bit_xor, e)

shifts-bit_xor : (n a b : ℕ) → shifts n (bit_xor a (b * 2 ^ n)) ≡ bit_xor (shifts n a) b
unfolding shifts
shifts-bit_xor zero a b = ap (bit_xor a) (omega arith)
shifts-bit_xor (suc n) a b =
    let e : b * 2 ^ suc n ≡ b * 2 ^ n * 2 = omega (arith, ap (λ (t : ℕ). b * t) (pow-suc 2 n)) in
    rw (e, shift-bit_xor a (b * 2 ^ n)) (shifts-bit_xor n (shift a) b)

-- A word is its low byte with the rest above it.
bytes_apart : (x : ℕ) → bit_xor (x % 256) (x / 256 * 256) ≡ x
bytes_apart x = bit_xor_fields 8 (x / 256) (x % 256) (omega arith) ∙ omega arith

shifts_eight : (x : ℕ) → shifts 8 x ≡ bit_xor (entry (x % 256)) (x / 256)
shifts_eight x =
    ap (shifts 8) (sym (bytes_apart x))
    ∙ shifts-bit_xor 8 (x % 256) (x / 256)
    ∙ ap (λ (t : ℕ). bit_xor t (x / 256)) (shifts-entry (x % 256) (omega arith))

-- One table step is eight shifts.
update-shifts : (crc b : ℕ) → b < 256 → update crc b ≡ shifts 8 (bit_xor crc b)
update-shifts crc b h =
    let e : b / 256 ≡ 0 = omega arith in
    rw (update_lem, shifts_eight, div_pow-bit_xor 8 crc b, e, bit_xor-zero)

update_all-feed : (crc : ℕ) (bs : List ℕ) → All (λ b. b < 256) bs → update_all crc bs ≡ feed crc bs
unfolding update_all feed
update_all-feed crc [] v = refl
update_all-feed crc (b ∷ bs) v =
    rw (update-shifts crc b v.0) (update_all-feed (shifts 8 (bit_xor crc b)) bs v.1)

-- The table-driven checksum of the first `size` bytes of a buffer is that of the shift register,
-- if these are bytes.
pub crc32-shift_register :
    (crc : ℕ) (buf : List ℕ) (size : ℕ)
    → All (λ b. b < 256) (take size buf)
    → crc32 crc buf size ≡ shift_register crc (take size buf)
unfolding crc32 shift_register
crc32-shift_register crc buf size v = rw (update_all-feed (bit_xor crc all_ones) (take size buf) v)
