-- ===== src/Base/Bits.antt =====
-- `^` and `& 0xff` on machine words: one-digit laws, and what follows from them at every width.
use Prim.Native.Nat.{
  ℕ, zero, suc, ◌+◌, ◌-◌, ◌*◌, ◌/◌, ◌%◌, ◌^◌, ◌≤◌, ◌<◌, min, differ, bit_and, bit_xor, digits,
  bitwise, bit_and-bitwise, bit_xor-bitwise,
}
use mathlib.Core.Path.{◌≡◌, refl, ap, ap₂, sym, ◌∙◌}
use native.Mathlib.Nat.{div-div-eq-div-mul, pow-suc}
use native.Mathlib.Omega.{arith}

-- A bitwise operation reads its first operand's digits from the lowest on. `unit` answers where that
-- operand has none left, and agrees with reading zeros.
record Reads (unit : ℕ → ℕ) (op : ℕ → ℕ → ℕ) : Type 0 where
  agrees : (y : ℕ) → unit y ≡ op 0 (y % 2) + 2 * unit (y / 2)

no_digits : (fuel y : ℕ) (unit : ℕ → ℕ) (op : ℕ → ℕ → ℕ) → digits unit op fuel zero y ≡ unit y
no_digits zero y unit op = refl
no_digits (suc fuel) y unit op = refl

-- Fuel beyond the first operand changes nothing.
extra_fuel :
    (fuel extra x y : ℕ) (unit : ℕ → ℕ) (op : ℕ → ℕ → ℕ)
    → x ≤ fuel
    → digits unit op (extra + fuel) x y ≡ digits unit op fuel x y
extra_fuel zero extra x y unit op h =
    let none_left : x ≡ zero = omega arith in rw (none_left, no_digits)
extra_fuel (suc fuel) extra zero y unit op h = rw no_digits
extra_fuel (suc fuel) extra (suc x) y unit op h =
    let more : extra + suc fuel ≡ suc (extra + fuel) = omega arith in
    rw (more, extra_fuel fuel extra (suc x / 2) (y / 2) unit op (omega arith))

differ_digits : (x y : ℕ) → x < 2 → y < 2 → differ x y ≡ (x + y) % 2
differ_digits zero y h k = omega arith
differ_digits (suc zero) zero h k = refl
differ_digits (suc zero) (suc zero) h k = refl
differ_digits (suc zero) (suc (suc y)) h k = absurd (omega arith)
differ_digits (suc (suc x)) y h k = absurd (omega arith)

digit_step :
    (unit : ℕ → ℕ) (op : ℕ → ℕ → ℕ) (x y : ℕ)
    → Reads unit op
    → bitwise unit op x y ≡ op (x % 2) (y % 2) + 2 * bitwise unit op (x / 2) (y / 2)
digit_step unit op zero y v = v.agrees y
digit_step unit op (suc x) y v = omega (
  arith,
  ap (λ (n : ℕ). digits unit op n (suc x / 2) (y / 2)) whole
      ∙ extra_fuel (suc x / 2) (x - suc x / 2) (suc x / 2) (y / 2) unit op (omega arith),
)
  where
    whole : x ≡ x - suc x / 2 + suc x / 2
    whole = omega arith

pub bit_xor_step : (a b : ℕ) → bit_xor a b ≡ bit_xor (a / 2) (b / 2) * 2 + (a + b) % 2
bit_xor_step a b = omega (arith, reading, differ_digits (a % 2) (b % 2) (omega arith) (omega arith))
  where
    reading : bit_xor a b ≡ differ (a % 2) (b % 2) + 2 * bit_xor (a / 2) (b / 2)
    reading = simp bit_xor-bitwise (digit_step _ differ a b (record { agrees = λ y. omega arith }))

pub bit_and_step : (x y : ℕ) → bit_and x y ≡ min (x % 2) (y % 2) + 2 * bit_and (x / 2) (y / 2)
bit_and_step x y = reading
  where
    reading : bit_and x y ≡ min (x % 2) (y % 2) + 2 * bit_and (x / 2) (y / 2)
    reading = simp bit_and-bitwise (digit_step _ min x y (record { agrees = λ y. omega arith }))

pub div_two-bit_xor : (a b : ℕ) → bit_xor a b / 2 ≡ bit_xor (a / 2) (b / 2)
div_two-bit_xor a b = omega (arith, bit_xor_step a b)

pub mod_two-bit_xor : (a b : ℕ) → bit_xor a b % 2 ≡ (a + b) % 2
mod_two-bit_xor a b = omega (arith, bit_xor_step a b)

-- The laws of `^`, by induction on a bound of the operands.
comm_upto : (n a b : ℕ) → a ≤ n → b ≤ n → bit_xor a b ≡ bit_xor b a
comm_upto zero zero zero h k = refl
comm_upto zero zero (suc b) h k = absurd (omega arith)
comm_upto zero (suc a) b h k = absurd (omega arith)
comm_upto (suc n) a b h k = omega (
  arith,
  bit_xor_step a b,
  bit_xor_step b a,
  comm_upto n (a / 2) (b / 2) (omega arith) (omega arith),
)

pub bit_xor_comm : (a b : ℕ) → bit_xor a b ≡ bit_xor b a
bit_xor_comm a b = comm_upto (a + b) a b (omega arith) (omega arith)

assoc_upto :
    (n a b c : ℕ) → a ≤ n → b ≤ n → c ≤ n → bit_xor (bit_xor a b) c ≡ bit_xor a (bit_xor b c)
assoc_upto zero zero zero zero h k l = refl
assoc_upto zero zero zero (suc c) h k l = absurd (omega arith)
assoc_upto zero zero (suc b) c h k l = absurd (omega arith)
assoc_upto zero (suc a) b c h k l = absurd (omega arith)
assoc_upto (suc n) a b c h k l =
    rw
      (
        bit_xor_step (bit_xor a b) c,
        bit_xor_step a (bit_xor b c),
        div_two-bit_xor a b,
        div_two-bit_xor b c,
        assoc_upto n (a / 2) (b / 2) (c / 2) (omega arith) (omega arith) (omega arith),
      )
      (omega (arith, mod_two-bit_xor a b, mod_two-bit_xor b c))

pub bit_xor_assoc : (a b c : ℕ) → bit_xor (bit_xor a b) c ≡ bit_xor a (bit_xor b c)
bit_xor_assoc a b c = assoc_upto (a + b + c) a b c (omega arith) (omega arith) (omega arith)

self_upto : (n a : ℕ) → a ≤ n → bit_xor a a ≡ 0
self_upto zero zero h = refl
self_upto zero (suc a) h = absurd (omega arith)
self_upto (suc n) a h = omega (arith, bit_xor_step a a, self_upto n (a / 2) (omega arith))

pub bit_xor_self : (a : ℕ) → bit_xor a a ≡ 0
bit_xor_self a = self_upto a a (omega arith)

pub zero-bit_xor : (a : ℕ) → bit_xor 0 a ≡ a
zero-bit_xor a = simp bit_xor-bitwise refl

pub bit_xor-zero : (a : ℕ) → bit_xor a 0 ≡ a
bit_xor-zero a = bit_xor_comm a 0 ∙ zero-bit_xor a

-- The same word twice cancels.
pub bit_xor_cancel : (a b : ℕ) → bit_xor (bit_xor a b) b ≡ a
bit_xor_cancel a b = rw (bit_xor_assoc, bit_xor_self, bit_xor-zero)

pub bit_xor_injective_left : (a b c : ℕ) → bit_xor a c ≡ bit_xor b c → a ≡ b
bit_xor_injective_left a b c h =
    sym (bit_xor_cancel a c) ∙ ap (λ (t : ℕ). bit_xor t c) h ∙ bit_xor_cancel b c

pub bit_xor_injective_right : (a b c : ℕ) → bit_xor c a ≡ bit_xor c b → a ≡ b
bit_xor_injective_right a b c h =
    bit_xor_injective_left a b c (bit_xor_comm a c ∙ h ∙ bit_xor_comm c b)

-- `^` works on each digit, so it goes through shifts and masks.
div_two-pow : (k a : ℕ) → a / 2 ^ suc k ≡ a / 2 / 2 ^ k
div_two-pow k a =
    rw (div-div-eq-div-mul a 2 (2 ^ k)) (ap (λ (t : ℕ). a / t) (omega (arith, pow-suc 2 k)))

pub div_pow-bit_xor : (k a b : ℕ) → bit_xor a b / 2 ^ k ≡ bit_xor (a / 2 ^ k) (b / 2 ^ k)
div_pow-bit_xor zero a b =
    let p : bit_xor a b / 1 ≡ bit_xor a b = omega arith in
    let q : a / 1 ≡ a = omega arith in let r : b / 1 ≡ b = omega arith in rw (p, q, r)
div_pow-bit_xor (suc k) a b = rw (
  div_two-pow k (bit_xor a b),
  div_two-pow k a,
  div_two-pow k b,
  div_two-bit_xor,
  div_pow-bit_xor k (a / 2) (b / 2),
)

pub bit_xor-lt-pow : (k a b : ℕ) → a < 2 ^ k → b < 2 ^ k → bit_xor a b < 2 ^ k
bit_xor-lt-pow zero zero zero h l = omega arith
bit_xor-lt-pow zero zero (suc b) h l = absurd (omega arith)
bit_xor-lt-pow zero (suc a) b h l = absurd (omega arith)
bit_xor-lt-pow (suc k) a b h l = omega (
  arith,
  pow-suc 2 k,
  bit_xor_step a b,
  bit_xor-lt-pow k (a / 2) (b / 2) (omega (arith, pow-suc 2 k)) (omega (arith, pow-suc 2 k)),
)

-- The `k` low digits.
abbrev low : ℕ → ℕ → ℕ
low zero x = 0
low (suc k) x = low k (x / 2) * 2 + x % 2

low-bit_xor : (k a b : ℕ) → low k (bit_xor a b) ≡ bit_xor (low k a) (low k b)
low-bit_xor zero a b = refl
low-bit_xor (suc k) a b =
    let p : (low k (a / 2) * 2 + a % 2) / 2 ≡ low k (a / 2) = omega arith in
    let q : (low k (b / 2) * 2 + b % 2) / 2 ≡ low k (b / 2) = omega arith in
    rw
      (
        bit_xor_step (low k (a / 2) * 2 + a % 2) (low k (b / 2) * 2 + b % 2),
        p,
        q,
        ← low-bit_xor k (a / 2) (b / 2),
        ← div_two-bit_xor a b,
      )
      (omega (arith, mod_two-bit_xor a b))

pub mod_byte-bit_xor : (a b : ℕ) → bit_xor a b % 256 ≡ bit_xor (a % 256) (b % 256)
mod_byte-bit_xor a b =
    let e = λ (x : ℕ). let h : low 8 x ≡ x % 256 = omega arith in h in
    sym (e (bit_xor a b)) ∙ low-bit_xor 8 a b ∙ ap₂ bit_xor (e a) (e b)

and_zero_upto : (n a : ℕ) → a ≤ n → bit_and a 0 ≡ 0
and_zero_upto n zero h = refl
and_zero_upto zero (suc a) h = absurd (omega arith)
and_zero_upto (suc n) (suc a) h =
    omega (arith, bit_and_step (suc a) 0, and_zero_upto n (suc a / 2) (omega arith))

abbrev ones : ℕ → ℕ
ones zero = 0
ones (suc k) = ones k * 2 + 1

bit_and-ones : (k a : ℕ) → bit_and a (ones k) ≡ low k a
bit_and-ones zero a = and_zero_upto a a (omega arith)
bit_and-ones (suc k) a =
    let p : (ones k * 2 + 1) / 2 ≡ ones k = omega arith in
    rw (bit_and_step a (ones k * 2 + 1), p, bit_and-ones k (a / 2)) (omega arith)

-- `x & 0xff`
pub bit_and_byte : (a : ℕ) → bit_and a 0xff ≡ a % 256
bit_and_byte a = bit_and-ones 8 a ∙ omega arith

-- Fields that do not overlap add up.
pub bit_xor_fields : (k q r : ℕ) → r < 2 ^ k → bit_xor r (q * 2 ^ k) ≡ q * 2 ^ k + r
bit_xor_fields zero q zero h = rw zero-bit_xor (omega arith)
bit_xor_fields zero q (suc r) h = absurd (omega arith)
bit_xor_fields (suc k) q r h =
    let e : q * 2 ^ suc k ≡ q * 2 ^ k * 2 = omega (arith, ap (λ (t : ℕ). q * t) (pow-suc 2 k)) in
    let f : q * 2 ^ k * 2 / 2 ≡ q * 2 ^ k = omega arith in
    let small : r / 2 < 2 ^ k = omega (arith, pow-suc 2 k) in
    rw (e, bit_xor_step r (q * 2 ^ k * 2), f, bit_xor_fields k q (r / 2) small) (omega arith)
