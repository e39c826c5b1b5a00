-- ===== src/Region/Alloc/Rounding.antt =====
-- `align_size` rounds up to a multiple of the alignment, as long as nothing wraps around.
use Prim.Native.Nat.{bit_and}
use native.Mathlib.Nat.{one-le-pow}
use asteron.Prelude.{
  ℕ, suc, ◌+◌, ◌-◌, ◌*◌, ◌/◌, ◌%◌, ◌^◌, ◌≤◌, ◌<◌, ◌≡◌, ap, ◌∙◌, arith, u64_mod, bit_and-high,
  pow_add,
}
use asteron.Region.Alloc.{align_size}

-- For an alignment that is a power of two.
pub align_size-round :
    (k size : ℕ)
    → k < 64
    → size + 2 ^ k ≤ u64_mod
    → align_size size (2 ^ k) ≡ (size + 2 ^ k - 1) / 2 ^ k * 2 ^ k
unfolding align_size
align_size-round k size h fits =
    let p = 2 ^ k in
    let j = 64 - k in
    let q = 2 ^ j in
    let positive = one-le-pow k 2 (omega arith) in
    let whole : j + k ≡ 64 = omega arith in
    let product : q * p ≡ u64_mod = pow_add j k ∙ ap (λ (t : ℕ). 2 ^ t) whole in
    let q_positive = one-le-pow j 2 (omega arith) in
    let unit : q ≡ suc (q - 1) = omega arith in
    let split : q * p ≡ p + (q - 1) * p = ap (λ (t : ℕ). t * p) unit ∙ omega arith in
    let low : (p + u64_mod - 1) % u64_mod ≡ p - 1 = omega arith in
    let mask : u64_mod - 1 - (p + u64_mod - 1) % u64_mod ≡ (q - 1) * p =
      omega (arith, low, split, product) in
    let sum : (size + p + u64_mod - 1) % u64_mod ≡ size + p - 1 = omega arith in
    ap (λ (t : ℕ). bit_and t (u64_mod - 1 - (p + u64_mod - 1) % u64_mod)) sum
    ∙ ap (λ (t : ℕ). bit_and (size + p - 1) t) mask
    ∙ bit_and-high j k (size + p - 1) (omega arith)
