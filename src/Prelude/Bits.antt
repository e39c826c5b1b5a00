-- ===== src/Prelude/Bits.antt =====
-- Machine words, and `bit_and` with a mask of high bits.
use Prim.Native.Nat.{
  ℕ, zero, suc, ◌+◌, ◌-◌, ◌*◌, ◌/◌, ◌%◌, ◌^◌, ◌≤◌, ◌<◌, min, bit_and, digits, bit_and-bitwise,
}
use mathlib.Core.Path.{◌≡◌, refl, ap, ◌∙◌, sym}
use native.Mathlib.Omega.{arith}
use native.Mathlib.Nat.{
  pow-succ', mul-add-mod_self_left, mod-eq_of_lt, mul-one, div-one, div-div-eq-div-mul, mod-one,
  one-le-pow, div-add-mod, mod-lt, div-lt_iff_lt-mul,
}

abbrev pub u32_mod : ℕ
u32_mod = 2 ^ 32

abbrev pub u64_mod : ℕ
u64_mod = 2 ^ 64

-- The conjunction as the library defines it, with `n` digits at most.
abbrev conj : ℕ → ℕ → ℕ → ℕ
conj = digits (λ y. zero) min

-- Two bounds on the digits of one number give one result.
conj_bound : (n m x y : ℕ) → x ≤ n → x ≤ m → conj n x y ≡ conj m x y
conj_bound zero zero x y p q = refl
conj_bound zero (suc m) zero y p q = refl
conj_bound (suc n) zero zero y p q = refl
conj_bound (suc n) (suc m) zero y p q = refl
conj_bound zero (suc m) (suc x) y p q = elim p [ ]
conj_bound (suc n) zero (suc x) y p q = elim q [ ]
conj_bound (suc n) (suc m) (suc x) y p q =
    let halved = conj_bound n m (suc x / 2) (y / 2) (omega arith) (omega arith) in omega arith

bit_and-zero_left : (y : ℕ) → bit_and 0 y ≡ 0
bit_and-zero_left y = bit_and-bitwise 0 y

-- The lowest digit, and the others.
pub bit_and_halves : (x y : ℕ) → bit_and x y ≡ 2 * bit_and (x / 2) (y / 2) + min (x % 2) (y % 2)
bit_and_halves zero y = omega (arith, bit_and-zero_left y, bit_and-zero_left (y / 2))
bit_and_halves (suc x) y =
    let whole = bit_and-bitwise (suc x) y in
    let half = bit_and-bitwise (suc x / 2) (y / 2) in
    let same = conj_bound x (suc x / 2) (suc x / 2) (y / 2) (omega arith) (omega arith) in
    omega arith

bit_and-zero_right : (n y : ℕ) → y ≤ n → bit_and y 0 ≡ 0
bit_and-zero_right n zero h = bit_and-zero_left 0
bit_and-zero_right zero (suc y) h = elim h [ ]
bit_and-zero_right (suc n) (suc y) h =
    omega (arith, bit_and_halves (suc y) 0, bit_and-zero_right n (suc y / 2) (omega arith))

halved : (t : ℕ) → 2 * t / 2 ≡ t
halved t = omega arith

-- A shifted mask acts on the shifted number.
bit_and-shift : (k x m : ℕ) → bit_and x (m * 2 ^ k) ≡ bit_and (x / 2 ^ k) m * 2 ^ k
bit_and-shift zero x m = rw (mul-one, div-one) (omega arith)
bit_and-shift (suc k) x m =
    let doubled : m * 2 ^ suc k ≡ 2 * (m * 2 ^ k) =
      omega (arith, ap (λ (t : ℕ). m * t) (pow-succ' 2 k)) in
    let quotient : x / 2 ^ suc k ≡ x / 2 / 2 ^ k =
      ap (λ (t : ℕ). x / t) (pow-succ' 2 k) ∙ sym (div-div-eq-div-mul x 2 (2 ^ k)) in
    let r = bit_and (x / 2 / 2 ^ k) m in
    rw (doubled, quotient)
      (omega (
        arith,
        bit_and_halves x (2 * (m * 2 ^ k)),
        bit_and-shift k (x / 2) m,
        ap (λ (t : ℕ). bit_and (x / 2) t) (halved (m * 2 ^ k)),
        ap (λ (t : ℕ). r * t) (pow-succ' 2 k),
      ))

mod-double : (p y : ℕ) → 1 ≤ p → y % (2 * p) ≡ 2 * (y / 2 % p) + y % 2
mod-double p y h =
    let q = y / 2 / p in
    let c = 2 * (y / 2 % p) + y % 2 in
    let pieces = div-add-mod (y / 2) p in
    let small = mod-lt (y / 2) {m = p} h in
    let whole : y ≡ 2 * p * q + c = omega arith in
    let least : c < 2 * p = omega arith in
    ap (λ (t : ℕ). t % (2 * p)) whole ∙ mul-add-mod_self_left (2 * p) q c ∙ mod-eq_of_lt least

-- A mask of `j` low bits is the remainder.
bit_and-low : (j y : ℕ) → bit_and y (2 ^ j - 1) ≡ y % 2 ^ j
bit_and-low zero y = rw mod-one (bit_and-zero_right y y (omega arith))
bit_and-low (suc j) y =
    let p = 2 ^ j in
    let positive = one-le-pow j 2 (omega arith) in
    let half : (2 ^ suc j - 1) / 2 ≡ p - 1 = omega (arith, pow-succ' 2 j, positive) in
    let remainder = ap (λ (t : ℕ). y % t) (pow-succ' 2 j) ∙ mod-double p y positive in
    omega (
      arith,
      bit_and_halves y (2 ^ suc j - 1),
      ap (λ (t : ℕ). bit_and (y / 2) t) half,
      bit_and-low j (y / 2),
      remainder,
      pow-succ' 2 j,
      positive,
    )

-- Clearing the `k` low bits of a number of `j + k` bits.
pub bit_and-high :
    (j k x : ℕ) → x < 2 ^ j * 2 ^ k → bit_and x ((2 ^ j - 1) * 2 ^ k) ≡ x / 2 ^ k * 2 ^ k
bit_and-high j k x h =
    bit_and-shift k x (2 ^ j - 1)
    ∙ ap (λ (t : ℕ). t * 2 ^ k)
        (bit_and-low j (x / 2 ^ k)
          ∙ mod-eq_of_lt ((div-lt_iff_lt-mul (one-le-pow k 2 (omega arith))).1 h))

pub pow_add : (j k : ℕ) → 2 ^ j * 2 ^ k ≡ 2 ^ (j + k)
pow_add zero k =
    let same : k ≡ 0 + k = omega arith in
    let unit : 1 * 2 ^ k ≡ 2 ^ k = omega arith in unit ∙ ap (λ (t : ℕ). 2 ^ t) same
pow_add (suc j) k =
    let x = 2 ^ j in
    let y = 2 ^ k in
    let doubled : 2 ^ suc j * y ≡ 2 * (x * y) =
      omega (arith, ap (λ (t : ℕ). t * y) (pow-succ' 2 j)) in
    let same : suc (j + k) ≡ suc j + k = omega arith in
    doubled
    ∙ ap (λ (t : ℕ). 2 * t) (pow_add j k)
    ∙ sym (pow-succ' 2 (j + k))
    ∙ ap (λ (t : ℕ). 2 ^ t) same
