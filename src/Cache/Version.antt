-- ===== src/Cache/Version.antt =====
-- src/modules/cache.h and src/modules/cache.c: the versions of modules. The four parts are 16-bit
-- numbers, so their differences fit an `int`.
use asteron.Prelude.{
  ℕ, zero, suc, ◌-◌, ◌≤◌, ◌<◌, ◌≡◌, ◌↔◌, ◌⊎◌, inl, inr, arith, Bool, true, false, not, ◌&&◌, ◌||◌,
  ltb, leb, Bool-cases, sym, ap, ◌∙◌, ◌==◌, if◌then◌else◌,
}

pub record ModuleVersion : Type 0 where
  pub major : ℕ
  pub minor : ℕ
  pub patch : ℕ
  pub build : ℕ

-- An `int`: `negsuc n` is the negative number `-(n + 1)`.
pub data ℤ : Type 0 where
  pos negsuc : ℕ → ℤ

unfoldable pub difference : ℕ → ℕ → ℤ
difference a b = if ltb a b then negsuc (b - a - 1) else pos (a - b)

unfoldable pub version_compare : ModuleVersion → ModuleVersion → ℤ
version_compare a b =
    if not (a.major == b.major)
    then difference a.major b.major
    else if not (a.minor == b.minor)
    then difference a.minor b.minor
    else if not (a.patch == b.patch)
    then difference a.patch b.patch
    else difference a.build b.build

unfoldable pub version_compatible : ModuleVersion → ModuleVersion → Bool
version_compatible required provided =
    if not (provided.major == required.major)
    then false
    else if ltb provided.minor required.minor
    then false
    else not (provided.minor == required.minor && ltb provided.patch required.patch)

-- The macro of the same test.
unfoldable pub module_version_compatible : ModuleVersion → ModuleVersion → Bool
module_version_compatible required provided =
    provided.major == required.major
    && (ltb required.minor provided.minor
        || provided.minor == required.minor && leb required.patch provided.patch)

abbrev pub negate : ℤ → ℤ
negate (pos zero) = pos zero
negate (pos (suc n)) = negsuc n
negate (negsuc n) = pos (suc n)

abbrev pub IsNegative : ℤ → Type 0
IsNegative (pos n) = ⊥
IsNegative (negsuc n) = Unit

-- The order by the parts, the first that differs deciding.
abbrev pub IsBefore : ModuleVersion → ModuleVersion → Type 0
IsBefore a b =
    (a.major < b.major)
    ⊎ ((a.major ≡ b.major)
        × ((a.minor < b.minor)
            ⊎ ((a.minor ≡ b.minor)
                × ((a.patch < b.patch) ⊎ ((a.patch ≡ b.patch) × (a.build < b.build))))))

difference-IsNegative : (a b : ℕ) → IsNegative (difference a b) ↔ (a < b)
unfolding difference
difference-IsNegative a b = (λ h. ground arith, λ h. ground arith)

difference_lt : (a b : ℕ) → a < b → difference a b ≡ negsuc (b - a - 1)
unfolding difference
difference_lt a b h = ground arith

difference_ge : (a b : ℕ) → b ≤ a → difference a b ≡ pos (a - b)
unfolding difference
difference_ge a b h = ground arith

difference-negate : (a b : ℕ) → difference a b ≡ negate (difference b a)
difference-negate a b = elim (Bool-cases (ltb a b)) [
  | inl h ↦
      let less : a < b = ground arith in
      let shape : b - a ≡ suc (b - a - 1) = omega arith in
      difference_lt a b less ∙ sym (ap negate (difference_ge b a (omega arith) ∙ ap pos shape))
  | inr h ↦ elim (Bool-cases (ltb b a)) [
    | inl g ↦
        let less : b < a = ground arith in
        let shape : a - b ≡ suc (a - b - 1) = omega arith in
        difference_ge a b (omega arith) ∙ ap pos shape ∙ sym (ap negate (difference_lt b a less))
    | inr g ↦
        let le : b ≤ a = ground arith in
        let ge : a ≤ b = ground arith in
        let left : a - b ≡ zero = omega arith in
        let right : b - a ≡ zero = omega arith in
        difference_ge a b le ∙ ap pos left ∙ sym (ap negate (difference_ge b a ge ∙ ap pos right))
  ]
]

-- The comparison is negative exactly if the first version comes before the second in the
-- lexicographic order of the parts, and the comparison the other way round is its opposite.
pub version_compare-IsBefore :
    (a b : ModuleVersion)
    → (IsNegative (version_compare a b) ↔ IsBefore a b)
      × (version_compare a b ≡ negate (version_compare b a))
unfolding version_compare
version_compare-IsBefore a b = (
  (
    λ h. ground (
      arith,
      difference-IsNegative a.major b.major,
      difference-IsNegative a.minor b.minor,
      difference-IsNegative a.patch b.patch,
      difference-IsNegative a.build b.build,
    ),
    λ h. ground (
      arith,
      difference-IsNegative a.major b.major,
      difference-IsNegative a.minor b.minor,
      difference-IsNegative a.patch b.patch,
      difference-IsNegative a.build b.build,
    ),
  ),
  ground (
    arith,
    difference-negate a.major b.major,
    difference-negate a.minor b.minor,
    difference-negate a.patch b.patch,
    difference-negate a.build b.build,
  ),
)

-- A version without its build.
abbrev pub release : ModuleVersion → ModuleVersion
release v = record v { build = 0 }

-- A provided version is compatible exactly if it has the major part that is required and is, builds
-- aside, not before the required version; and the macro of the header is the same test.
pub version_compatible-compare :
    (required provided : ModuleVersion)
    → ((version_compatible required provided ≡ true)
        ↔ ((provided.major ≡ required.major) × (¬ IsBefore (release provided) (release required))))
      × (module_version_compatible required provided ≡ version_compatible required provided)
unfolding version_compatible module_version_compatible
version_compatible-compare required provided =
    ((λ h. ground arith, λ h. ground arith), ground arith)
