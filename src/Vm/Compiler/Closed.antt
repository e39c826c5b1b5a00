-- ===== src/Vm/Compiler/Closed.antt =====
-- src/core/vm/compiler.c: lists of instructions that point into the tables of a program.
use asteron.Prelude.{
  ℕ, zero, suc, ◌≤◌, ◌<◌, ◌≡◌, refl, ap, List, [], ◌∷◌, ◌++◌, map, length, All, arith,
}
use asteron.Vm.Bytecode.{OpCode, Instruction, set_target}
use asteron.Vm.Bytecode.OpCode.{
  load_const, load_var, store_var, jump, jump_if_false, jump_if_true, call, release, store_local,
  load_local,
}

-- The operand of an instruction lies in the table that it indexes: of `k` constants, of `v` names, or of
-- `m` instructions, where a target may stand behind the last one.
unfoldable pub InRange : ℕ → ℕ → ℕ → OpCode → ℕ → Type 0
InRange k v m load_const x = x < k
InRange k v m load_var x = x < v
InRange k v m store_var x = x < v
InRange k v m call x = x < v
InRange k v m release x = x < v
InRange k v m store_local x = x < v
InRange k v m load_local x = x < v
InRange k v m jump x = x ≤ m
InRange k v m jump_if_false x = x ≤ m
InRange k v m jump_if_true x = x ≤ m
InRange k v m op x = Unit

pub InRange-mono :
    (k v m k' v' m' : ℕ) (op : OpCode) (x : ℕ)
    → k ≤ k'
    → v ≤ v'
    → m ≤ m'
    → InRange k v m op x
    → InRange k' v' m' op x
unfolding InRange
InRange-mono k v m k' v' m' load_const x a b c h = omega (arith, a, h)
InRange-mono k v m k' v' m' load_var x a b c h = omega (arith, b, h)
InRange-mono k v m k' v' m' store_var x a b c h = omega (arith, b, h)
InRange-mono k v m k' v' m' call x a b c h = omega (arith, b, h)
InRange-mono k v m k' v' m' release x a b c h = omega (arith, b, h)
InRange-mono k v m k' v' m' store_local x a b c h = omega (arith, b, h)
InRange-mono k v m k' v' m' load_local x a b c h = omega (arith, b, h)
InRange-mono k v m k' v' m' jump x a b c h = omega (arith, c, h)
InRange-mono k v m k' v' m' jump_if_false x a b c h = omega (arith, c, h)
InRange-mono k v m k' v' m' jump_if_true x a b c h = omega (arith, c, h)
InRange-mono k v m k' v' m' op x a b c h = tt

abbrev pub Within : ℕ → ℕ → ℕ → List Instruction → Type 0
Within k v m = All λ i. InRange k v m i.op i.operand

pub Within-mono :
    (k v m k' v' m' : ℕ) (is' : List Instruction)
    → k ≤ k'
    → v ≤ v'
    → m ≤ m'
    → Within k v m is'
    → Within k' v' m' is'
Within-mono k v m k' v' m' [] a b c h = tt
Within-mono k v m k' v' m' (i ∷ is') a b c (h, hs) =
    (InRange-mono k v m k' v' m' i.op i.operand a b c h, Within-mono k v m k' v' m' is' a b c hs)

pub Within-snoc :
    (k v m : ℕ) (is' : List Instruction) (op : OpCode) (x : ℕ)
    → Within k v m is'
    → InRange k v m op x
    → Within k v m (is' ++ record { op = op; operand = x } ∷ [])
Within-snoc k v m [] op x h r = (r, tt)
Within-snoc k v m (i ∷ is') op x (h, hs) r = (h, Within-snoc k v m is' op x hs r)

unfoldable pub IsJump : OpCode → Type 0
IsJump jump = Unit
IsJump jump_if_false = Unit
IsJump op = ⊥

-- A jump stands at this place.
abbrev pub JumpAt : List OpCode → ℕ → Type 0
JumpAt [] pos = ⊥
JumpAt (op ∷ ops) zero = IsJump op
JumpAt (op ∷ ops) (suc pos) = JumpAt ops pos

pub JumpAt-append : (xs ys : List OpCode) (pos : ℕ) → JumpAt xs pos → JumpAt (xs ++ ys) pos
JumpAt-append [] ys pos h = absurd h
JumpAt-append (x ∷ xs) ys zero h = h
JumpAt-append (x ∷ xs) ys (suc pos) h = JumpAt-append xs ys pos h

pub JumpAt-last :
    (is' : List Instruction) (op : OpCode) (x : ℕ)
    → IsJump op
    → JumpAt
        (map (λ (i : Instruction). i.op) (is' ++ record { op = op; operand = x } ∷ []))
        (length is')
JumpAt-last [] op x h = h
JumpAt-last (i ∷ is') op x h = JumpAt-last is' op x h

pub length-map_op :
    (is' : List Instruction) → length (map (λ (i : Instruction). i.op) is') ≡ length is'
length-map_op [] = refl
length-map_op (i ∷ is') = ap suc (length-map_op is')

InRange-jump : (k v m : ℕ) (op : OpCode) (x : ℕ) → IsJump op → x ≤ m → InRange k v m op x
unfolding InRange IsJump
InRange-jump k v m jump x h le = le
InRange-jump k v m jump_if_false x h le = le
InRange-jump k v m op x h le = absurd h

pub set_target-Within :
    (k v m : ℕ) (is' : List Instruction) (pos target : ℕ)
    → JumpAt (map (λ i. i.op) is') pos
    → target ≤ m
    → Within k v m is'
    → Within k v m (set_target is' pos target)
unfolding set_target
set_target-Within k v m [] pos target j le h = tt
set_target-Within k v m (i ∷ is') zero target j le (h, hs) =
    (InRange-jump k v m i.op target j le, hs)
set_target-Within k v m (i ∷ is') (suc pos) target j le (h, hs) =
    (h, set_target-Within k v m is' pos target j le hs)

pub map-set_target :
    (is' : List Instruction) (pos target : ℕ)
    → map (λ i. i.op) (set_target is' pos target) ≡ map (λ i. i.op) is'
unfolding set_target
map-set_target [] pos target = refl
map-set_target (i ∷ is') zero target = refl
map-set_target (i ∷ is') (suc pos) target = ap (◌∷◌ i.op) (map-set_target is' pos target)

pub length-set_target :
    (is' : List Instruction) (pos target : ℕ) → length (set_target is' pos target) ≡ length is'
unfolding set_target
length-set_target [] pos target = refl
length-set_target (i ∷ is') zero target = refl
length-set_target (i ∷ is') (suc pos) target = ap suc (length-set_target is' pos target)
