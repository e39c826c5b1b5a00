-- ===== src/Vm/Compiler/Grows.antt =====
-- src/core/vm/compiler.c: no instruction points outside the tables of the program.
use mathlib.Core.List.{append_assoc, append-nil}
use asteron.Prelude.{
  ℕ, ◌≤◌, ◌<◌, ◌≡◌, refl, ap, ◌∙◌, sym, some, List, [], ◌∷◌, ◌++◌, map, length, arith,
  length-append, Option-cases, inl, inr,
}
use asteron.Interpreter.Values.{Numbers}
use asteron.Interpreter.Environment.{Text}
use asteron.Vm.Bytecode.{
  OpCode, Constant, Instruction, BytecodeProgram, find_name, find_constant, add_constant,
  add_variable, emit_instruction, count, set_target, patch_target,
}
use asteron.Vm.Compiler.Closed.{
  InRange, Within, Within-mono, Within-snoc, JumpAt, set_target-Within, map-set_target,
  length-set_target, length-map_op,
}

module _ {n : Numbers} where
  abbrev pub ops : BytecodeProgram n → List OpCode
  ops p = map (λ i. i.op) p.instructions

  -- Every instruction of the program points into its tables.
  abbrev pub IsClosed : BytecodeProgram n → Type 0
  IsClosed p =
      Within (length p.constants) (length p.variable_names) (length p.instructions) p.instructions

  -- A step that only adds to the tables keeps the operations, and leaves a closed program closed.
  pub record Grows (p q : BytecodeProgram n) : Type 0 where
    pub constants_le : length p.constants ≤ length q.constants
    pub names_le : length p.variable_names ≤ length q.variable_names
    pub new_ops : List OpCode
    pub same_ops : ops q ≡ ops p ++ new_ops
    pub closed : IsClosed p → IsClosed q

  pub Grows-refl : (p : BytecodeProgram n) → Grows p p
  Grows-refl p = record {
    constants_le = omega arith;
    names_le = omega arith;
    new_ops = [];
    same_ops = sym (append-nil (ops p));
    closed = λ h. h;
  }

  pub Grows-trans : {p q r : BytecodeProgram n} → Grows p q → Grows q r → Grows p r
  Grows-trans {p = p} a b = record {
    constants_le = omega (arith, a.constants_le, b.constants_le);
    names_le = omega (arith, a.names_le, b.names_le);
    new_ops = a.new_ops ++ b.new_ops;
    same_ops =
        b.same_ops
        ∙ ap (λ xs. xs ++ b.new_ops) a.same_ops
        ∙ append_assoc (ops p) a.new_ops b.new_ops;
    closed = λ h. b.closed (a.closed h);
  }

pub Grows-count : {n : Numbers} {p q : BytecodeProgram n} → Grows p q → count p ≤ count q
Grows-count {p = p} {q = q} g = omega (
  arith,
  length-map_op p.instructions,
  length-map_op q.instructions,
  ap length g.same_ops,
  length-append (ops p) g.new_ops,
)

map-snoc :
    (is' : List Instruction) (i : Instruction)
    → map (λ (j : Instruction). j.op) (is' ++ i ∷ []) ≡ map (λ j. j.op) is' ++ i.op ∷ []
map-snoc [] i = refl
map-snoc (j ∷ is') i = ap (◌∷◌ j.op) (map-snoc is' i)

find_name-lt : (xs : List Text) (x : Text) (i : ℕ) → find_name xs x ≡ some i → i < length xs
unfolding find_name
find_name-lt [] x i h = ground arith
find_name-lt (y ∷ ys) x i h = grind (arith, find_name-lt ys x)

module _ {n : Numbers} where
  find_constant-lt :
      (cs : List (Constant n)) (c : Constant n) (i : ℕ)
      → find_constant cs c ≡ some i
      → i < length cs
  unfolding find_constant
  find_constant-lt [] c i h = ground arith
  find_constant-lt (d ∷ ds) c i h = grind (arith, find_constant-lt ds c)

  -- An instruction in range is added.
  pub emit_instruction-Grows :
      (p : BytecodeProgram n) (op : OpCode) (x : ℕ)
      → InRange (length p.constants) (length p.variable_names) (count p) op x
      → Grows p (emit_instruction p op x)
  unfolding emit_instruction
  emit_instruction-Grows p op x h =
      let i : Instruction = record { op = op; operand = x } in
      let longer = length-append p.instructions (i ∷ []) in
      let k = length p.constants in
      let v = length p.variable_names in
      record {
        constants_le = omega arith;
        names_le = omega arith;
        new_ops = op ∷ [];
        same_ops = map-snoc p.instructions i;
        closed = λ w.
            Within-mono k v (count p) k v (length (p.instructions ++ i ∷ [])) _ (omega arith)
              (omega arith) (omega (arith, longer))
              (Within-snoc k v (count p) p.instructions op x w h);
      }

  pub patch_target-Grows :
      (p : BytecodeProgram n) (pos : ℕ) → JumpAt (ops p) pos → Grows p (patch_target p pos)
  unfolding patch_target
  patch_target-Grows p pos j =
      let same = length-set_target p.instructions pos (count p) in
      let k = length p.constants in
      let v = length p.variable_names in
      record {
        constants_le = omega arith;
        names_le = omega arith;
        new_ops = [];
        same_ops = map-set_target p.instructions pos (count p) ∙ sym (append-nil (ops p));
        closed = λ w.
            Within-mono k v (count p) k v (length (set_target p.instructions pos (count p))) _
              (omega arith) (omega arith) (omega (arith, same))
              (set_target-Within k v (count p) p.instructions pos (count p) j (omega arith) w);
      }

  -- More constants or names.
  more_constants-Grows :
      (p : BytecodeProgram n) (c : Constant n)
      → Grows p (record p { constants = p.constants ++ c ∷ [] })
  more_constants-Grows p c =
      let longer = length-append p.constants (c ∷ []) in
      let v = length p.variable_names in
      record {
        constants_le = omega (arith, longer);
        names_le = omega arith;
        new_ops = [];
        same_ops = sym (append-nil (ops p));
        closed = λ w.
            Within-mono (length p.constants) v (count p) (length (p.constants ++ c ∷ [])) v
              (count p) _ (omega (arith, longer)) (omega arith) (omega arith) w;
      }

  more_names-Grows :
      (p : BytecodeProgram n) (x : Text)
      → Grows p (record p { variable_names = p.variable_names ++ x ∷ [] })
  more_names-Grows p x =
      let longer = length-append p.variable_names (x ∷ []) in
      let k = length p.constants in
      record {
        constants_le = omega arith;
        names_le = omega (arith, longer);
        new_ops = [];
        same_ops = sym (append-nil (ops p));
        closed = λ w.
            Within-mono k (length p.variable_names) (count p) k
              (length (p.variable_names ++ x ∷ [])) (count p) _ (omega arith)
              (omega (arith, longer)) (omega arith) w;
      }

  -- The program grows, and the index lies in the table.
  abbrev pub AddsConstant : BytecodeProgram n → BytecodeProgram n × ℕ → Type 0
  AddsConstant p r = Grows p r.0 × (r.1 < length r.0.constants)

  abbrev pub AddsName : BytecodeProgram n → BytecodeProgram n × ℕ → Type 0
  AddsName p r = Grows p r.0 × (r.1 < length r.0.variable_names)

  pub add_constant-AddsConstant :
      (p : BytecodeProgram n) (c : Constant n) → AddsConstant p (add_constant p c)
  unfolding add_constant
  add_constant-AddsConstant p c = elim (Option-cases (find_constant p.constants c)) [
    | inl e ↦
        rw (add_constant, e)
          (more_constants-Grows p c, omega (arith, length-append p.constants (c ∷ [])))
    | inr (i, e) ↦ rw (add_constant, e) (Grows-refl p, find_constant-lt p.constants c i e)
  ]

  pub add_variable-AddsName : (p : BytecodeProgram n) (x : Text) → AddsName p (add_variable p x)
  unfolding add_variable
  add_variable-AddsName p x = elim (Option-cases (find_name p.variable_names x)) [
    | inl e ↦
        rw (add_variable, e)
          (more_names-Grows p x, omega (arith, length-append p.variable_names (x ∷ [])))
    | inr (i, e) ↦ rw (add_variable, e) (Grows-refl p, find_name-lt p.variable_names x i e)
  ]
