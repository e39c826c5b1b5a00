-- ===== src/Vm/Reaches.antt =====
-- src/core/vm/vm.c: runs of `vm_step`, and one step at a given instruction.
use asteron.Prelude.{
  ℕ, ◌+◌, ◌≡◌, refl, ap, ◌∙◌, subst, false, some, List, [], ◌∷◌, ◌++◌, length, arith, get_elem?,
  length-append,
}
use asteron.Outcome.{done}
use asteron.Interpreter.Values.{Numbers, Value}
use asteron.Interpreter.Functions.{NativeFuncEntry}
use asteron.Vm.Bytecode.{OpCode, Instruction, emit_instruction, count}
use asteron.Vm.Machine.{Vm, TraceRecorder, went_on, trace_record_step}
use asteron.Vm.Steps.{op_step}
use asteron.Vm.Calls.{call_step}
use asteron.Vm.Run.{vm_step}
use asteron.Vm.Compiler.{Compiler, emit}
use asteron.Vm.Compiler.Extends.{Extends, get_elem?-Prefix, get_elem?-last}

-- Steps that go on lead from one state of the machine to another.
pub data Reaches {n : Numbers} (natives : List (NativeFuncEntry n)) (f : ℕ)
    : Vm n → Vm n → Type 0 where
  here : (vm : Vm n) → Reaches natives f vm vm
  step :
      (vm w u : Vm n)
      → vm_step natives f vm ≡ done went_on w
      → Reaches natives f w u
      → Reaches natives f vm u

pub Reaches-trans :
    {n : Numbers} {natives : List (NativeFuncEntry n)} {f : ℕ} {vm w u : Vm n}
    → Reaches natives f vm w
    → Reaches natives f w u
    → Reaches natives f vm u
Reaches-trans (here vm) r = r
Reaches-trans (step vm w u e q) r = step vm w _ e (Reaches-trans q r)

idle : (r : TraceRecorder) (i : Instruction) → r.is_recording ≡ false → trace_record_step r i ≡ r
unfolding trace_record_step
idle r i h = rw h refl

module _ {n : Numbers} where
  -- The machine at an instruction, with a stack.
  abbrev pub at : Vm n → ℕ → List (Value n) → Vm n
  at vm pc stack = record vm { pc = pc; stack = stack }

  module _ (natives : List (NativeFuncEntry n)) (f : ℕ) where
    step_at :
        (vm w : Vm n) (i : Instruction)
        → vm.recorder.is_recording ≡ false
        → get_elem? vm.program.instructions vm.pc ≡ some i
        → op_step (call_step natives f) i.op i.operand vm ≡ done went_on w
        → vm_step natives f vm ≡ done went_on w
    unfolding vm_step
    step_at vm w i idle_recorder h e =
        rw (vm_step, h)
          (ap (λ r. op_step (call_step natives f) i.op i.operand (record vm { recorder = r }))
              (idle vm.recorder i idle_recorder)
            ∙ e)

    -- The instruction that was emitted last is executed.
    pub emit-Reaches :
        (d : Compiler n) (op : OpCode) (x : ℕ) (vm : Vm n) (st st' : List (Value n))
        → Extends (emit op x d).program vm.program
        → vm.recorder.is_recording ≡ false
        → op_step (call_step natives f) op x (at vm (count d.program) st)
          ≡ done went_on (at vm (count d.program + 1) st')
        → Reaches natives f (at vm (count d.program) st) (at vm (count (emit op x d).program) st')
    unfolding emit emit_instruction
    emit-Reaches d op x vm st st' ext idle_recorder e =
        let i : Instruction = record { op = op; operand = x } in
        let is' = d.program.instructions in
        let placed =
          get_elem?-Prefix (is' ++ i ∷ []) vm.program.instructions (length is') i ext.code
            (get_elem?-last is' i) in
        let next_pc : length is' + 1 ≡ length (is' ++ i ∷ []) =
          omega (arith, length-append is' (i ∷ [])) in
        subst (λ pc. Reaches natives f (at vm (length is') st) (at vm pc st')) next_pc
          (step _ _ _
            (step_at (at vm (length is') st) (at vm (length is' + 1) st') i idle_recorder placed e)
            (here _))
