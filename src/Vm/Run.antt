-- ===== src/Vm/Run.antt =====
-- src/core/vm/vm.c: `vm_step` and the loops that run it. No trace of the recorder is compiled, so that
-- the loops never run one. The fuel is that of the interpreter, and the rounds of the loop.
use asteron.Prelude.{
  ℕ, zero, suc, Bool, true, none, some, List, ◌&&◌, if◌then◌else◌, ltb, get_elem?,
}
use asteron.Outcome.{Run, done, out_of_fuel, ◌>>=◌}
use asteron.Interpreter.Values.{Numbers, Value}
use asteron.Interpreter.Functions.{NativeFuncEntry}
use asteron.Vm.Bytecode.{count}
use asteron.Vm.Machine.{Vm, Stepping, went_on, failed, halted, trace_record_step}
use asteron.Vm.Steps.{op_step}
use asteron.Vm.Calls.{call_step}

-- What `vm_execute` returns: 0 or 1.
pub data ExitCode : Type 0 where
  success failure : ExitCode

-- The part of the machine that a snapshot keeps.
pub record VmSnapshot (n : Numbers) : Type 0 where
  pub pc : ℕ
  pub locals : List (Value n)
  pub is_valid : Bool

module _ {n : Numbers} (natives : List (NativeFuncEntry n)) where
  -- Behind the last instruction a step does nothing.
  unfoldable pub vm_step : ℕ → Stepping n
  unfolding trace_record_step op_step call_step
  vm_step f vm = elim (get_elem? vm.program.instructions vm.pc) [
    | none ↦ done went_on vm
    | some i ↦
        op_step (call_step natives f) i.op i.operand
          (record vm { recorder = trace_record_step vm.recorder i })
  ]

  -- The loop, while the machine runs and the counter is below the end.
  unfoldable pub run_loop : ℕ → ℕ → ℕ → Run (Vm n) ExitCode
  unfolding vm_step
  run_loop zero f end vm = out_of_fuel
  run_loop (suc k) f end vm =
      let again : Run (Vm n) ExitCode = run_loop k f end in
      let round : Run (Vm n) ExitCode = vm_step f >>= λ code m. elim code [
        | went_on ↦ again m
        | failed ↦ done failure m
        | halted ↦ done success m
      ] in
      if vm.is_running && (ltb vm.pc end && ltb vm.pc (count vm.program))
      then round vm
      else done success vm

  unfoldable pub vm_execute : ℕ → ℕ → Run (Vm n) ExitCode
  unfolding run_loop
  vm_execute k f vm = run_loop k f (count vm.program) vm

  unfoldable pub vm_execute_range : ℕ → ℕ → ℕ → ℕ → Run (Vm n) ExitCode
  unfolding run_loop
  vm_execute_range k f start end vm = run_loop k f end (record vm { pc = start; is_running = true })

module _ {n : Numbers} where
  unfoldable pub vm_take_snapshot : Vm n → VmSnapshot n
  vm_take_snapshot vm = record { pc = vm.pc; locals = vm.locals; is_valid = true }

  -- The scopes and the stack stay as they are.
  unfoldable pub vm_restore_snapshot : Vm n → VmSnapshot n → Vm n
  vm_restore_snapshot vm snap =
      if snap.is_valid then record vm { pc = snap.pc; locals = snap.locals } else vm
