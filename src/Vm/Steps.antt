-- ===== src/Vm/Steps.antt =====
-- src/core/vm/vm.c: the cases of `vm_step`, but for the call of a function.
use asteron.Prelude.{
  ℕ, ◌+◌, Bool, true, false, Option, none, some, [], ◌∷◌, ◌++◌, ◌==◌, ◌&&◌, ◌||◌, not,
  if◌then◌else◌, ltb, length, get_elem?, get_or, set,
}
use asteron.Outcome.{done}
use asteron.Interpreter.Values.{Numbers, Value, bool, nil, is_true, value_print}
use asteron.Interpreter.Stack.{stack_peek}
use asteron.Interpreter.Environment.{environment_get, environment_set, environment_remove}
use asteron.Vm.Bytecode.{OpCode}
use asteron.Vm.Machine.{
  TraceRecorder, trace_start_record, Stepping, went_on, failed, halted, pop, next, push_result,
  binary_step, unary_step, jit_hot_threshold,
}
use asteron.Vm.Operations.{
  constant_value, add_values, sub_values, mul_values, div_values, equal_operands, ordered,
  neg_value,
}

-- A loop that is hot is recorded; back at its start the record is closed.
unfoldable pub heated : ℕ → TraceRecorder → ℕ → TraceRecorder
unfolding trace_start_record
heated heat r target =
    if (heat == jit_hot_threshold) && not r.is_recording
    then trace_start_record target
    else if r.is_recording && (target == r.start_pc)
    then record r { is_recording = false }
    else r

module _ {n : Numbers} where
  open n use {less, at_most}

  unfoldable pub load_const_step : ℕ → Stepping n
  unfolding push_result constant_value
  load_const_step i vm = elim (get_elem? vm.program.constants i) [
    | none ↦ done failed vm
    | some c ↦ push_result (some (constant_value c)) vm
  ]

  unfoldable pub load_var_step : ℕ → Stepping n
  unfolding push_result
  load_var_step i vm = elim (get_elem? vm.program.variable_names i) [
    | none ↦ done failed vm
    | some name ↦ push_result (some (environment_get vm.env name)) vm
  ]

  -- There are 32 registers.
  unfoldable pub load_local_step : ℕ → Stepping n
  unfolding push_result
  load_local_step i vm =
      if ltb i 32 then push_result (some (get_or vm.locals i nil)) vm else done failed vm

  unfoldable pub store_var_step : ℕ → Stepping n
  unfolding pop
  store_var_step i vm = elim (get_elem? vm.program.variable_names i) [
    | none ↦ done failed vm
    | some name ↦
        let (vm1, v) = pop vm in next (record vm1 { env = environment_set vm1.env name v })
  ]

  unfoldable pub store_local_step : ℕ → Stepping n
  unfolding pop
  store_local_step i vm =
      let (vm1, v) = pop vm in
      if ltb i 32 then next (record vm1 { locals = set vm1.locals i v }) else done failed vm

  unfoldable pub add_step : Stepping n
  unfolding binary_step add_values
  add_step vm = if ltb (length vm.stack) 2 then done failed vm else binary_step add_values vm

  -- What `==` and `!=` push.
  unfoldable pub equality : Bool → Value n → Value n → Option (Value n)
  unfolding equal_operands
  equality negated l r =
      let equal = equal_operands l r in some (bool (if negated then not equal else equal))

  unfoldable pub print_step : Stepping n
  unfolding stack_peek
  print_step vm =
      let line = value_print (stack_peek vm.stack 0) ++ 10 ∷ [] in
      next (record vm {
        interpreter = record vm.interpreter { output = vm.interpreter.output ++ line ∷ [] };
      })

  unfoldable pub pop_step : Stepping n
  unfolding pop
  pop_step vm = next (pop vm).0

  -- The name leaves the scopes; a register keeps its value.
  unfoldable pub release_step : ℕ → Stepping n
  release_step i vm = elim (get_elem? vm.program.variable_names i) [
    | none ↦ done failed vm
    | some name ↦ next (record vm { env = environment_remove vm.env name })
  ]

  unfoldable pub jump_step : ℕ → Stepping n
  unfolding heated
  jump_step target vm =
      let heat = get_or vm.heat_map target 0 + 1 in
      let warmer = record vm {
        heat_map = set vm.heat_map target heat;
        recorder = heated heat vm.recorder target;
      } in
      let vm1 = if ltb target vm.pc && ltb target 1024 then warmer else vm in
      done went_on (record vm1 { pc = target })

  unfoldable pub jump_if_false_step : ℕ → Stepping n
  unfolding pop is_true
  jump_if_false_step target vm =
      let (vm1, c) = pop vm in
      if is_true c then next vm1 else done went_on (record vm1 { pc = target })

  unfoldable pub halt_step : Stepping n
  halt_step vm = done halted (record vm { is_running = false })

  -- The switch, where `call` is what a call of a function does.
  unfoldable pub op_step : (ℕ → Stepping n) → OpCode → ℕ → Stepping n
  op_step call OpCode.load_const i = load_const_step i
  op_step call OpCode.load_var i = load_var_step i
  op_step call OpCode.load_local i = load_local_step i
  op_step call OpCode.store_var i = store_var_step i
  op_step call OpCode.store_local i = store_local_step i
  op_step call OpCode.add i = add_step
  op_step call OpCode.sub i = binary_step sub_values
  op_step call OpCode.mul i = binary_step mul_values
  op_step call OpCode.div i = binary_step div_values
  op_step call OpCode.eq i = binary_step (equality false)
  op_step call OpCode.ne i = binary_step (equality true)
  op_step call OpCode.gt i = binary_step (ordered λ a b. less b a)
  op_step call OpCode.lt i = binary_step (ordered less)
  op_step call OpCode.gte i = binary_step (ordered λ a b. at_most b a)
  op_step call OpCode.lte i = binary_step (ordered at_most)
  op_step call OpCode.and i = binary_step λ l r. some (bool (is_true l && is_true r))
  op_step call OpCode.or i = binary_step λ l r. some (bool (is_true l || is_true r))
  op_step call OpCode.not i = unary_step λ v. some (bool (not (is_true v)))
  op_step call OpCode.neg i = unary_step neg_value
  op_step call OpCode.print i = print_step
  op_step call OpCode.pop i = pop_step
  op_step call OpCode.release i = release_step i
  op_step call OpCode.jump i = jump_step i
  op_step call OpCode.jump_if_false i = jump_if_false_step i
  op_step call OpCode.call i = call i
  op_step call OpCode.return i = next
  op_step call OpCode.halt i = halt_step
  op_step call OpCode.jump_if_true i = next
