-- ===== src/Vm/Machine.antt =====
-- src/core/vm/vm.h and vm.c: the machine, and the instructions that do not call a function. Each is
-- executed as `vm_execute` does, without an observer of types.
use asteron.Prelude.{
  ℕ, zero, suc, ◌+◌, Bool, true, false, Option, none, some, List, [], ◌∷◌, ◌++◌, if◌then◌else◌, leb,
  length,
}
use asteron.Outcome.{Run, done}
use asteron.Interpreter.Values.{Numbers, Value, nil}
use asteron.Interpreter.Stack.{stack_push, stack_pop}
use asteron.Interpreter.Environment.{Environment, environment_create}
use asteron.Interpreter.Functions.{FunctionTable}
use asteron.Interpreter.Evaluate.{Interpreter}
use asteron.Vm.Bytecode.{OpCode, Instruction, BytecodeProgram}

pub record TraceStep : Type 0 where
  pub op : OpCode
  pub operand : ℕ

pub record TraceRecorder : Type 0 where
  pub steps : List TraceStep
  pub start_pc : ℕ
  pub is_recording : Bool

abbrev pub max_trace_length : ℕ
max_trace_length = 128

abbrev pub jit_hot_threshold : ℕ
jit_hot_threshold = 5

-- The machine, with the global recorder of traces, and the interpreter's global variables and output.
pub record Vm (n : Numbers) : Type 0 where
  pub stack : List (Value n)
  pub env : Environment n
  pub locals : List (Value n)
  pub function_table : FunctionTable
  pub program : BytecodeProgram n
  pub pc : ℕ
  pub is_running : Bool
  pub heat_map : List ℕ
  pub recorder : TraceRecorder
  pub interpreter : Interpreter n

-- What `vm_step` returns: 0, 1 or -1.
pub data StepCode : Type 0 where
  went_on failed halted : StepCode

abbrev copies {ℓ} : {A : Type ℓ} → ℕ → A → List A
copies zero x = []
copies (suc k) x = x ∷ copies k x

unfoldable pub trace_start_record : ℕ → TraceRecorder
trace_start_record pc = record { steps = []; start_pc = pc; is_recording = true }

unfoldable pub trace_record_step : TraceRecorder → Instruction → TraceRecorder
trace_record_step r i =
    let longer = record r { steps = r.steps ++ record { op = i.op; operand = i.operand } ∷ [] } in
    if r.is_recording
    then (if leb max_trace_length (length r.steps)
        then record r { is_recording = false }
        else longer)
    else r

module _ (n : Numbers) where
  abbrev pub Stepping : Type 0
  Stepping = Run (Vm n) StepCode

module _ {n : Numbers} where
  -- The recorder and the interpreter's variables are global and stay as they are.
  unfoldable pub vm_create : BytecodeProgram n → TraceRecorder → Interpreter n → Vm n
  unfolding environment_create
  vm_create program recorder interpreter = record {
    stack = [];
    env = environment_create [];
    locals = copies 32 nil;
    function_table = [];
    program = program;
    pc = 0;
    is_running = true;
    heat_map = copies 1024 0;
    recorder = recorder;
    interpreter = interpreter;
  }

  unfoldable pub push : Value n → Vm n → Vm n
  unfolding stack_push
  push v vm = record vm { stack = stack_push vm.stack v }

  unfoldable pub pop : Vm n → Vm n × Value n
  unfolding stack_pop
  pop vm = let (stack, v) = stack_pop vm.stack in (record vm { stack = stack }, v)

  -- The right value lies above the left one.
  unfoldable pub pop_two : Vm n → Vm n × (Value n × Value n)
  unfolding pop
  pop_two vm = let (vm1, r) = pop vm in let (vm2, l) = pop vm1 in (vm2, (l, r))

  abbrev pub next : Stepping n
  next vm = done went_on (record vm { pc = vm.pc + 1 })

  -- A result is pushed; without one the step fails.
  unfoldable pub push_result : Option (Value n) → Stepping n
  unfolding push
  push_result none vm = done failed vm
  push_result (some v) vm = next (push v vm)

  unfoldable pub binary_step : (Value n → Value n → Option (Value n)) → Stepping n
  unfolding pop_two push_result
  binary_step f vm = let (vm1, (l, r)) = pop_two vm in push_result (f l r) vm1

  unfoldable pub unary_step : (Value n → Option (Value n)) → Stepping n
  unfolding pop push_result
  unary_step f vm = let (vm1, v) = pop vm in push_result (f v) vm1
