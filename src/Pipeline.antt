-- ===== src/Pipeline.antt =====
-- The pipeline stages of lizard/util/rtl/pipeline_stage.py with the register that holds a stage's
-- message, the check that drops messages of lizard/core/rtl/kill_unit.py, and the unit of
-- lizard/util/rtl/drop_unit.py that drops the next message.
pub mod Register
pub mod Kill
pub mod Fifo
pub mod Chain
pub mod Drop
mod Tests
use lizard.Prelude.{ℕ, ◌==◌, Bool, true, false, not, ◌&&◌, ◌||◌}
use lizard.Prelude.{if◌then◌else◌, Option, none, some, List, [], ◌∷◌}
use lizard.Pymtl.{Pymtl}

-- What a drop controller says of a message: `keep` and `out`.
pub record Check (Out : Type 0) : Type 0 where
  pub keep : Bool
  pub out : Out

-- `NullDropController`
unfoldable pub null_check : {A : Type 0} → A → Check A
null_check in_ = record { keep = true; out = in_ }

-- `ValidValueManager`: `val_reg` and `out_reg`. The types of what is added and of what is shown are
-- one, as `out_reg` takes both. `check` is the required method, with `kill_notify_msg` in it.
pub record VvmState (A : Type 0) : Type 0 where
  pub val : Bool
  pub out : A

module _ {A : Type 0} (check : A → Check A) where
  -- `handle_rdy`
  unfoldable pub output_rdy : VvmState A → Bool
  output_rdy s = if s.val then (check s.out).keep else false

  unfoldable pub dropping_out : VvmState A → Bool
  dropping_out s = if s.val then not (check s.out).keep else false

  unfoldable pub peek_msg : VvmState A → A
  peek_msg s = (check s.out).out

  -- `handle_clear`
  unfoldable pub output_clear : VvmState A → Bool → Bool
  unfolding output_rdy
  output_clear s take_call = not (output_rdy s) || take_call

  -- A clock edge without reset, with the argument of `add` if it is called.
  unfoldable pub vvm_step : VvmState A → Bool → Option A → VvmState A
  unfolding output_clear
  vvm_step s take_call none = record {
    val = not (output_clear s take_call);
    out = (check s.out).out;
  }
  vvm_step s take_call (some msg) = record { val = true; out = msg }

-- `PipelineStage`: the message that the stage before shows, if it is ready; the required method
-- `process`, with `accepted`; and whether the stage after takes.
module _ {In A : Type 0} (check : A → Check A) (process : In → Bool × A) where
  -- `process_out` if the stage takes its input: `handle_advance` and `handle_taking`
  unfoldable pub taking : VvmState A → Option In → Bool → Option A
  unfolding output_clear
  taking s none take_call = none
  taking s (some in_) take_call =
      let (accepted, out) = process in_ in
      if output_clear check s take_call && accepted then some out else none

  unfoldable pub stage_step : VvmState A → Option In → Bool → VvmState A
  unfolding taking vvm_step
  stage_step s in_ take_call = vvm_step check s take_call (taking s in_ take_call)

-- `KillType`
pub record KillMsg : Type 0 where
  pub force : Bool
  pub kill_mask : ℕ
  pub clear_mask : ℕ

-- `KillDropController`, on a branch mask of `nbits` bits
unfoldable pub kill_check : ⦃p : Pymtl⦄ → ℕ → KillMsg → ℕ → Check ℕ
kill_check ⦃p⦄ nbits msg in_ =
    let kill_match = p.band in_ msg.kill_mask in
    record {
      keep = not (not (kill_match == 0) || msg.force);
      out = p.band in_ (p.inv nbits msg.clear_mask);
    }

-- A message with its branch mask, `hdr_branch_mask`
pub record Message (A : Type 0) : Type 0 where
  pub branch_mask : ℕ
  pub body : A

-- `PipelineKillDropController`
unfoldable pub pipeline_check :
    ⦃p : Pymtl⦄ → {A : Type 0} → ℕ → KillMsg → Message A → Check (Message A)
unfolding kill_check
pipeline_check nbits msg in_ =
    let checked = kill_check nbits msg in_.branch_mask in
    record { keep = checked.keep; out = record in_ { branch_mask = checked.out } }

-- `DropUnit`: the calls of a cycle, with what the input shows if it is ready
pub record DropCalls (A : Type 0) : Type 0 where
  pub input : Option A
  pub drop_call : Bool
  pub output_call : Bool

-- The wires of `handle_drop`, and the next value of `drop_pending`
pub record DropWires : Type 0 where
  pub occurred : Bool
  pub drop_rdy : Bool
  pub input_call : Bool
  pub output_rdy : Bool
  pub pending_next : Bool

unfoldable pub handle_drop : {A : Type 0} → Bool → DropCalls A → DropWires
handle_drop drop_pending c =
    let drop_pending_curr = drop_pending || c.drop_call in
    let input_rdy : Bool = elim c.input [ some m ↦ true | none ↦ false ] in
    let drop_status_occurred = drop_pending_curr && input_rdy in
    let drop_rdy = not drop_pending in
    if drop_status_occurred
    then record {
      occurred = true;
      drop_rdy = drop_rdy;
      input_call = true;
      output_rdy = false;
      pending_next = false;
    }
    else if drop_pending_curr
    then record {
      occurred = false;
      drop_rdy = drop_rdy;
      input_call = false;
      output_rdy = false;
      pending_next = true;
    }
    else record {
      occurred = false;
      drop_rdy = drop_rdy;
      input_call = c.output_call;
      output_rdy = input_rdy;
      pending_next = false;
    }
