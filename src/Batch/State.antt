-- ===== src/Batch/State.antt =====
-- `_execute_tool_calls` of agent/runtime.py: what a batch of tool calls works on.
use adversarial_agent_runtim.Prelude.{
  ℕ, suc, String, Bool, false, not, ◌||◌, Option, none, some, List, [], ◌∷◌, ◌==◌, any, keep,
}
use adversarial_agent_runtim.Errors.{Error, Result}
use adversarial_agent_runtim.Database.Schema.{Database}
use adversarial_agent_runtim.Response.ToolCalls.{ToolCall}
use adversarial_agent_runtim.Runtime.Keys.{ToolResult}
use adversarial_agent_runtim.Tools.Host.{Host}

-- What the batch itself uses of the machine, beside the tools: `pathlib` on resolved paths, with
-- the bytes of a file as a text. `is_os_error` tells the instances of Python's OSError, and
-- `finish_order` in which order the threads of the pool get done with their calls.
pub record Disk (W : Type 0) : Type 0 where
  pub host : Host W
  pub exists : List String → W → Result Bool
  pub is_file : List String → W → Result Bool
  pub read_bytes : List String → W → Result String
  pub unlink : List String → W → Result (Unit {0}) × W
  pub make_parent : List String → W → Result (Unit {0}) × W
  pub write_bytes : List String → String → W → Result (Unit {0}) × W
  pub is_os_error : Error → Bool
  pub finish_order : List (ℕ × ToolCall) → List (ℕ × ToolCall)

-- An entry of `write_preimages`: the index, the path, and the content unless the file was missing.
abbrev pub Preimage : Type 0
Preimage = ℕ × List String × Option String

-- The variables of `_execute_tool_calls` beside the conversation, and what the calls change.
pub record BatchState (W : Type 0) : Type 0 where
  pub db : Database
  pub machine : W
  pub ordered_results : List (Option ToolResult)
  pub write_preimages : List Preimage
  pub restored_write_indexes : List ℕ

-- `enumerate(values)`, from this index on.
abbrev pub enumerate {ℓ} : {A : Type ℓ} → ℕ → List A → List (ℕ × A)
enumerate i [] = []
enumerate i (x ∷ xs) = (i, x) ∷ enumerate (suc i) xs

-- `_is_side_effect_tool`.
unfoldable pub is_side_effect_tool : ToolCall → Bool
is_side_effect_tool call = call.name == "write_file" || call.name == "send_email"

abbrev pub has_failed : Option ToolResult → Bool
has_failed none = false
has_failed (some r) = not r.ok

-- `_batch_has_failed_result`.
unfoldable pub batch_has_failed_result : List (Option ToolResult) → Bool
batch_has_failed_result results = any has_failed results

-- The calls to execute of one kind, in the order of the batch.
abbrev pub calls_named : String → List (ℕ × ToolCall) → List (ℕ × ToolCall)
calls_named name items = keep (λ item. item.1.name == name) items

abbrev pub pure_calls : List (ℕ × ToolCall) → List (ℕ × ToolCall)
pure_calls items = keep (λ item. not (is_side_effect_tool item.1)) items
