-- ===== src/Batch/Preimages.antt =====
-- `_capture_write_preimage` and `_rollback_writes` of agent/runtime.py.
use adversarial_agent_runtim.Prelude.{
  ℕ, String, Bool, true, false, Option, none, some, List, ◌∷◌, reverse, get_elem?, set,
  if◌then◌else◌,
}
use adversarial_agent_runtim.Json.{Json, str, get_field}
use adversarial_agent_runtim.Errors.{Result, ok, raised, ◌>>=◌}
use adversarial_agent_runtim.Stateful.{Outcome, for_each}
use adversarial_agent_runtim.Response.ToolCalls.{ToolCall}
use adversarial_agent_runtim.Runtime.Keys.{ToolResult}
use adversarial_agent_runtim.Tools.Host.{is_relative_to}
use adversarial_agent_runtim.Batch.State.{Disk, Preimage, BatchState}

module _ {W : Type 0} (disk : Disk W) where
  -- The state of a path in the workspace: nothing is captured where it is no file.
  unfoldable pub capture_target : List String → W → Result (Option (List String × Option String))
  capture_target target w = disk.exists target w >>= (λ there.
      if there
      then disk.is_file target w >>= (λ file.
        if file
        then disk.read_bytes target w >>= (λ content. ok (some (target, some content)))
        else ok none)
      else ok (some (target, none)))

  capture_path : Option Json → W → Result (Option (List String × Option String))
  capture_path (some (str path)) w = disk.host.resolve path w >>= (λ target.
      if is_relative_to target disk.host.root then capture_target target w else ok none)
  capture_path other w = ok none

  -- `_capture_write_preimage`.
  unfoldable pub capture_write_preimage :
      ToolCall → W → Result (Option (List String × Option String))
  unfolding capture_path
  capture_write_preimage call w = capture_path (get_field "path" call.arguments) w

  -- `path.exists() and path.is_file()`.
  there_as_file : List String → W → Result Bool
  there_as_file path w =
      disk.exists path w >>= (λ there. if there then disk.is_file path w else ok false)

  -- The body of the `try` statement of `_rollback_writes`.
  unfoldable pub restore : List String → Option String → W → Outcome (Unit {0}) W
  unfolding there_as_file
  restore path none w = elim (there_as_file path w) [
    | ok true ↦ disk.unlink path w
    | ok false ↦ (ok tt, w)
    | raised e ↦ (raised e, w)
  ]
  restore path (some content) w =
      let (made, w') = disk.make_parent path w in
      elim made [ ok _ ↦ disk.write_bytes path content w' | raised e ↦ (raised e, w') ]

  abbrev pub rollback_failure : ToolResult → ToolResult
  rollback_failure r = record r {
    ok = false;
    error = some "ToolRollbackError: failed to restore previous file content";
  }

  -- `ordered_results[index]` is replaced, unless it is None.
  abbrev pub fail_result : ℕ → List (Option ToolResult) → List (Option ToolResult)
  fail_result index results = elim (get_elem? results index) [
    | some (some r) ↦ set results index (some (rollback_failure r))
    | _ ↦ results
  ]

  -- One round of the loop of `_rollback_writes`.
  unfoldable pub rollback_write : Preimage → BatchState W → Outcome (Unit {0}) (BatchState W)
  rollback_write (index, path, content) s =
      let (r, w) = restore path content s.machine in
      elim r [
        | ok _ ↦ (
          ok tt,
          record s { machine = w; restored_write_indexes = index ∷ s.restored_write_indexes },
        )
        | raised e ↦
            if disk.is_os_error e
            then (
              ok tt,
              record s { machine = w; ordered_results = fail_result index s.ordered_results },
            )
            else (raised e, record s { machine = w })
      ]

  -- `_rollback_writes`, with the indices added to `restored_write_indexes`.
  unfoldable pub rollback_writes : BatchState W → Outcome (Unit {0}) (BatchState W)
  rollback_writes s = for_each rollback_write (reverse s.write_preimages) s
