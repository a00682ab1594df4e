-- ===== src/Memory/Persisted/Fields.antt =====
-- fmemory/src/backends/filesystem.rs: how times, statuses, shells and roles are written.
use Prim.Native.Nat.{◌/◌, ◌%◌}
use fiddlesticks.Base.{
  ℕ, ◌+◌, ◌*◌, ◌-◌, String, List, [], ◌∷◌, if◌then◌else◌, ◌==◌, ltb, string_eq, concat,
}
use fiddlesticks.Exec.{Result, ok, err}
use fiddlesticks.Provider.Model.{Role, system, user, assistant, tool}
use fiddlesticks.Memory.Error.{MemoryError, MemoryErrorKind, new}
use fiddlesticks.Memory.Types.{
  InitShell, bash, sh, pwsh, cmd, RunStatus, in_progress, succeeded, failed,
}
use fiddlesticks.Memory.Persisted.{negsuc, pos, as_i64, I64, show}

abbrev pub storage : List String → MemoryError
storage parts = new MemoryErrorKind.storage (concat parts)

abbrev pub one_billion : ℕ
one_billion = 1000000000

-- A time is the nanoseconds since the earliest `SystemTime`, whose seconds are an `i64`: the epoch
-- comes `2 ^ 63` seconds after it.
abbrev pub unix_epoch : ℕ
unix_epoch = 9223372036854775808000000000

-- `duration_since(UNIX_EPOCH)`, with the text of its error.
unfoldable pub encode_system_time : ℕ → Result MemoryError (I64 × I64)
encode_system_time t =
    if ltb t unix_epoch
    then err (
        new MemoryErrorKind.invalid_request
          "timestamp predates unix epoch: second time provided was later than self")
    else let duration = t - unix_epoch in
      ok (as_i64 (duration / one_billion), pos (duration % one_billion))

bad_nanos : I64 → MemoryError
unfolding show
bad_nanos nanos = storage ("timestamp nanos must be in [0, 1_000_000_000), got " ∷ show nanos ∷ [])

-- The check of the nanoseconds, and the time.
decode_nanos : ℕ → I64 → Result MemoryError ℕ
unfolding bad_nanos
decode_nanos seconds (pos nanos) =
    if ltb nanos one_billion
    then ok (unix_epoch + (seconds * one_billion + nanos))
    else err (bad_nanos (pos nanos))
decode_nanos seconds (negsuc n) = err (bad_nanos (negsuc n))

unfoldable pub decode_system_time : I64 → I64 → Result MemoryError ℕ
unfolding decode_nanos show
decode_system_time (pos seconds) nanos = decode_nanos seconds nanos
decode_system_time (negsuc n) nanos =
    err (storage ("timestamp seconds must be non-negative, got " ∷ show (negsuc n) ∷ []))

unfoldable pub run_status_to_string : RunStatus → String
run_status_to_string in_progress = "in_progress"
run_status_to_string succeeded = "succeeded"
run_status_to_string failed = "failed"

unfoldable pub run_status_from_str : String → Result MemoryError RunStatus
run_status_from_str value =
    if value == "in_progress"
    then ok in_progress
    else if value == "succeeded"
    then ok succeeded
    else if value == "failed"
    then ok failed
    else err (storage ("unknown run status value '" ∷ value ∷ "'" ∷ []))

unfoldable pub init_shell_to_string : InitShell → String
init_shell_to_string bash = "bash"
init_shell_to_string sh = "sh"
init_shell_to_string pwsh = "pwsh"
init_shell_to_string cmd = "cmd"

unfoldable pub init_shell_from_str : String → Result MemoryError InitShell
init_shell_from_str value =
    if value == "bash"
    then ok bash
    else if value == "sh"
    then ok sh
    else if value == "pwsh"
    then ok pwsh
    else if value == "cmd"
    then ok cmd
    else err (storage ("unknown init shell value '" ∷ value ∷ "'" ∷ []))

unfoldable pub role_to_string : Role → String
role_to_string system = "system"
role_to_string user = "user"
role_to_string assistant = "assistant"
role_to_string tool = "tool"

unfoldable pub role_from_str : String → Result MemoryError Role
role_from_str value =
    if value == "system"
    then ok system
    else if value == "user"
    then ok user
    else if value == "assistant"
    then ok assistant
    else if value == "tool"
    then ok tool
    else err (storage ("unknown transcript role value '" ∷ value ∷ "'" ∷ []))
