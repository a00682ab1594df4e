-- ===== src/Memory/Persisted/RoundTrip.antt =====
-- What is read back from the records of fmemory/src/backends/filesystem.rs.
use Prim.Native.Nat.{◌/◌, ◌%◌}
use fiddlesticks.Base.{
  ◌+◌, ◌-◌, ◌≤◌, false, ltb, ◌∙◌, ap, false, ltb, ◌≤◌, ℕ, ◌*◌, ◌^◌, ◌<◌, Option, none, some, List,
  [], ◌∷◌, ◌≡◌, refl, ap, sym, arith, All,
}
use fiddlesticks.Exec.{collect_map, Result, ok}
use fiddlesticks.Common.{SessionId}
use fiddlesticks.Provider.Model.{Message, Role, system, user, assistant, tool}
use fiddlesticks.Memory.Types.{
  FeatureRecord, ProgressEntry, InitShell, bash, sh, pwsh, cmd, InitStep, InitPlan, SessionManifest,
  RunStatus, in_progress, succeeded, failed, RunCheckpoint,
}
use fiddlesticks.Memory.Persisted.{
  as_i64, pos, PersistedManifest, PersistedProgressEntry, PersistedRunCheckpoint,
}
use fiddlesticks.Memory.Persisted.Fields.{
  unix_epoch, encode_system_time, decode_system_time, run_status_to_string, run_status_from_str,
  init_shell_to_string, init_shell_from_str, role_to_string, role_from_str, one_billion, unix_epoch,
}
use fiddlesticks.Memory.Persisted.Conversions.{
  transpose_map, from_feature_record, into_feature_record, from_init_step, into_init_step,
  from_init_plan, into_init_plan, from_manifest, into_manifest, from_entry, into_entry,
  from_checkpoint, into_checkpoint, from_message, into_message, encode_completed, decode_completed,
}

-- What `to` writes of a value `from` reads back.
abbrev pub Kept {ℓ} : {E A B : Type ℓ} → (A → Result E B) → (B → Result E A) → A → Type ℓ
Kept {E} {A} {B} to from x = (y : B) × (to x ≡ ok y) × (from y ≡ ok x)

-- A time at the epoch or after it, as long as its seconds since the epoch are an `i64`, as those of a
-- `SystemTime` are.
abbrev pub InRange : ℕ → Type 0
InRange t = (unix_epoch ≤ t) × (t < unix_epoch + 2 ^ 63 * one_billion)

abbrev pub InRange? : Option ℕ → Type 0
InRange? none = Unit
InRange? (some t) = InRange t

collect_map-Kept :
    {E A B : Type 0} (to : A → Result E B) (from : B → Result E A) (xs : List A)
    → All (Kept to from) xs
    → Kept (collect_map to) (collect_map from) xs
unfolding collect_map
collect_map-Kept to from [] h = ([], refl, refl)
collect_map-Kept to from (x ∷ xs) ((y, written, read), h) =
    let (ys, all_written, all_read) = collect_map-Kept to from xs h in
    (y ∷ ys, rw (written, all_written) refl, rw (read, all_read) refl)

decode-back :
    (d : ℕ)
    → d < 2 ^ 63 * one_billion
    → decode_system_time (as_i64 (d / one_billion)) (pos (d % one_billion)) ≡ ok (unix_epoch + d)
unfolding decode_system_time as_i64
decode-back d h = ground arith

time-Kept :
    (t : ℕ) → InRange t → Kept encode_system_time (λ (secs, nanos). decode_system_time secs nanos) t
unfolding encode_system_time
time-Kept t (late, small) = (
  (as_i64 _, pos _),
  rw (not_early t late) refl,
  decode-back (t - unix_epoch) (omega arith) ∙ ap ok (omega arith),
)
  where
    not_early : (t : ℕ) → unix_epoch ≤ t → ltb t unix_epoch ≡ false
    not_early t h = ground arith

completed-Kept :
    (t : Option ℕ)
    → InRange? t
    → Kept encode_completed (λ (secs, nanos). decode_completed secs nanos) t
unfolding encode_completed decode_completed
completed-Kept none h = ((none, none), refl, refl)
completed-Kept (some t) h =
    let (at, written, read) = time-Kept t h in
    ((some at.0, some at.1), rw written refl, rw read refl)

shell_lem : (s : InitShell) → init_shell_from_str (init_shell_to_string s) ≡ ok s
unfolding init_shell_from_str init_shell_to_string
shell_lem bash = refl
shell_lem sh = refl
shell_lem pwsh = refl
shell_lem cmd = refl

status_lem : (s : RunStatus) → run_status_from_str (run_status_to_string s) ≡ ok s
unfolding run_status_from_str run_status_to_string
status_lem in_progress = refl
status_lem succeeded = refl
status_lem failed = refl

role_lem : (r : Role) → role_from_str (role_to_string r) ≡ ok r
unfolding role_from_str role_to_string
role_lem system = refl
role_lem user = refl
role_lem assistant = refl
role_lem tool = refl

pub message_lem : (m : Message) → into_message (from_message m) ≡ ok m
unfolding into_message from_message
message_lem m = rw (role_lem m.role) refl

pub feature_lem : (f : FeatureRecord) → into_feature_record (from_feature_record f) ≡ f
unfolding into_feature_record from_feature_record
feature_lem f = refl

step-Kept : (s : InitStep) → Kept from_init_step into_init_step s
unfolding from_init_step into_init_step
step-Kept (InitStep.command program args) = (_, refl, refl)
step-Kept (InitStep.shell s script) = (_, refl, rw (shell_lem s) refl)

steps-Kept : (steps : List InitStep) → All (Kept from_init_step into_init_step) steps
steps-Kept [] = tt
steps-Kept (s ∷ steps) = (step-Kept s, steps-Kept steps)

plan-Kept : (p : InitPlan) → Kept from_init_plan into_init_plan p
unfolding from_init_plan into_init_plan
plan-Kept p =
    let (steps, written, read) =
      collect_map-Kept from_init_step into_init_step p.steps (steps-Kept p.steps) in
    (record { steps = steps }, rw written refl, rw read refl)

plans-Kept :
    (p : Option InitPlan) → Kept (transpose_map from_init_plan) (transpose_map into_init_plan) p
plans-Kept none = (none, refl, refl)
plans-Kept (some p) =
    let (q, written, read) = plan-Kept p in (some q, rw written refl, rw read refl)

-- A manifest of its own session.
pub manifest-Kept :
    (id : SessionId) (m : SessionManifest)
    → m.session_id ≡ id
    → Kept from_manifest (into_manifest id) m
unfolding from_manifest into_manifest
manifest-Kept id m same =
    let (plan, written, read) = plans-Kept m.init_plan in
    let kept : PersistedManifest = record {
      schema_version = m.schema_version;
      harness_version = m.harness_version;
      active_branch = m.active_branch;
      current_objective = m.current_objective;
      last_known_good_commit = m.last_known_good_commit;
      init_plan = plan;
      metadata = m.metadata;
    } in
    (kept, rw written refl, rw read (ap (λ i. ok (record m { session_id = i })) (sym same)))

pub entry-Kept : (e : ProgressEntry) → InRange e.created_at → Kept from_entry into_entry e
unfolding from_entry into_entry
entry-Kept e h =
    let (at, written, read) = time-Kept e.created_at h in
    let kept : PersistedProgressEntry = record {
      run_id = e.run_id;
      summary = e.summary;
      created_at_secs = at.0;
      created_at_nanos = at.1;
    } in
    (kept, rw written refl, rw read refl)

pub checkpoint-Kept :
    (c : RunCheckpoint)
    → InRange c.started_at
    → InRange? c.completed_at
    → Kept from_checkpoint into_checkpoint c
unfolding from_checkpoint into_checkpoint
checkpoint-Kept c h k =
    let (start, written, read) = time-Kept c.started_at h in
    let (done, done_written, done_read) = completed-Kept c.completed_at k in
    let kept : PersistedRunCheckpoint = record {
      run_id = c.run_id;
      started_at_secs = start.0;
      started_at_nanos = start.1;
      completed_at_secs = done.0;
      completed_at_nanos = done.1;
      status = run_status_to_string c.status;
      note = c.note;
    } in
    (kept, rw (written, done_written) refl, rw (done_read, read, status_lem c.status) refl)
