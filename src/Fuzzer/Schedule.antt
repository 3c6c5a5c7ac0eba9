-- ===== src/Fuzzer/Schedule.antt =====
-- fuzzer.cpp, SynchronizeAndGetJob, JobDone, and the part of SaveSample and RestoreState that
-- changes the queue: the whole of what threads do to the shared state under `queue_mutex`.
use jackalope.Prelude.{
  ℕ, ◌+◌, ◌-◌, ◌*◌, ◌/◌, Option, none, some, List, [], ◌∷◌, ◌++◌, Bool, true, false, ◌&&◌, ltb, leb,
  ◌==◌, if◌then◌else◌, length,
}
use jackalope.Prelude.Memory.{Bytes}
use jackalope.Sample.{Sample, Files, Outcome, done, fatal, out_of_bounds}
use jackalope.Fuzzer.Entries.{SampleQueueEntry}

pub data FuzzerState : Type 0 where
  restore_needed : FuzzerState
  input_sample_processing : FuzzerState
  server_sample_processing : FuzzerState
  generating_samples : FuzzerState
  fuzzing : FuzzerState

-- FuzzerJob: its type and the sample or the entry. `discard_sample` is an argument of `job_done`.
pub data FuzzerJob : Type 0 where
  process_sample : Sample → FuzzerJob
  fuzz : ℕ → FuzzerJob
  wait : FuzzerJob

-- The fields of Fuzzer that jobs depend on. `all_samples` holds the samples of `all_entries`.
pub record Fuzzer : Type 0 where
  pub state : FuzzerState
  pub input_files : List Bytes
  pub server_samples : List Sample
  pub all_entries : List SampleQueueEntry
  pub sample_queue : List ℕ
  pub samples_pending : ℕ
  pub num_samples : ℕ
  pub num_samples_discarded : ℕ
  pub last_server_update_time_ms : ℕ
  pub last_save_time : ℕ

pub record Options : Type 0 where
  pub server : Bool
  pub skip_initial_server_sync : Bool
  pub server_update_interval_ms : ℕ
  pub dry_run : Bool
  pub max_size : ℕ

-- What state.dat holds: the counters, the entries with their samples, and whether the sentry that
-- ends it is right.
pub record SavedState : Type 0 where
  pub num_samples : ℕ
  pub num_samples_discarded : ℕ
  pub entries : List SampleQueueEntry
  pub sentry : Bool

-- What the outside world answers during one call: the clock at its three readings, the samples
-- that `server->GetUpdates` appends, the mutator's CanGenerateSample and GenerateSample, the input
-- files, and state.dat, if it can be opened.
pub record World : Type 0 where
  pub time_of_save : ℕ
  pub time_of_check : ℕ
  pub time_of_update : ℕ
  pub updates : List Sample
  pub can_generate_sample : Bool
  pub generated : Sample
  pub files : Files
  pub state_file : Option SavedState

-- FUZZER_SAVE_INERVAL
abbrev pub fuzzer_save_interval : ℕ
fuzzer_save_interval = 5 * 60

-- MIN_SAMPLES_TO_GENERATE
abbrev pub min_samples_to_generate : ℕ
min_samples_to_generate = 10

-- One round of the loop of RestoreState.
abbrev pub restore_entry : SampleQueueEntry → Fuzzer → Fuzzer
restore_entry entry f = record f {
  all_entries = f.all_entries ++ (entry ∷ []);
  sample_queue =
      if entry.discarded then f.sample_queue else f.sample_queue ++ (length f.all_entries ∷ []);
}

unfoldable pub restore_entries : List SampleQueueEntry → Fuzzer → Fuzzer
restore_entries [] f = f
restore_entries (entry ∷ entries) f = restore_entries entries (restore_entry entry f)

-- RestoreState
unfoldable pub restore_state : Option SavedState → Fuzzer → Outcome Fuzzer
unfolding restore_entries
restore_state none f = fatal
restore_state (some saved) f =
    if saved.sentry
    then done (
        restore_entries saved.entries (record f {
          num_samples = saved.num_samples;
          num_samples_discarded = saved.num_samples_discarded;
        }))
    else fatal

abbrev pub restored : Outcome Fuzzer → Outcome Fuzzer
restored (done f) = done (record f { state = input_sample_processing })
restored fatal = fatal
restored out_of_bounds = out_of_bounds

-- SynchronizeAndGetJob up to the first change of state.
unfoldable pub restore_if_needed : World → Fuzzer → Outcome Fuzzer
unfolding restore_state
restore_if_needed w f = elim f.state [
  | restore_needed ↦ restored (restore_state w.state_file f)
  | _ ↦ done f
]

-- The saving of the state, which changes the time of the next one only.
unfoldable pub save_if_due : World → Fuzzer → Fuzzer
save_if_due w f = elim f.state [
  | fuzzing ↦
      if ltb f.last_save_time w.time_of_save
        && ltb fuzzer_save_interval ((w.time_of_save - f.last_save_time) / 1000)
      then record f { last_save_time = w.time_of_save }
      else f
  | _ ↦ f
]

-- The end of a call that has the server's updates.
abbrev pub with_updates : World → Fuzzer → Fuzzer
with_updates w f = record f { server_samples = f.server_samples ++ w.updates }

-- `(state == FUZZING) && server && ...`
unfoldable pub poll_server : Options → World → Fuzzer → Fuzzer
poll_server o w f = elim f.state [
  | fuzzing ↦
      if o.server
        && ltb (f.last_server_update_time_ms + o.server_update_interval_ms) w.time_of_check
      then record (with_updates w f) {
        last_server_update_time_ms = w.time_of_update;
        state = server_sample_processing;
      }
      else f
  | _ ↦ f
]

abbrev pub is_empty {ℓ} : {A : Type ℓ} → List A → Bool
is_empty [] = true
is_empty (x ∷ xs) = false

abbrev pub after_inputs : Options → World → Fuzzer → Fuzzer
after_inputs o w f =
    if o.server
    then record (if o.skip_initial_server_sync then f else with_updates w f) {
      last_server_update_time_ms = w.time_of_update;
      state = server_sample_processing;
    }
    else record f { state = fuzzing }

-- `state == INPUT_SAMPLE_PROCESSING`
unfoldable pub leave_inputs : Options → World → Fuzzer → Fuzzer
leave_inputs o w f = elim f.state [
  | input_sample_processing ↦
      if is_empty f.input_files && f.samples_pending == 0 then after_inputs o w f else f
  | _ ↦ f
]

-- `state == SERVER_SAMPLE_PROCESSING`
unfoldable pub leave_server : Fuzzer → Fuzzer
leave_server f = elim f.state [
  | server_sample_processing ↦
      if is_empty f.server_samples && f.samples_pending == 0
      then record f { state = fuzzing }
      else f
  | _ ↦ f
]

-- `(state == FUZZING) && (num_samples == 0)`
unfoldable pub need_samples : World → Fuzzer → Outcome Fuzzer
need_samples w f = elim f.state [
  | fuzzing ↦
      if f.num_samples == 0
      then (if w.can_generate_sample then done (record f { state = generating_samples }) else fatal)
      else done f
  | _ ↦ done f
]

-- `state == GENERATING_SAMPLES && ...`
unfoldable pub leave_generating : Fuzzer → Fuzzer
leave_generating f = elim f.state [
  | generating_samples ↦
      if leb min_samples_to_generate (length f.sample_queue) && f.samples_pending == 0
      then record f { state = fuzzing }
      else f
  | _ ↦ f
]
