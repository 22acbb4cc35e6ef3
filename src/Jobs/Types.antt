-- ===== src/Jobs/Types.antt =====
-- The statuses, keys, events, rows and errors of src/embodirun/application/jobs.py, and the columns
-- of the table of src/embodirun/application/job_store.py.
use embodi_run.Base.{
  ℕ, ◌≡◌, ◌↔◌, Bool, true, false, ◌&&◌, Option, List, String, arith, str_eq, eq_iff,
}
use embodi_run.Base.Classes.{Eq}

pub data JobStatus : Type 0 where
  accepted running completed failed cancel_requested cancelled unknown : JobStatus

pub data DispatchStatus : Type 0 where
  accepted running completed cancel_requested cancelled failed unknown : DispatchStatus

pub data InferenceStatus : Type 0 where
  not_requested not_started running completed cancel_requested cancelled failed unknown :
      InferenceStatus

pub data PhysicalStatus : Type 0 where
  not_requested stop_requested stopped stop_unconfirmed unknown : PhysicalStatus

-- `_TERMINAL`
abbrev pub is_terminal : JobStatus → Bool
is_terminal JobStatus.accepted = false
is_terminal JobStatus.running = false
is_terminal JobStatus.completed = true
is_terminal JobStatus.failed = true
is_terminal JobStatus.cancel_requested = false
is_terminal JobStatus.cancelled = true
is_terminal JobStatus.unknown = true

pub record JobKey : Type 0 where
  pub caller_id : String
  pub session_id : String
  pub request_id : String

abbrev pub key_eq : JobKey → JobKey → Bool
key_eq a b =
    str_eq a.caller_id b.caller_id
    && (str_eq a.session_id b.session_id && str_eq a.request_id b.request_id)

pub key_eq_iff : (a b : JobKey) → (key_eq a b ≡ true) ↔ (a ≡ b)
key_eq_iff a b = ground (
  arith,
  eq_iff a.caller_id b.caller_id,
  eq_iff a.session_id b.session_id,
  eq_iff a.request_id b.request_id,
)

instance abbrev pub job_key_eq : Eq JobKey
job_key_eq = record { beq = key_eq; beq_iff = key_eq_iff }

-- Times are readings of the registry's clock.
pub record JobEvent : Type 0 where
  pub name : String
  pub at_s : ℕ
  pub duration_s : Option ℕ
  pub detail : Option String

-- A row of the table `jobs`, less its key. The parameters and the result are their JSON texts.
pub record Row : Type 0 where
  pub run_id : String
  pub parameters_json : String
  pub status : JobStatus
  pub dispatch_status : DispatchStatus
  pub inference_status : InferenceStatus
  pub physical_status : PhysicalStatus
  pub cancel_requested : Bool
  pub result_json : Option String
  pub error : Option String
  pub events : List JobEvent
  pub events_truncated : Bool
  pub created_at_s : ℕ
  pub updated_at_s : ℕ
  pub started_at_s : Option ℕ
  pub finished_at_s : Option ℕ

pub data JobError : Type 0 where
  job_conflict job_capacity_exceeded job_not_found job_ownership_error job_closed : JobError
  job_timeout job_unknown_error job_cancelled_error job_not_terminal : JobError
  job_execution_error : Option String → JobError
  bad_stage : JobError
