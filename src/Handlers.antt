-- ===== src/Handlers.antt =====
-- The handlers of the Worker for ai-fitting-response: what they share, from
-- app/virtual_fitting/postprocess_worker.py. S3, Runware, the LLM and the tables of products are parameters.
pub mod Texts
pub mod Postprocess
pub mod Fallback
pub mod Counting
pub mod Calls
use Prim.Native.String.{◌++◌}
use ktb4_15th_ai.Prelude.{ℕ, String, Bool, true, false, Option, none, some, List, if◌then◌else◌}
use ktb4_15th_ai.Job.{Uuid, NextAction, Job}
use ktb4_15th_ai.Store.{Db, Op}
use ktb4_15th_ai.JobState.Change.{
  ChangeReason, applied, not_found, terminal, lease_invalid, lease_held, limit_reached,
  already_recorded, state_mismatch,
}
use ktb4_15th_ai.JobState.Fallback.{S3ObjectState}
use ktb4_15th_ai.Process.{Failure, other_error, Env, World, Proc, pure, throw, ◌>>=◌, ask}

-- A call outside that matters: of Pruna for a job and a task, with the tables that are known then; of the
-- synchronous generation; of the LLM; a look at the result's object; a message on ai-fitting-response,
-- and that SQS has taken it; the row that was read of a job.
pub data Event : Type 0 where
  submitted : ℕ → Uuid → Db → Event
  generated : ℕ → Uuid → Db → Event
  asked_llm : ℕ → Event
  looked : ℕ → Event
  queued : ℕ → NextAction → Event
  delivered : ℕ → NextAction → Event
  found : ℕ → Option Job → Event

abbrev pub Run : Type 0 → Type 0
Run A = Proc Event A

-- `HandlerResult`: done, perhaps handed over to another action, or deferred; with its reason.
pub data HandlerResult : Type 0 where
  finished : String → Option NextAction → HandlerResult
  deferred : String → HandlerResult

-- What a part of a handler gives: a value, or the result with which the handler stops.
pub data Part (A : Type 0) : Type 0 where
  gives : A → Part A
  stops : HandlerResult → Part A

-- How a service answers: with a value, with the exception that the caller expects, or with another one.
pub data Answer (A : Type 0) : Type 0 where
  value : A → Answer A
  refuses : Answer A
  crashes : Answer A

-- `ChangeReason.value`.
unfoldable pub reason_value : ChangeReason → String
reason_value applied = "applied"
reason_value not_found = "not_found"
reason_value terminal = "terminal"
reason_value lease_invalid = "lease_invalid"
reason_value lease_held = "lease_held"
reason_value limit_reached = "limit_reached"
reason_value already_recorded = "already_recorded"
reason_value state_mismatch = "state_mismatch"

-- A result that defers for the reason of a change.
unfoldable pub deferred_by : String → ChangeReason → HandlerResult
deferred_by where_ why = deferred (where_ ++ reason_value why)

-- What may be wrong with the inputs of a job or with the money: the code and message of the failure, or an
-- error that defers, with its code; or another exception.
pub data Check : Type 0 where
  fine : Check
  fails_with : String → String → Check
  postponed : String → Check
  broken : Check

-- The exception of the synchronous generation: no money, the error of the model with the status of HTTP that
-- caused it, if one did, or any other.
pub data SyncError : Type 0 where
  no_balance : SyncError
  model_error : Option ℕ → SyncError
  any_error : SyncError

-- The synchronous generation: an image, with its cost if it is known, or an exception.
pub data Generation : Type 0 where
  image : Option ℕ → Generation
  failure : SyncError → Generation

-- `store_runware_result_image`: the key of the stored object, `ResultImageError` with its reason,
-- `ValueError`, or another exception.
pub data StoreAnswer : Type 0 where
  stored_key : String → StoreAnswer
  image_error : String → StoreAnswer
  invalid_input : StoreAnswer
  store_crashes : StoreAnswer

-- The settings, and what the services answer at each moment. `may_continue` extends the lease where it is
-- time to: this is among what happens before the next transaction.
pub record Services : Type 0 where
  pub env : Env
  pub may_continue : ℕ → Bool
  pub summaries : ℕ → Answer (List String)
  pub sign : ℕ → Answer (Unit {0})
  pub generate_comment : ℕ → Answer String
  pub generate_title : ℕ → Answer String
  pub head : ℕ → S3ObjectState
  pub store_result : ℕ → StoreAnswer
  pub offsets : List ℕ
  pub max_wait : ℕ
  pub poll : ℕ
  pub recheck_after : ℕ
  pub inputs : ℕ → Check
  pub money : ℕ → Check
  pub new_task_uuid : ℕ → Uuid
  pub try_on : ℕ → Generation
  pub record_cost : ℕ → Answer (Unit {0})
  pub store_image : ℕ → Answer (Unit {0})

-- An answer, where `refuses` is an error that the code handles with `other`.
abbrev pub answered : {A B : Type 0} → (A → Run B) → Run B → Answer A → Run B
answered f other (value a) = f a
answered f other refuses = other
answered f other crashes = throw other_error

-- The rest of the handler, unless a part has stopped it.
abbrev pub onward : {A B : Type 0} → (A → Run (Part B)) → Part A → Run (Part B)
onward f (gives a) = f a
onward f (stops r) = pure (stops r)

abbrev pub stop_with : {A : Type 0} → HandlerResult → Run (Part A)
stop_with r = pure (stops r)

abbrev pub last_part : Part HandlerResult → Run HandlerResult
last_part (gives r) = pure r
last_part (stops r) = pure r
