-- ===== src/Handlers/Calls.antt =====
-- The calls of the LLM: both handlers together make at most as many for a job as are counted.
pub mod Texts
pub mod Images
pub mod Generations
pub mod Totals
use ktb4_15th_ai.Prelude.{
  ℕ, zero, suc, ◌≡◌, refl, String, Bool, true, false, not, Option, none, some, List, [], ◌∷◌, arith,
  ◌==◌, Bool-cases, inl, inr, if◌then◌else◌,
}
use ktb4_15th_ai.Payload.{completed, pos, to_fields}
use ktb4_15th_ai.Job.{Job}
use ktb4_15th_ai.Store.{Db, Clock, Op}
use ktb4_15th_ai.JobState.Change.{StateChange, llm_generation_limit}
use ktb4_15th_ai.JobState.Lease.{holds_lease}
use ktb4_15th_ai.JobState.Postprocess.{claim_llm_generation_attempt, count_llm_call, has_image}
use ktb4_15th_ai.JobState.Publication.{save_final_result}
use ktb4_15th_ai.JobTable.{find_by_fitting_job_id}
use ktb4_15th_ai.Rules.Methods.{claim_llm_generation_attempt-Lawful, save_final_result-Lawful}
use ktb4_15th_ai.Rules.Rows.{Lawful, Advances-refl}
use ktb4_15th_ai.History.{told}
use ktb4_15th_ai.History.Claims.{counted, Counts, claim-Counts}
use ktb4_15th_ai.Process
use ktb4_15th_ai.Process.{
  Env, fitting_error, other_error, pure, throw, ◌>>=◌, ◌>>◌, emit, ask, call,
}
use ktb4_15th_ai.Process.Keeps.{
  keeps_rules, Keeps, Keeps-pure, Keeps-throw, Keeps-both, Keeps-bind, Keeps-need,
}
use ktb4_15th_ai.Handlers.{
  Event, asked_llm, submitted, generated, looked, queued, Run, Part, gives, stops, Answer, value,
  refuses, crashes, answered, onward, stop_with, Services,
}
use ktb4_15th_ai.Handlers.Counting.{
  Meter, Paid, Costs, Costs-Keeps, Keeps-Costs, Costs-bind, emit-Costs, emit-Keeps, ask-Keeps,
  call-Keeps, sleep-Keeps, claim-Costs,
}
use ktb4_15th_ai.Handlers.Texts.{
  gate, gate_job, comment_answer, title_answer, titled, commented, with_summaries, claim_call,
  comment_attempts, title_attempts, title_and_comment, save_completed, strip,
}

-- Reads change nothing.
pub find_by_fitting_job_id-Lawful : (id : ℕ) → Lawful (find_by_fitting_job_id id)
unfolding find_by_fitting_job_id
find_by_fitting_job_id-Lawful id = record { at = λ c db v. ground (arith, Advances-refl db.jobs v) }

pub holds_lease-Lawful : (id : ℕ) (token : String) → Lawful (holds_lease id token)
unfolding holds_lease
holds_lease-Lawful id token = record { at = λ c db v. ground (arith, Advances-refl db.jobs v) }

-- The rest of a handler keeps what it keeps whether or not a part has stopped it.
module _ (t : Meter) {A B : Type 0} where
  pub onward-Keeps :
      (f : A → Run (Part B)) (p : Part A)
      → ((a : A) → Keeps (Paid t 0) (f a))
      → Keeps (Paid t 0) (onward f p)
  onward-Keeps f (gives a) k = k a
  onward-Keeps f (stops r) k = Keeps-pure (Paid t 0) (stops r)

  pub answered-Keeps :
      (f : A → Run B) (other : Run B) (a : Answer A)
      → ((x : A) → Keeps (Paid t 0) (f x))
      → Keeps (Paid t 0) other
      → Keeps (Paid t 0) (answered f other a)
  answered-Keeps f other (value a) k o = k a
  answered-Keeps f other refuses k o = o
  answered-Keeps f other crashes k o = Keeps-throw (Paid t 0) other_error

pub ruleset paid_rules =
    (keeps_rules, ask-Keeps, sleep-Keeps, call-Keeps, onward-Keeps, answered-Keeps)
