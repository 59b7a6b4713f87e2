-- ===== src/Handlers/Calls/Totals.antt =====
-- Runs of the handlers for one job, one after another, and the calls that they make together.
use ktb4_15th_ai.Prelude.{
  ℕ, ◌+◌, ◌≤◌, refl, String, Bool, true, false, some, List, [], ◌∷◌, arith, All, count, is_some,
  subst, sym, if◌then◌else◌,
}
use ktb4_15th_ai.Job.{Uuid, Job}
use ktb4_15th_ai.Store.{Db}
use ktb4_15th_ai.JobState.Change.{StateChange, llm_generation_limit, fallback_limit}
use ktb4_15th_ai.JobState.Postprocess.{claim_llm_generation_attempt, count_llm_call, has_image}
use ktb4_15th_ai.Limiter.Begin.{begin_fallback}
use ktb4_15th_ai.Publisher.{is_limit}
use ktb4_15th_ai.Rules.{IsValid}
use ktb4_15th_ai.Rules.Methods.{claim_llm_generation_attempt-Lawful}
use ktb4_15th_ai.Rules.Calls.{begin_fallback-Lawful}
use ktb4_15th_ai.History.Claims.{counted, claim-Counts}
use ktb4_15th_ai.History.Fallbacks.{begin_fallback-Counts}
use ktb4_15th_ai.Process.{World, pure, call}
use ktb4_15th_ai.Process.Keeps.{Keeps}
use ktb4_15th_ai.Handlers.{
  Event, generated, asked_llm, Run, HandlerResult, Part, gives, stops, deferred_by, Services,
}
use ktb4_15th_ai.Handlers.Counting.{
  Meter, Paid, Paid-le, Costs, Keeps-Costs, Costs-bind, Costs-pure, Costs-if, Costs-drop,
  Costs-both, Costs-same, emit-Costs, emit-Keeps, claim-Costs, call-Keeps,
}
use ktb4_15th_ai.Handlers.Texts.{claim_call, claimed_change, title_and_comment}
use ktb4_15th_ai.Handlers.Postprocess.{postprocess}
use ktb4_15th_ai.Handlers.Fallback.{run_fallback}
use ktb4_15th_ai.Handlers.Calls.{paid_rules}
use ktb4_15th_ai.Handlers.Calls.Texts.{title_and_comment-Keeps}
use ktb4_15th_ai.Handlers.Calls.Images.{postprocess-Keeps}
use ktb4_15th_ai.Handlers.Calls.Generations.{run_fallback-Keeps}

-- A run of one of the two handlers: what it meets, its token, and the job that its grant gave it.
pub record Handling : Type 0 where
  pub services : Services
  pub token : String
  pub job : Job
  pub is_fallback : Bool

abbrev handler : Bool → Services → ℕ → String → Job → Run HandlerResult
handler true = run_fallback
handler false = postprocess

-- The world after such runs for a job.
unfoldable pub handle_all : ℕ → List Handling → World Event → World Event
unfolding run_fallback postprocess
handle_all id [] w = w
handle_all id (h ∷ rest) w =
    handle_all id rest (handler h.is_fallback h.services id h.token h.job w).1

abbrev pub is_llm_call : Event → Bool
is_llm_call (asked_llm id) = true
is_llm_call _ = false

abbrev pub is_generation : Event → Bool
is_generation (generated id task db) = true
is_generation _ = false

-- A world before the first call.
abbrev pub fresh : Db → ℕ → World Event
fresh db now = record { db = db; now = now; moment = 0; trace = [] }

handle_all-Keeps :
    (J : World Event → Type 0) (id : ℕ)
    → ((h : Handling) → Keeps J (handler h.is_fallback h.services id h.token h.job))
    → (runs : List Handling) (w : World Event) → J w
    → J (handle_all id runs w)
unfolding handle_all
handle_all-Keeps J id keeps [] w j = j
handle_all-Keeps J id keeps (h ∷ rest) w j =
    handle_all-Keeps J id keeps rest (handler h.is_fallback h.services id h.token h.job w).1
      ((keeps h).at w j)

module _ (id : ℕ) (db : Db) where
  abbrev llm_meter : Meter
  llm_meter = record {
    id = id;
    is_call = is_llm_call;
    start = counted (λ r. r.llm_generation_attempt_count) id db.jobs;
    column = λ r. r.llm_generation_attempt_count;
    grows = λ a b h. h.llm_calls;
  }

  abbrev generation_meter : Meter
  generation_meter = record {
    id = id;
    is_call = is_generation;
    start = counted (λ r. r.fallback_attempt_count) id db.jobs;
    column = λ r. r.fallback_attempt_count;
    grows = λ a b h. h.fallbacks;
  }

  abbrev llm_slack : Part Bool → ℕ
  llm_slack (gives true) = 1
  llm_slack (gives false) = 0
  llm_slack (stops r) = 0

  module _ (s : Services) (token : String) (stage_ok : Job → Bool) where
    claimed_change-Costs :
        (change : StateChange)
        → Costs llm_meter
            (if change.applied then 1 else 0)
            llm_slack
            (claimed_change s id token stage_ok change)
    claimed_change-Costs change =
        Costs-if llm_meter _ llm_slack change.applied (pure (gives true)) _
          (λ e.
            subst (λ b. Costs llm_meter (if b then 1 else 0) llm_slack (pure (gives true))) (sym e)
              (Costs-pure llm_meter llm_slack (gives true)))
          λ _. Costs-drop llm_meter _ llm_slack _ (
            Costs-both llm_meter 0 llm_slack (is_limit change.reason) (pure (gives false)) _
              (Costs-pure llm_meter llm_slack (gives false))
              (Costs-pure llm_meter llm_slack (stops (deferred_by "llm_claim_" change.reason))))

    claim_call-Costs : Costs llm_meter 0 llm_slack (claim_call s id token stage_ok)
    unfolding claim_call claim_llm_generation_attempt
    claim_call-Costs =
        Costs-bind llm_meter 0 (λ change. if change.applied then 1 else 0) llm_slack
          (call s.env (claim_llm_generation_attempt id token)) _
          (claim-Costs llm_meter s.env (claim_llm_generation_attempt id token) (λ r. r.applied)
            (claim_llm_generation_attempt-Lawful id token)
            (claim-Counts id token count_llm_call (λ r. r.llm_generation_attempt_count)
              (λ _ _. refl) (λ _ r. omega arith) llm_generation_limit has_image
              (λ r. is_some r.result_payload)))
          claimed_change-Costs

    texts-pay : Keeps (Paid llm_meter 0) (title_and_comment s id token stage_ok)
    texts-pay =
        title_and_comment-Keeps llm_meter s id token stage_ok llm_slack claim_call-Costs
          (emit-Costs llm_meter (asked_llm id))

    free_change-Keeps :
        (change : StateChange)
        → Keeps (Paid generation_meter 0) (claimed_change s id token stage_ok change)
    free_change-Keeps change = search paid_rules

    claim_call-Keeps : Keeps (Paid generation_meter 0) (claim_call s id token stage_ok)
    unfolding claim_call
    claim_call-Keeps = search (paid_rules, free_change-Keeps, claim_llm_generation_attempt-Lawful)

    texts-free : Keeps (Paid generation_meter 0) (title_and_comment s id token stage_ok)
    texts-free =
        title_and_comment-Keeps generation_meter s id token stage_ok (λ _. 0)
          (Keeps-Costs generation_meter 0 _ claim_call-Keeps)
          (Keeps-Costs generation_meter 0 _ (emit-Keeps generation_meter (asked_llm id) refl))

  begin-free :
      (s : Services) (token : String) (task : Uuid)
      → Costs llm_meter 0
          (λ g. if g.granted then 0 else 0)
          (call s.env (begin_fallback s.env.limits id token (some task)))
  begin-free s token task =
      Costs-same llm_meter 0 (λ g. if g.granted then 0 else 0) _ (λ g. ground arith)
        (Keeps-Costs llm_meter 0 _ (
          call-Keeps llm_meter s.env (begin_fallback s.env.limits id token (some task))
            (begin_fallback-Lawful s.env.limits id token (some task))))

  begin-pays :
      (s : Services) (token : String) (task : Uuid)
      → Costs generation_meter 0
          (λ g. if g.granted then 1 else 0)
          (call s.env (begin_fallback s.env.limits id token (some task)))
  begin-pays s token task =
      claim-Costs generation_meter s.env (begin_fallback s.env.limits id token (some task))
        (λ g. g.granted) (begin_fallback-Lawful s.env.limits id token (some task))
        (begin_fallback-Counts s.env.limits id token (some task))

  handler-llm :
      (b : Bool) (s : Services) (token : String) (job : Job)
      → Keeps (Paid llm_meter 0) (handler b s id token job)
  handler-llm false s token job =
      postprocess-Keeps llm_meter s id token refl (texts-pay s token) job
  handler-llm true s token job =
      run_fallback-Keeps llm_meter s id token 0 (begin-free s token)
        (λ task db. Keeps-Costs llm_meter 0 _ (emit-Keeps llm_meter (generated id task db) refl))
        (texts-pay s token) job

  handler-generation :
      (b : Bool) (s : Services) (token : String) (job : Job)
      → Keeps (Paid generation_meter 0) (handler b s id token job)
  handler-generation false s token job =
      postprocess-Keeps generation_meter s id token refl (texts-free s token) job
  handler-generation true s token job =
      run_fallback-Keeps generation_meter s id token 1 (begin-pays s token)
        (λ task db. emit-Costs generation_meter (generated id task db)) (texts-free s token) job

-- If the rows keep the rules, runs of the two handlers for a job, one after another, whatever other
-- processes do between their transactions, however the services answer and whatever is raised, call the
-- LLM together at most `llm_generation_limit` times, less the calls that the job's row has counted before.
pub llm_calls-le :
    (id : ℕ) (runs : List Handling) (db : Db) (now : ℕ)
    → All IsValid db.jobs
    → counted (λ r. r.llm_generation_attempt_count) id db.jobs
        + count is_llm_call (handle_all id runs (fresh db now)).trace
      ≤ llm_generation_limit
llm_calls-le id runs db now v =
    Paid-le (llm_meter id db) llm_generation_limit (handle_all id runs (fresh db now))
      (λ r h. h.llm_calls)
      (handle_all-Keeps (Paid (llm_meter id db) 0) id
        (λ h. handler-llm id db h.is_fallback h.services h.token h.job) runs (fresh db now)
        (v, omega arith))

-- If the rows keep the rules, runs of the two handlers for a job, one after another, whatever other
-- processes do between their transactions, however the services answer and whatever is raised, call the
-- synchronous generation together at most once, and not at all if its start was counted before.
pub generations-le :
    (id : ℕ) (runs : List Handling) (db : Db) (now : ℕ)
    → All IsValid db.jobs
    → counted (λ r. r.fallback_attempt_count) id db.jobs
        + count is_generation (handle_all id runs (fresh db now)).trace
      ≤ fallback_limit
generations-le id runs db now v =
    Paid-le (generation_meter id db) fallback_limit (handle_all id runs (fresh db now))
      (λ r h. h.fallbacks)
      (handle_all-Keeps (Paid (generation_meter id db) 0) id
        (λ h. handler-generation id db h.is_fallback h.services h.token h.job) runs (fresh db now)
        (v, omega arith))
