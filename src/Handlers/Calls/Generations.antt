-- ===== src/Handlers/Calls/Generations.antt =====
-- The synchronous generation, which its place in the limiter pays for, or which is not counted.
use ktb4_15th_ai.Prelude.{ℕ, zero, suc, String, Bool, Option, none, some, subst, sym, if◌then◌else◌}
use ktb4_15th_ai.Job.{Uuid, Job}
use ktb4_15th_ai.Store.{Db}
use ktb4_15th_ai.JobState.Fallback.{
  S3ObjectState, exists, not_found, access_denied, error, transient_error,
}
use ktb4_15th_ai.Limiter.Slot.{SubmissionGrant}
use ktb4_15th_ai.Limiter.Begin.{begin_fallback}
use ktb4_15th_ai.Rules.Methods.{
  save_final_result-Lawful, prepare_fallback-Lawful, record_fallback_image-Lawful,
}
use ktb4_15th_ai.Rules.Releases.{finish_send-Lawful, release_in_flight-Lawful}
use ktb4_15th_ai.Process.{
  Failure, value_error, fitting_error, other_error, pure, ◌>>=◌, emit, tables, read_clock, ask,
  call,
}
use ktb4_15th_ai.Process.Keeps.{Keeps, Keeps-bind, Keeps-read_clock}
use ktb4_15th_ai.Handlers.{
  generated, Run, HandlerResult, Part, gives, stops, Answer, value, refuses, crashes, Check, fine,
  fails_with, postponed, broken, Generation, image, failure, onward, stop_with, Services,
}
use ktb4_15th_ai.Handlers.Counting.{
  costs_rules, Meter, Paid, Costs, Costs-Keeps, Keeps-Costs, Costs-bind, Costs-drop, Costs-pure,
  Costs-if, Costs-throw, Costs-tables, Costs-finally, Costs-exhausted, Costs-after, ask-Keeps,
}
use ktb4_15th_ai.Handlers.Texts.{title_and_comment}
use ktb4_15th_ai.Handlers.Fallback.{
  ErrorKind, balance, auth, rejected, unknown, classify_sync_error, unless_fitting, fail,
  money_checked, check_money, refused_slot, slot_answer, signed_slot, try_slot, rechecked,
  wait_for_slot, released_error, after_error, generation, finish, generate_once, cost_recorded,
  record_cost, keep_image, generate_with, task_of, name_task, headed, prepared, generate,
  fallback_image, fallback_stage, run_fallback,
}
use ktb4_15th_ai.Handlers.Calls.{paid_rules}
use ktb4_15th_ai.Handlers.Calls.Images.{ended-Keeps}

module _ (t : Meter) (s : Services) (id : ℕ) (token : String) where
  fail-Keeps :
      {A : Type 0} (code message : String) → Keeps (Paid t 0) (fail s id token {A = A} code message)
  unfolding fail
  fail-Keeps code message = search (paid_rules, save_final_result-Lawful)

  money_checked-Keeps : (c : Check) → Keeps (Paid t 0) (money_checked s id token c)
  money_checked-Keeps fine = search paid_rules
  money_checked-Keeps (fails_with code message) = fail-Keeps code message
  money_checked-Keeps (postponed code) = search paid_rules
  money_checked-Keeps broken = search paid_rules

  check_money-Keeps : Keeps (Paid t 0) (check_money s id token)
  unfolding check_money
  check_money-Keeps = search (paid_rules, money_checked-Keeps)

  released_error-Keeps :
      (task : Uuid) (kind : ErrorKind) → Keeps (Paid t 0) (released_error s id token task kind)
  released_error-Keeps task balance = fail-Keeps _ _
  released_error-Keeps task auth = search paid_rules
  released_error-Keeps task rejected = fail-Keeps _ _
  released_error-Keeps task unknown = fail-Keeps _ _

  after_error-Keeps :
      (task : Uuid) (kind : ErrorKind) → Keeps (Paid t 0) (after_error s id token task kind)
  unfolding after_error
  after_error-Keeps task balance =
      search (paid_rules, release_in_flight-Lawful, released_error-Keeps)
  after_error-Keeps task auth = search (paid_rules, release_in_flight-Lawful)
  after_error-Keeps task rejected =
      search (paid_rules, release_in_flight-Lawful, released_error-Keeps)
  after_error-Keeps task unknown = search paid_rules

  generation-Keeps :
      (task : Uuid) (g : Generation) → Keeps (Paid t 0) (generation s id token task g)
  generation-Keeps task (image cost) = search paid_rules
  generation-Keeps task (failure e) = after_error-Keeps task (classify_sync_error e)

  unless_fitting-Keeps : (f : Failure) → Keeps (Paid t 0) (unless_fitting f)
  unless_fitting-Keeps value_error = search paid_rules
  unless_fitting-Keeps fitting_error = search paid_rules
  unless_fitting-Keeps other_error = search paid_rules

  finish-Keeps : (task : Uuid) → Keeps (Paid t 0) (finish s id token task)
  finish-Keeps task = search (paid_rules, finish_send-Lawful, unless_fitting-Keeps)

  cost_recorded-Keeps :
      (task : Uuid) (a : Answer (Unit {0})) → Keeps (Paid t 0) (cost_recorded s id token task a)
  cost_recorded-Keeps task (value _) = search paid_rules
  cost_recorded-Keeps task refuses = search paid_rules
  cost_recorded-Keeps task crashes = search paid_rules

  record_cost-Keeps :
      (task : Uuid) (cost : Option ℕ) (g : SubmissionGrant)
      → Keeps (Paid t 0) (record_cost s id token task cost g)
  record_cost-Keeps task none g = search paid_rules
  record_cost-Keeps task (some cost) g = search (paid_rules, cost_recorded-Keeps)

  keep_image-Keeps :
      (task : Uuid) (g : SubmissionGrant) (cost : Option ℕ)
      → Keeps (Paid t 0) (keep_image s id token task g cost)
  unfolding keep_image
  keep_image-Keeps task g cost =
      search (paid_rules, release_in_flight-Lawful, record_cost-Keeps, record_fallback_image-Lawful)
        depth 12

module _ (t : Meter) (s : Services) (id : ℕ) (token : String) (k : ℕ)
    (begins : (task : Uuid)
      → Costs t 0
          (λ g. if g.granted then k else 0)
          (call s.env (begin_fallback s.env.limits id token (some task))))
    (makes : (task : Uuid) (db : Db) → Costs t k (λ _. 0) (emit (generated id task db))) where
  pays : Part SubmissionGrant → ℕ
  pays (gives g) = k
  pays (stops r) = 0

  module _ (task : Uuid) (started : ℕ) where
    stop-Costs : (r : HandlerResult) → Costs t 0 pays (stop_with r)
    unfolding pays
    stop-Costs r = Costs-pure t pays (stops r)

    refused_slot-Costs :
        (again : ℕ → Run (Part SubmissionGrant))
        → ((last : ℕ) → Costs t 0 pays (again last))
        → (last : ℕ) (g : SubmissionGrant)
        → Costs t 0 pays (refused_slot s id token task started again last g)
    refused_slot-Costs again costs last g =
        search (costs_rules, paid_rules, stop-Costs, Keeps-read_clock) depth 9

    slot_answer-Costs :
        (again : ℕ → Run (Part SubmissionGrant))
        → ((last : ℕ) → Costs t 0 pays (again last))
        → (last : ℕ) (g : SubmissionGrant)
        → Costs t
            (if g.granted then k else 0)
            pays
            (slot_answer s id token task started again last g)
    unfolding pays
    slot_answer-Costs again costs last g =
        Costs-if t (if g.granted then k else 0) pays g.granted (pure (gives g)) _
          (λ e.
            subst (λ b. Costs t (if b then k else 0) pays (pure (gives g))) (sym e)
              (Costs-pure t pays (gives g)))
          λ _. Costs-drop t _ pays _ (refused_slot-Costs again costs last g)

    signed-Costs :
        (again : ℕ → Run (Part SubmissionGrant))
        → ((last : ℕ) → Costs t 0 pays (again last))
        → (last : ℕ) (signed : Answer (Unit {0}))
        → Costs t 0 pays (signed_slot s id token task started again last signed)
    signed-Costs again costs last (value _) =
        Costs-bind t 0 (λ g. if g.granted then k else 0) pays _ _ (begins task)
          (slot_answer-Costs again costs last)
    signed-Costs again costs last refuses = stop-Costs _
    signed-Costs again costs last crashes = Costs-throw t pays other_error

    try_slot-Costs :
        (again : ℕ → Run (Part SubmissionGrant))
        → ((last : ℕ) → Costs t 0 pays (again last))
        → (last : ℕ) → Costs t 0 pays (try_slot s id token task started again last)
    try_slot-Costs again costs last =
        Costs-after t pays (ask s.env s.sign) _ (ask-Keeps t s.env s.sign)
          (signed-Costs again costs last)

    rechecked-Costs :
        (again : ℕ → Run (Part SubmissionGrant))
        → ((last : ℕ) → Costs t 0 pays (again last))
        → (p : Part (Unit {0})) → Costs t 0 pays (rechecked s id token task started again p)
    rechecked-Costs again costs (gives _) =
        Costs-after t pays read_clock _ (Keeps-read_clock (Paid t 0)) (try_slot-Costs again costs)
    rechecked-Costs again costs (stops r) = stop-Costs r

    wait_for_slot-Costs :
        (fuel last : ℕ) → Costs t 0 pays (wait_for_slot s id token task started fuel last)
    unfolding wait_for_slot
    wait_for_slot-Costs zero last = Costs-exhausted t pays
    wait_for_slot-Costs (suc fuel) last =
        let again = wait_for_slot-Costs fuel in
        let checked = rechecked-Costs (wait_for_slot s id token task started fuel) again in
        let slot = try_slot-Costs (wait_for_slot s id token task started fuel) again in
        search (costs_rules, paid_rules, stop-Costs, check_money-Keeps) depth 12

  generate_once-Costs : (task : Uuid) → Costs t k (λ _. 0) (generate_once s id token task)
  unfolding generate_once
  generate_once-Costs task =
      Costs-finally t k _ (finish s id token task)
        (Costs-bind t k (λ _. k) (λ _. 0) tables _ (Costs-tables t k)
          λ db.
            Costs-bind t k (λ _. 0) (λ _. 0) (emit (generated id task db)) _ (makes task db)
              λ _. Keeps-Costs t 0 _ (search (paid_rules, generation-Keeps)))
        (finish-Keeps t s id token task)

  onward_slot-Costs :
      (task : Uuid) (slot : Part SubmissionGrant)
      → Costs t
          (pays slot)
          (λ _. 0)
          (onward
            (λ g. generate_once s id token task >>= onward (keep_image s id token task g))
            slot)
  unfolding pays
  onward_slot-Costs task (gives g) =
      Costs-bind t k (λ _. 0) (λ _. 0) (generate_once s id token task) _ (generate_once-Costs task)
        λ made. Keeps-Costs t 0 _ (search (paid_rules, keep_image-Keeps))
  onward_slot-Costs task (stops r) = Keeps-Costs t 0 _ (search paid_rules)

  generate_with-Keeps : (task : Uuid) → Keeps (Paid t 0) (generate_with s id token task)
  unfolding generate_with
  generate_with-Keeps task =
      Keeps-bind (Paid t 0) read_clock _ (Keeps-read_clock (Paid t 0)) λ started. Costs-Keeps t _ (
        Costs-bind t 0 pays (λ _. 0)
          (wait_for_slot s id token task started (suc s.max_wait) started) _
          (wait_for_slot-Costs task started (suc s.max_wait) started) (onward_slot-Costs task))

  task_of-Keeps : (job : Option Job) → Keeps (Paid t 0) (task_of s id token job)
  task_of-Keeps none = search paid_rules
  task_of-Keeps (some job) = search paid_rules

  name_task-Keeps : Keeps (Paid t 0) (name_task s id token)
  unfolding name_task
  name_task-Keeps =
      search (paid_rules, prepare_fallback-Lawful, task_of-Keeps, generate_with-Keeps) depth 9

  headed-Keeps : (seen : S3ObjectState) → Keeps (Paid t 0) (headed s id token seen)
  headed-Keeps exists = search (paid_rules, check_money-Keeps, name_task-Keeps)
  headed-Keeps not_found = fail-Keeps t s id token _ _
  headed-Keeps access_denied = search paid_rules
  headed-Keeps transient_error = search paid_rules
  headed-Keeps error = search paid_rules

  prepared-Keeps : (c : Check) → Keeps (Paid t 0) (prepared s id token c)
  prepared-Keeps fine = search (paid_rules, headed-Keeps)
  prepared-Keeps (fails_with code message) = fail-Keeps t s id token code message
  prepared-Keeps (postponed code) = search paid_rules
  prepared-Keeps broken = search paid_rules

  generate-Keeps : (job : Job) → Keeps (Paid t 0) (generate s id token job)
  unfolding generate
  generate-Keeps job = search (paid_rules, prepared-Keeps) depth 9

  fallback_image-Keeps : (job : Job) → Keeps (Paid t 0) (fallback_image s id token job)
  fallback_image-Keeps job = search (paid_rules, generate-Keeps)

  -- The handler of RUN_FALLBACK, where the texts keep what is paid.
  pub run_fallback-Keeps :
      ((stage_ok : Job → Bool) → Keeps (Paid t 0) (title_and_comment s id token stage_ok))
      → (job : Job) → Keeps (Paid t 0) (run_fallback s id token job)
  unfolding run_fallback
  run_fallback-Keeps texts job =
      let ended = ended-Keeps t s id token texts fallback_stage _ (fallback_image-Keeps job) in
      search paid_rules
