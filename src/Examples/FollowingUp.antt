-- ===== src/Examples/FollowingUp.antt =====
-- The theorem on the Worker for ai-fitting-response, for a message whose handler saves a failure.
use ktb4_15th_ai.Prelude.{◌≡◌, refl, true, false, some, none, [], subst, arith}
use ktb4_15th_ai.Job.{Job, submit_pruna, postprocess, run_fallback, publish_result}
use ktb4_15th_ai.JobState.Publication.{save_final_result}
use ktb4_15th_ai.Process.{World, pure, ◌>>=◌, call, emit, finally, catch, done}
use ktb4_15th_ai.Process.Total.{Total, Finished, total_rules}
use ktb4_15th_ai.Process.Triples.{Meets}
use ktb4_15th_ai.Publisher.{succeeded}
use ktb4_15th_ai.Payload.{to_fields}
use ktb4_15th_ai.Handlers.{Event, finished}
use ktb4_15th_ai.Sending.{failure_payload}
use ktb4_15th_ai.FollowUp.{FollowUp, valid, ActionHandler, PostprocessHandlers, Processor, process}
use ktb4_15th_ai.FollowUp.Reasons.{Always, DeletedFor}
use ktb4_15th_ai.FollowUp.Deletes.{HandlersEnd, process-Deletes}
use ktb4_15th_ai.Paths.{full, follow_up_paths}
use ktb4_15th_ai.Examples.{holding}
use ktb4_15th_ai.Examples.Handling.{env, imaged_job}
use ktb4_15th_ai.Examples.Submitting.{start}

-- The handler saves a failure of the job.
abbrev saving : ActionHandler
saving token job =
    call (env 100) (save_final_result 7 token (failure_payload 7 "CODE" "message") none)
    >>= λ change. pure (finished "failure_saved" none)

abbrev handlers : PostprocessHandlers
handlers = record { postprocess = some saving; run_fallback = none }

saving-Total : (job : Job) → Total Always (saving "a" job)
saving-Total job = search total_rules

handlers-End : HandlersEnd handlers "a"
handlers-End postprocess h e job w =
    let same : saving ≡ h = ground (arith, e) in
    subst {A = ActionHandler} (λ h. Finished (h "a" job w).0) same ((saving-Total job).at w tt).1
handlers-End submit_pruna h e job w = ground (arith, e)
handlers-End run_fallback h e job w = ground (arith, e)
handlers-End publish_result h e job w = ground (arith, e)

abbrev processor : Processor
processor = record {
  env = env 100;
  handlers = handlers;
  lease = 100;
  stopping = λ _. false;
  may_continue = λ _. true;
  keepalive_failed = λ _. false;
  send_json = λ _. succeeded;
  ready_for = λ _. follow_up_paths full;
}

abbrev item : FollowUp
item = valid "m" (record { fitting_job_id = 7; task_uuid = 99; action = postprocess })

abbrev unleased_job : Job
unleased_job = record imaged_job { worker_lease_token = none; worker_lease_until = none }

abbrev postprocessing_start : World Event
postprocessing_start = record start { db = holding unleased_job }

process-Deletes_example :
    Meets
      (DeletedFor processor 7)
      (λ _. ⊥)
      (process processor "a" item (record postprocessing_start { trace = [] }))
process-Deletes_example = process-Deletes processor "a" item postprocessing_start handlers-End

deleted :
    (process processor "a" item postprocessing_start).0
    ≡ done (record {
      message_id = "m";
      fitting_job_id = some 7;
      action = "handler_done";
      delete = true;
    })
unfolding process ◌>>=◌ pure emit finally catch save_final_result to_fields follow_up_paths
deleted = refl
