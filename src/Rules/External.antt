-- ===== src/Rules/External.antt =====
-- Each `UPDATE` that follows a report of Runware keeps the rules of the row.
use ktb4_15th_ai.Prelude.{String, Bool, Option, arith}
use ktb4_15th_ai.Job.{Uuid}
use ktb4_15th_ai.JobState.Change.{touched, with_event}
use ktb4_15th_ai.JobState.Submission.{mark_accepted}
use ktb4_15th_ai.JobState.Events.{
  always, can_hold, mark_held, can_succeed, mark_succeeded, can_fill, filled, can_fail,
  to_fallback_failed, Failure, fails_with, mark_failed,
}
use ktb4_15th_ai.Rules.{Sound}

module _ (task : Uuid) where
  pub mark_accepted-Sound : Sound (with_event task always) (touched mark_accepted)
  mark_accepted-Sound now r v h = (ground arith, ground arith)

  pub can_hold-Sound :
      (reason : String) → Sound (with_event task can_hold) (touched (mark_held reason))
  can_hold-Sound reason now r v h = (ground arith, ground arith)

  pub can_succeed-Sound :
      (url : Option String) (uuid : Option Uuid)
      → Sound (with_event task can_succeed) (touched (mark_succeeded url uuid))
  can_succeed-Sound url uuid now r v h = (ground arith, ground arith)

  pub can_fill-Sound :
      (url : Option String) (uuid : Option Uuid) (confirmed : Bool)
      → Sound (can_fill task url uuid confirmed) (filled url uuid)
  can_fill-Sound url uuid confirmed now r v h = (ground arith, ground arith)

  pub can_fail-Sound : Sound (with_event task can_fail) (touched to_fallback_failed)
  can_fail-Sound now r v h = (ground arith, ground arith)

  pub fails_with-Sound :
      (f : Failure) → Sound (with_event task (fails_with f)) (touched (mark_failed f))
  fails_with-Sound f now r v h = (ground arith, ground arith)
