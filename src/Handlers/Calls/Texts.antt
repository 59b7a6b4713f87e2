-- ===== src/Handlers/Calls/Texts.antt =====
-- The texts, where a claim pays for the call of the LLM, or where such calls are not counted.
use ktb4_15th_ai.Prelude.{
  ℕ, zero, suc, String, Bool, true, false, not, Option, none, some, List, [], ◌∷◌, if◌then◌else◌,
}
use ktb4_15th_ai.Job.{Job}
use ktb4_15th_ai.Rules.Methods.{save_final_result-Lawful}
use ktb4_15th_ai.Process.{pure, ◌>>=◌, ◌>>◌, emit, ask}
use ktb4_15th_ai.Process.Keeps.{Keeps}
use ktb4_15th_ai.Handlers.{
  asked_llm, Run, Part, gives, stops, Answer, value, refuses, crashes, onward, Services,
}
use ktb4_15th_ai.Handlers.Counting.{Meter, Paid, Costs, Costs-Keeps, Keeps-Costs, Costs-bind}
use ktb4_15th_ai.Handlers.Texts.{
  gate, gate_job, ask_comment, ask_title, comment_answer, title_answer, titled, commented,
  with_summaries, claim_call, comment_attempts, title_attempts, title_and_comment, save_completed,
}
use ktb4_15th_ai.Handlers.Calls.{find_by_fitting_job_id-Lawful, holds_lease-Lawful, paid_rules}

module _ (t : Meter) (s : Services) (id : ℕ) (token : String) (stage_ok : Job → Bool)
    (slack : Part Bool → ℕ) (claims : Costs t 0 slack (claim_call s id token stage_ok))
    (asks : Costs t (slack (gives true)) (λ _. 0) (emit (asked_llm id))) where
  gate_job-Keeps : (job : Option Job) → Keeps (Paid t 0) (gate_job s id token stage_ok job)
  unfolding gate_job
  gate_job-Keeps none = search paid_rules
  gate_job-Keeps (some job) = search (paid_rules, holds_lease-Lawful)

  gate-Keeps : (stopped : String) → Keeps (Paid t 0) (gate s id token stage_ok stopped)
  unfolding gate
  gate-Keeps stopped = search (paid_rules, gate_job-Keeps, find_by_fitting_job_id-Lawful)

  -- A call of the LLM, once its claim is made; `read` makes of its answer what comes next.
  module _ {A B : Type 0} (answer : ℕ → Answer A) (read : Answer A → Run (Part B))
      (nothing : Part B) (reads : (a : Answer A) → Keeps (Paid t 0) (read a)) where
    asked-Costs :
        (p : Part Bool)
        → Costs t
            (slack p)
            (λ _. 0)
            (onward
              (λ counted.
                if not counted
                then pure nothing
                else do emit (asked_llm id); a ← ask s.env answer; read a)
              p)
    asked-Costs (gives true) =
        Costs-bind t (slack (gives true)) (λ _. 0) (λ _. 0) (emit (asked_llm id)) _ asks
          λ _. Keeps-Costs t 0 _ (search (paid_rules, reads))
    asked-Costs (gives false) = Keeps-Costs t (slack (gives false)) _ (search paid_rules)
    asked-Costs (stops r) = Keeps-Costs t (slack (stops r)) _ (search paid_rules)

    call_llm-Keeps : Keeps (Paid t 0) (
        claim_call s id token stage_ok
        >>= onward λ counted.
          if not counted
          then pure nothing
          else do emit (asked_llm id); a ← ask s.env answer; read a)
    call_llm-Keeps =
        Costs-Keeps t _
          (Costs-bind t 0 slack (λ _. 0) (claim_call s id token stage_ok) _ claims asked-Costs)

  comment_answer-Keeps :
      (again : Run (Part (Option String)))
      → Keeps (Paid t 0) again
      → (a : Answer String) → Keeps (Paid t 0) (comment_answer s id token stage_ok again a)
  comment_answer-Keeps again k (value text) = search paid_rules
  comment_answer-Keeps again k refuses = k
  comment_answer-Keeps again k crashes = search paid_rules

  ask_comment-Keeps :
      (again : Run (Part (Option String)))
      → Keeps (Paid t 0) again
      → Keeps
          (Paid t 0)
          (claim_call s id token stage_ok >>= onward (ask_comment s id token stage_ok again))
  ask_comment-Keeps again k =
      call_llm-Keeps s.generate_comment (comment_answer s id token stage_ok again) (gives none)
        (comment_answer-Keeps again k)

  comment_attempts-Keeps : (n : ℕ) → Keeps (Paid t 0) (comment_attempts s id token stage_ok n)
  unfolding comment_attempts
  comment_attempts-Keeps zero = search paid_rules
  comment_attempts-Keeps (suc n) =
      let again = comment_attempts-Keeps n in
      search (paid_rules, gate-Keeps, ask_comment-Keeps) depth 9

  title_answer-Keeps :
      (again : Run (Part (Option String)))
      → Keeps (Paid t 0) again
      → (a : Answer String) → Keeps (Paid t 0) (title_answer s id token stage_ok again a)
  title_answer-Keeps again k (value text) = search paid_rules
  title_answer-Keeps again k refuses = k
  title_answer-Keeps again k crashes = search paid_rules

  ask_title-Keeps :
      (again : Run (Part (Option String)))
      → Keeps (Paid t 0) again
      → Keeps
          (Paid t 0)
          (claim_call s id token stage_ok >>= onward (ask_title s id token stage_ok again))
  ask_title-Keeps again k =
      call_llm-Keeps s.generate_title (title_answer s id token stage_ok again) (gives none)
        (title_answer-Keeps again k)

  title_attempts-Keeps : (n : ℕ) → Keeps (Paid t 0) (title_attempts s id token stage_ok n)
  unfolding title_attempts
  title_attempts-Keeps zero = search paid_rules
  title_attempts-Keeps (suc n) =
      let again = title_attempts-Keeps n in search (paid_rules, gate-Keeps, ask_title-Keeps)

  titled-Keeps :
      (comment : String) (title : Option String)
      → Keeps (Paid t 0) (titled s id token stage_ok comment title)
  titled-Keeps comment none = search paid_rules
  titled-Keeps comment (some title) = search paid_rules

  commented-Keeps : (c : Option String) → Keeps (Paid t 0) (commented s id token stage_ok c)
  commented-Keeps none = search paid_rules
  commented-Keeps (some comment) = search (paid_rules, title_attempts-Keeps, titled-Keeps)

  with_summaries-Keeps :
      (found : List String) → Keeps (Paid t 0) (with_summaries s id token stage_ok found)
  with_summaries-Keeps [] = search paid_rules
  with_summaries-Keeps (_ ∷ _) = search (paid_rules, comment_attempts-Keeps, commented-Keeps)

  pub title_and_comment-Keeps : Keeps (Paid t 0) (title_and_comment s id token stage_ok)
  unfolding title_and_comment
  title_and_comment-Keeps = search (paid_rules, with_summaries-Keeps)

module _ (t : Meter) (s : Services) (id : ℕ) (token : String) where
  pub save_completed-Keeps :
      (key : String) (texts : String × String)
      → Keeps (Paid t 0) (save_completed s id token key texts)
  unfolding save_completed
  save_completed-Keeps key texts = search (paid_rules, save_final_result-Lawful)
