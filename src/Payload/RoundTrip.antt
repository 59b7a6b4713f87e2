-- ===== src/Payload/RoundTrip.antt =====
-- `_check_result_payload` takes what is made for a result, and what it takes is well formed.
use ktb4_15th_ai.Prelude.{
  ◌≡◌, refl, String, Bool, true, false, not, ◌&&◌, Option, none, some, arith,
}
use ktb4_15th_ai.S3Key.{codes, is_blank, valid_s3_key}
use ktb4_15th_ai.Payload.{
  Json, Fields, Payload, completed, failed, text, int_of, guard, success_fields, failure_fields,
  ◌>>=◌, Result, ok, err, check_result_payload, check_by_status, check_success, check_failure,
  text_of, lookup, to_fields, has_fields,
}

-- The texts are not blank, and the key is one of S3.
unfoldable pub well_formed : Payload → Bool
unfolding is_blank valid_s3_key
well_formed (completed j k t c) =
    not (is_blank (codes k))
    && not (is_blank (codes t))
    && not (is_blank (codes c))
    && valid_s3_key k
well_formed (failed j c m) = not (is_blank (codes c)) && not (is_blank (codes m))

-- A result whose texts are not blank, and whose key is a key of S3 if it is a success, passes the check
-- as the object that is stored and sent, and the check gives that result.
pub check-to_fields :
    (p : Payload) → well_formed p ≡ true → check_result_payload (to_fields p) ≡ ok p
unfolding well_formed check_result_payload check_by_status check_success check_failure text_of
    lookup to_fields
check-to_fields (completed j k t c) h = ground (arith, h)
check-to_fields (failed j c m) h = ground (arith, h)

-- What the first step of a check has found, and what the other steps make of it.
pub record Found {A : Type 0} (first : Result A) (others : A → Result Payload) (p : Payload)
    : Type 0 where
  pub value : A
  pub from : first ≡ ok value
  pub others_ok : others value ≡ ok p

pub found :
    {A : Type 0} {p : Payload} (first : Result A) (others : A → Result Payload)
    → (first >>= others) ≡ ok p
    → Found first others p
found (err x) others e = cc
found (ok a) others e = record { value = a; from = refl; others_ok = e }

text_of-not_blank : (o : Option Json) (t : String) → text_of o ≡ ok t → is_blank (codes t) ≡ false
unfolding text_of
text_of-not_blank (some (text s)) t e = ground (arith, e)
text_of-not_blank none t e = cc
text_of-not_blank (some Json.null) t e = cc
text_of-not_blank (some (Json.boolean b)) t e = cc
text_of-not_blank (some (Json.integer b)) t e = cc
text_of-not_blank (some Json.other) t e = cc

check_success-well_formed :
    (fields : Fields) (p : Payload) → check_success fields ≡ ok p → well_formed p ≡ true
unfolding check_success well_formed
check_success-well_formed fields p e =
    let names = found (guard (has_fields success_fields fields)) _ e in
    let job = found (int_of (lookup "fitting_job_id" fields)) _ names.others_ok in
    let key = found (text_of (lookup "result_image_key" fields)) _ job.others_ok in
    let title = found (text_of (lookup "llm_title" fields)) _ key.others_ok in
    let comment = found (text_of (lookup "llm_comment" fields)) _ title.others_ok in
    ground (
      arith,
      comment.others_ok,
      text_of-not_blank (lookup "result_image_key" fields) key.value key.from,
      text_of-not_blank (lookup "llm_title" fields) title.value title.from,
      text_of-not_blank (lookup "llm_comment" fields) comment.value comment.from,
    )

check_failure-well_formed :
    (fields : Fields) (p : Payload) → check_failure fields ≡ ok p → well_formed p ≡ true
unfolding check_failure well_formed
check_failure-well_formed fields p e =
    let names = found (guard (has_fields failure_fields fields)) _ e in
    let job = found (int_of (lookup "fitting_job_id" fields)) _ names.others_ok in
    let code = found (text_of (lookup "error_code" fields)) _ job.others_ok in
    let message = found (text_of (lookup "error_message" fields)) _ code.others_ok in
    ground (
      arith,
      message.others_ok,
      text_of-not_blank (lookup "error_code" fields) code.value code.from,
      text_of-not_blank (lookup "error_message" fields) message.value message.from,
    )

pub check_by_status-well_formed :
    (status : Option Json) (fields : Fields) (p : Payload)
    → check_by_status status fields ≡ ok p
    → well_formed p ≡ true
unfolding check_by_status
check_by_status-well_formed (some (text s)) fields p e =
    let success = check_success-well_formed fields p in
    let failure = check_failure-well_formed fields p in ground (arith, e, success, failure)
check_by_status-well_formed none fields p e = cc
check_by_status-well_formed (some Json.null) fields p e = cc
check_by_status-well_formed (some (Json.boolean b)) fields p e = cc
check_by_status-well_formed (some (Json.integer b)) fields p e = cc
check_by_status-well_formed (some Json.other) fields p e = cc
