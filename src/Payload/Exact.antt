-- ===== src/Payload/Exact.antt =====
-- `_check_result_payload` takes nothing but the objects that are made for results.
use ktb4_15th_ai.Prelude.{
  ◌≡◌, refl, String, Bool, true, false, ◌&&◌, Option, none, some, arith, List, [], ◌∷◌, all, any,
  str_eq, eq_iff, subst, Bool-cases, inl, inr,
}
use ktb4_15th_ai.Payload.{
  Json, Fields, Payload, completed, failed, text, int_of, guard, success_fields, failure_fields,
  ◌>>=◌, ok, err, check_result_payload, check_by_status, check_success, check_failure, text_of,
  lookup, to_fields, has_fields, ℤ, checked_key, bad_input,
}
use ktb4_15th_ai.Payload.RoundTrip.{well_formed, found, check_by_status-well_formed}

str_eq→eq : (s t : String) → str_eq s t ≡ true → s ≡ t
str_eq→eq s t h = (eq_iff s t).0 h

text_of-some : (o : Option Json) (t : String) → text_of o ≡ ok t → o ≡ some (text t)
unfolding text_of
text_of-some (some (text s)) t e = ground (arith, e)
text_of-some none t e = cc
text_of-some (some Json.null) t e = cc
text_of-some (some (Json.boolean b)) t e = cc
text_of-some (some (Json.integer b)) t e = cc
text_of-some (some Json.other) t e = cc

int_of-some : (o : Option Json) (n : ℤ) → int_of o ≡ ok n → o ≡ some (Json.integer n)
int_of-some (some (Json.integer m)) n e = ground (arith, e)
int_of-some (some (text s)) n e = cc
int_of-some none n e = cc
int_of-some (some Json.null) n e = cc
int_of-some (some (Json.boolean b)) n e = cc
int_of-some (some Json.other) n e = cc

-- A key that is none of the expected ones is not there.
lookup-absent :
    (names : List String) (name : String) (fields : Fields)
    → all (λ kv. any (str_eq kv.0) names) fields ≡ true
    → any (str_eq name) names ≡ false
    → lookup name fields ≡ none
unfolding lookup
lookup-absent names name [] h absent = refl
lookup-absent names name ((k, v) ∷ fields) h absent = elim (Bool-cases (str_eq k name)) [
  | inr other ↦ rw other (lookup-absent names name fields (ground (arith, h)) absent)
  | inl same ↦
      let e : k ≡ name = str_eq→eq k name same in
      let there : any (str_eq name) names ≡ true =
        subst (λ x. any (str_eq x) names ≡ true) e (ground (arith, h)) in
      cc
]

lookup-cons :
    (k name : String) (v : Json) (fields rest : Fields)
    → lookup k fields ≡ some v
    → (str_eq k name ≡ false → lookup name fields ≡ lookup name rest)
    → lookup name fields ≡ lookup name ((k, v) ∷ rest)
unfolding lookup
lookup-cons k name v fields rest h others = elim (Bool-cases (str_eq k name)) [
  | inr other ↦ rw other (others other)
  | inl same ↦ rw same (subst (λ x. lookup x fields ≡ some v) (str_eq→eq k name same) h)
]

str_eq_refl : (s : String) → str_eq s s ≡ true
str_eq_refl s = (eq_iff s s).1 refl

str_eq-flip : (s t : String) → str_eq s t ≡ false → str_eq t s ≡ false
str_eq-flip s t h = elim (Bool-cases (str_eq t s)) [
  | inr other ↦ other
  | inl same ↦
      let e : str_eq s s ≡ false = subst (λ x. str_eq s x ≡ false) (str_eq→eq t s same) h in
      let f = str_eq_refl s in cc
]

-- The object has, under each name, what the object made for the result has, and so no other names.
abbrev pub SameFields : Fields → Payload → Type 0
SameFields fields p = (name : String) → lookup name fields ≡ lookup name (to_fields p)

abbrev known_keys : List String → Fields → Bool
known_keys names fields = all (λ kv. any (str_eq kv.0) names) fields

completed-SameFields :
    (fields : Fields) (j : ℤ) (k t c : String)
    → known_keys success_fields fields ≡ true
    → lookup "fitting_job_id" fields ≡ some (Json.integer j)
    → lookup "status" fields ≡ some (text "COMPLETED")
    → lookup "result_image_key" fields ≡ some (text k)
    → lookup "llm_title" fields ≡ some (text t)
    → lookup "llm_comment" fields ≡ some (text c)
    → SameFields fields (completed j k t c)
unfolding to_fields lookup
completed-SameFields fields j k t c keys hj hs hk ht hc name =
    lookup-cons "fitting_job_id" name (Json.integer j) fields
      (("status", text "COMPLETED")
        ∷ ("result_image_key", text k)
        ∷ ("llm_title", text t)
        ∷ ("llm_comment", text c)
        ∷ [])
      hj
      λ a.
        lookup-cons "status" name (text "COMPLETED") fields
          (("result_image_key", text k) ∷ ("llm_title", text t) ∷ ("llm_comment", text c) ∷ []) hs
          λ b.
            lookup-cons "result_image_key" name (text k) fields
              (("llm_title", text t) ∷ ("llm_comment", text c) ∷ []) hk
              λ d.
                lookup-cons "llm_title" name (text t) fields (("llm_comment", text c) ∷ []) ht λ e.
                  lookup-cons "llm_comment" name (text c) fields [] hc λ f.
                    lookup-absent success_fields name fields keys (
                      ground (
                        arith,
                        str_eq-flip "fitting_job_id" name a,
                        str_eq-flip "status" name b,
                        str_eq-flip "result_image_key" name d,
                        str_eq-flip "llm_title" name e,
                        str_eq-flip "llm_comment" name f,
                      ))

failed-SameFields :
    (fields : Fields) (j : ℤ) (c m : String)
    → known_keys failure_fields fields ≡ true
    → lookup "fitting_job_id" fields ≡ some (Json.integer j)
    → lookup "status" fields ≡ some (text "FAILED")
    → lookup "error_code" fields ≡ some (text c)
    → lookup "error_message" fields ≡ some (text m)
    → SameFields fields (failed j c m)
unfolding to_fields lookup
failed-SameFields fields j c m keys hj hs hc hm name =
    lookup-cons "fitting_job_id" name (Json.integer j) fields
      (("status", text "FAILED") ∷ ("error_code", text c) ∷ ("error_message", text m) ∷ []) hj
      λ a.
        lookup-cons "status" name (text "FAILED") fields
          (("error_code", text c) ∷ ("error_message", text m) ∷ []) hs
          λ b.
            lookup-cons "error_code" name (text c) fields (("error_message", text m) ∷ []) hc λ d.
              lookup-cons "error_message" name (text m) fields [] hm λ e.
                lookup-absent failure_fields name fields keys (
                  ground (
                    arith,
                    str_eq-flip "fitting_job_id" name a,
                    str_eq-flip "status" name b,
                    str_eq-flip "error_code" name d,
                    str_eq-flip "error_message" name e,
                  ))

guard-holds : (b : Bool) (v : Unit {0}) → guard b ≡ ok v → b ≡ true
guard-holds true v e = refl
guard-holds false v e = cc

right_of : (a b : Bool) → (a && b) ≡ true → b ≡ true
right_of a b h = ground (arith, h)

-- What the check makes of the key and the texts.
completed-from :
    (j : ℤ) (k t c : String) (p : Payload)
    → (checked_key k >>= λ k. ok (completed j k t c)) ≡ ok p
    → completed j k t c ≡ p
completed-from j k t c p e = ground (arith, e)

check_success-SameFields :
    (fields : Fields) (p : Payload)
    → lookup "status" fields ≡ some (text "COMPLETED")
    → check_success fields ≡ ok p
    → SameFields fields p
unfolding check_success
check_success-SameFields fields p status e =
    let names = found (guard (has_fields success_fields fields)) _ e in
    let job = found (int_of (lookup "fitting_job_id" fields)) _ names.others_ok in
    let key = found (text_of (lookup "result_image_key" fields)) _ job.others_ok in
    let title = found (text_of (lookup "llm_title" fields)) _ key.others_ok in
    let comment = found (text_of (lookup "llm_comment" fields)) _ title.others_ok in
    subst (SameFields fields)
      (completed-from job.value key.value title.value comment.value p comment.others_ok)
      (completed-SameFields fields job.value key.value title.value comment.value
        (right_of _ _ (guard-holds _ names.value names.from)) (int_of-some _ _ job.from) status
        (text_of-some _ _ key.from) (text_of-some _ _ title.from) (text_of-some _ _ comment.from))

failed-from : (j : ℤ) (c m : String) (p : Payload) → ok (failed j c m) ≡ ok p → failed j c m ≡ p
failed-from j c m p e = ground (arith, e)

check_failure-SameFields :
    (fields : Fields) (p : Payload)
    → lookup "status" fields ≡ some (text "FAILED")
    → check_failure fields ≡ ok p
    → SameFields fields p
unfolding check_failure
check_failure-SameFields fields p status e =
    let names = found (guard (has_fields failure_fields fields)) _ e in
    let job = found (int_of (lookup "fitting_job_id" fields)) _ names.others_ok in
    let code = found (text_of (lookup "error_code" fields)) _ job.others_ok in
    let message = found (text_of (lookup "error_message" fields)) _ code.others_ok in
    subst (SameFields fields) (failed-from job.value code.value message.value p message.others_ok) (
      failed-SameFields fields job.value code.value message.value
        (right_of _ _ (guard-holds _ names.value names.from)) (int_of-some _ _ job.from) status
        (text_of-some _ _ code.from) (text_of-some _ _ message.from))

check_by_status-SameFields :
    (status : Option Json) (fields : Fields) (p : Payload)
    → lookup "status" fields ≡ status
    → check_by_status status fields ≡ ok p
    → SameFields fields p
unfolding check_by_status
check_by_status-SameFields (some (text s)) fields p same e =
    elim (Bool-cases (str_eq s "COMPLETED")) [
      | inl success ↦
          check_success-SameFields fields p
            (subst (λ s. lookup "status" fields ≡ some (text s)) (str_eq→eq s "COMPLETED" success)
              same)
            (ground (arith, e, success))
      | inr other ↦ elim (Bool-cases (str_eq s "FAILED")) [
        | inl failure ↦
            check_failure-SameFields fields p
              (subst (λ s. lookup "status" fields ≡ some (text s)) (str_eq→eq s "FAILED" failure)
                same)
              (ground (arith, e, other, failure))
        | inr neither ↦ let bad : ok p ≡ err bad_input = ground (arith, e, other, neither) in cc
      ]
    ]
check_by_status-SameFields none fields p same e = cc
check_by_status-SameFields (some Json.null) fields p same e = cc
check_by_status-SameFields (some (Json.boolean b)) fields p same e = cc
check_by_status-SameFields (some (Json.integer b)) fields p same e = cc
check_by_status-SameFields (some Json.other) fields p same e = cc

-- If the check accepts an object as a result, the texts of the result are not blank, its key is a key of S3 if
-- it is a success, and the object has just the names and values of the object that is made for such a
-- result: none is missing, wrong or there besides.
pub check_result_payload-SameFields :
    (fields : Fields) (p : Payload)
    → check_result_payload fields ≡ ok p
    → (well_formed p ≡ true) × SameFields fields p
unfolding check_result_payload
check_result_payload-SameFields fields p e = (
  check_by_status-well_formed (lookup "status" fields) fields p e,
  check_by_status-SameFields (lookup "status" fields) fields p refl e,
)
