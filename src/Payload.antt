-- ===== src/Payload.antt =====
-- The result messages of app/virtual_fitting/repositories/async_job_state.py: `_check_result_payload`
-- turns a JSON object into one of two shapes, or raises.
pub mod RoundTrip
pub mod Exact
use ktb4_15th_ai.Prelude.{
  ℕ, String, Bool, true, false, ◌&&◌, Option, none, some, List, [], ◌∷◌, ◌==◌, str_eq, any, all,
  if◌then◌else◌,
}
use ktb4_15th_ai.S3Key.{codes, is_blank, valid_s3_key}

-- Python's `int`; `negsuc n` is -(n + 1).
pub data ℤ : Type 0 where
  pos : ℕ → ℤ
  negsuc : ℕ → ℤ

abbrev pub is_pos : ℤ → ℕ → Bool
is_pos (pos m) n = m == n
is_pos (negsuc _) n = false

-- A value in a JSON object; `other` is a number that is no `int`, a list or an object.
pub data Json : Type 0 where
  null : Json
  boolean : Bool → Json
  integer : ℤ → Json
  text : String → Json
  other : Json

-- A `dict` with texts as keys: no key is listed twice.
abbrev pub Fields : Type 0
Fields = List (String × Json)

pub data Error : Type 0 where
  -- `ValueError` or `TypeError`: nothing has been read or written.
  bad_input : Error
  -- `FittingDatabaseError`: the transaction is rolled back.
  database : Error

pub data Result {ℓ} (A : Type ℓ) : Type ℓ where
  ok : A → Result A
  err : Error → Result A

infixl 5 ◌>>=◌ ◌>>◌
abbrev pub ◌>>=◌ {ℓ κ} : {A : Type ℓ} {B : Type κ} → Result A → (A → Result B) → Result B
ok a >>= f = f a
err e >>= f = err e

abbrev pub ◌>>◌ {ℓ κ} : {A : Type ℓ} {B : Type κ} → Result A → Result B → Result B
m >> k = m >>= λ _. k

abbrev pub guard : Bool → Result (Unit {0})
guard true = ok tt
guard false = err bad_input

-- What `result_payload` holds, by its status.
pub data Payload : Type 0 where
  -- fitting_job_id, result_image_key, llm_title, llm_comment
  completed : ℤ → String → String → String → Payload
  -- fitting_job_id, error_code, error_message
  failed : ℤ → String → String → Payload

abbrev pub payload_job : Payload → ℤ
payload_job (completed j _ _ _) = j
payload_job (failed j _ _) = j

unfoldable pub lookup : String → Fields → Option Json
lookup k [] = none
lookup k ((j, v) ∷ r) = if str_eq j k then some v else lookup k r

abbrev pub success_fields : List String
success_fields = "fitting_job_id" ∷ "status" ∷ "result_image_key" ∷ "llm_title" ∷ "llm_comment" ∷ []

abbrev pub failure_fields : List String
failure_fields = "fitting_job_id" ∷ "status" ∷ "error_code" ∷ "error_message" ∷ []

-- `set(payload) == expected`.
abbrev pub has_fields : List String → Fields → Bool
has_fields expected p =
    all (λ e. any (λ kv. str_eq kv.0 e) p) expected && all (λ kv. any (str_eq kv.0) expected) p

-- An `int` that is no `bool`.
abbrev pub int_of : Option Json → Result ℤ
int_of (some (integer n)) = ok n
int_of _ = err bad_input

-- A `str` with more than white space.
unfoldable pub text_of : Option Json → Result String
unfolding is_blank
text_of (some (text t)) = if is_blank (codes t) then err bad_input else ok t
text_of _ = err bad_input

abbrev pub checked_key : String → Result String
checked_key k = if valid_s3_key k then ok k else err bad_input

unfoldable pub check_success : Fields → Result Payload
unfolding lookup text_of valid_s3_key
check_success p = do
  guard (has_fields success_fields p)
  job ← int_of (lookup "fitting_job_id" p)
  key ← text_of (lookup "result_image_key" p)
  title ← text_of (lookup "llm_title" p)
  comment ← text_of (lookup "llm_comment" p)
  key ← checked_key key
  ok (completed job key title comment)

unfoldable pub check_failure : Fields → Result Payload
unfolding lookup text_of
check_failure p = do
  guard (has_fields failure_fields p)
  job ← int_of (lookup "fitting_job_id" p)
  code ← text_of (lookup "error_code" p)
  message ← text_of (lookup "error_message" p)
  ok (failed job code message)

-- `_check_result_payload`, which branches on the `status` entry.
unfoldable pub check_by_status : Option Json → Fields → Result Payload
unfolding check_success check_failure
check_by_status (some (text s)) p =
    if str_eq s "COMPLETED"
    then check_success p
    else if str_eq s "FAILED"
    then check_failure p
    else err bad_input
check_by_status _ p = err bad_input

unfoldable pub check_result_payload : Fields → Result Payload
unfolding check_by_status lookup
check_result_payload p = check_by_status (lookup "status" p) p

-- The object that the code makes for a result: that of a success in `save_completed`, that of a failure in
-- `failure_payload`.
unfoldable pub to_fields : Payload → Fields
to_fields (completed j k t c) =
    ("fitting_job_id", integer j)
    ∷ ("status", text "COMPLETED")
    ∷ ("result_image_key", text k)
    ∷ ("llm_title", text t)
    ∷ ("llm_comment", text c)
    ∷ []
to_fields (failed j c m) =
    ("fitting_job_id", integer j)
    ∷ ("status", text "FAILED")
    ∷ ("error_code", text c)
    ∷ ("error_message", text m)
    ∷ []
