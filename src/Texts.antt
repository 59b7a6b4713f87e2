-- ===== src/Texts.antt =====
-- Two checks of texts: the reason codes of app/virtual_fitting/repositories/async_job_state.py, and
-- `check_runware_image_url` of app/virtual_fitting/repositories/async_job_repository.py.
use ktb4_15th_ai.Prelude.{
  ℕ, ◌+◌, ◌-◌, ◌*◌, String, Bool, true, false, not, ◌&&◌, ◌||◌, Option, none, some, List, [], ◌∷◌,
  ◌==◌, ltb, leb, all, any, length, if◌then◌else◌,
}
use ktb4_15th_ai.S3Key.{codes, is_space}

abbrev is_code_char : ℕ → Bool
is_code_char c =
    leb b'A' c && leb c b'Z'
    || leb b'a' c && leb c b'z'
    || leb b'0' c && leb c b'9'
    || c == b'_'
    || c == b'.'
    || c == b'-'

-- `^[A-Za-z0-9_.-]{1,64}$` as the database reads it.
unfoldable pub is_code : List ℕ → Bool
is_code cs = all is_code_char cs && ltb 0 (length cs) && leb (length cs) 64

-- Python's `$` also matches in front of a newline that ends the text.
abbrev drop_newline : List ℕ → List ℕ
drop_newline [] = []
drop_newline (c ∷ []) = if c == 10 then [] else c ∷ []
drop_newline (c ∷ d ∷ r) = c ∷ drop_newline (d ∷ r)

-- `_SAFE_CODE.match`.
unfoldable pub is_safe_code : String → Bool
unfolding is_code
is_safe_code t = is_code (codes t) || is_code (drop_newline (codes t))

abbrev same_codes : List ℕ → List ℕ → Bool
same_codes [] [] = true
same_codes (a ∷ r) (b ∷ s) = a == b && same_codes r s
same_codes _ _ = false

-- The rest of a text after a prefix.
abbrev after_prefix : List ℕ → List ℕ → Option (List ℕ)
after_prefix [] s = some s
after_prefix (a ∷ r) (b ∷ s) = if a == b then after_prefix r s else none
after_prefix _ _ = none

-- `urlsplit(url).netloc`, of the text behind `https://`.
abbrev net_location : List ℕ → List ℕ
net_location [] = []
net_location (c ∷ r) = if c == b'/' || c == b'?' || c == b'#' then [] else c ∷ net_location r

abbrev lower : ℕ → ℕ
lower c = if leb b'A' c && leb c b'Z' then c + 32 else c

abbrev lower_all : List ℕ → List ℕ
lower_all [] = []
lower_all (c ∷ r) = lower c ∷ lower_all r

abbrev decimal : ℕ → List ℕ → Option ℕ
decimal n [] = some n
decimal n (c ∷ r) = if leb b'0' c && leb c b'9' then decimal (n * 10 + (c - b'0')) r else none

-- No port, or port 443.
abbrev default_port : List ℕ → Bool
default_port [] = true
default_port (c ∷ []) = c == b':'
default_port (c ∷ d ∷ r) =
    c == b':' && elim (decimal 0 (d ∷ r)) [ none ↦ false | some n ↦ n == 443 ]

abbrev max_url_length : ℕ
max_url_length = 2048

-- The one host of `RUNWARE_IMAGE_HOSTS`, with the default port and no user information.
abbrev image_server : List ℕ → Bool
image_server location = elim (after_prefix (codes "im.runware.ai") (lower_all location)) [
  | none ↦ false
  | some port ↦ default_port port
]

abbrev image_address : Option (List ℕ) → Bool
image_address none = false
image_address (some rest) = image_server (net_location rest)

-- Whether `check_runware_image_url` returns the address. `str.isprintable` of a character rests on the
-- tables of Unicode, and is an argument.
unfoldable pub is_image_url : (ℕ → Bool) → String → Bool
unfolding is_space
is_image_url is_printable url =
    let cs = codes url in
    ltb 0 (length cs)
    && leb (length cs) max_url_length
    && not (any (λ c. is_space c || not (is_printable c)) cs)
    && image_address (after_prefix (codes "https://") cs)
