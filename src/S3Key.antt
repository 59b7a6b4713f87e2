-- ===== src/S3Key.antt =====
-- `validate_s3_key` of app/clients/s3.py: the relative keys of objects in the bucket.
use Prim.Native.Char.{code}
use ktb4_15th_ai.Prelude.{
  ℕ, ◌+◌, String, Bool, true, false, not, ◌&&◌, ◌||◌, List, [], ◌∷◌, ◌==◌, ltb, leb, any, all,
  if◌then◌else◌,
}

-- The code points of a text.
abbrev pub codes : String → List ℕ
codes String.[] = []
codes (String.◌∷◌ c s) = code c ∷ codes s

abbrev pub max_key_bytes : ℕ
max_key_bytes = 1024

-- `str.isspace` of one character.
unfoldable pub is_space : ℕ → Bool
is_space c =
    leb 9 c && leb c 13
    || leb 28 c && leb c 32
    || c == 133
    || c == 160
    || c == 5760
    || leb 8192 c && leb c 8202
    || c == 8232
    || c == 8233
    || c == 8239
    || c == 8287
    || c == 12288

-- `not text.strip()`.
unfoldable pub is_blank : List ℕ → Bool
unfolding is_space
is_blank = all is_space

last_is_space : List ℕ → Bool
unfolding is_space
last_is_space [] = false
last_is_space (c ∷ []) = is_space c
last_is_space (c ∷ d ∷ r) = last_is_space (d ∷ r)

first_is_space : List ℕ → Bool
unfolding is_space
first_is_space [] = false
first_is_space (c ∷ r) = is_space c

-- The length of the UTF-8 encoding.
unfoldable pub utf8_length : List ℕ → ℕ
utf8_length [] = 0
utf8_length (c ∷ r) =
    (if ltb c 128 then 1 else if ltb c 2048 then 2 else if ltb c 65536 then 3 else 4)
    + utf8_length r

abbrev is_control : ℕ → Bool
is_control c = ltb c 32 || c == 127

-- One more character in front of the first part.
abbrev grow : ℕ → List (List ℕ) → List (List ℕ)
grow d [] = (d ∷ []) ∷ []
grow d (p ∷ ps) = (d ∷ p) ∷ ps

-- `key.split("/")`.
abbrev split_parts : List ℕ → List (List ℕ)
split_parts [] = [] ∷ []
split_parts (c ∷ r) = if c == b'/' then [] ∷ split_parts r else grow c (split_parts r)

-- `part in ("", ".", "..")`.
abbrev bad_part : List ℕ → Bool
bad_part [] = true
bad_part (a ∷ []) = a == b'.'
bad_part (a ∷ b ∷ []) = a == b'.' && b == b'.'
bad_part _ = false

abbrev is_empty : List ℕ → Bool
is_empty [] = true
is_empty _ = false

-- Whether `validate_s3_key` returns the key; otherwise it raises `InvalidS3KeyError`.
unfoldable pub valid_s3_key : String → Bool
unfolding first_is_space last_is_space utf8_length
valid_s3_key key =
    let cs = codes key in
    not (is_empty cs)
    && not (first_is_space cs || last_is_space cs)
    && leb (utf8_length cs) max_key_bytes
    && not (any is_control cs)
    && not (any bad_part (split_parts cs))
