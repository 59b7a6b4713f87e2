-- ===== src/Async.antt =====
-- The keys of app/virtual_fitting/async_storage.py and the requests of
-- app/virtual_fitting/async_request.py.
use Prim.Native.String.{◌++◌}
use ktb4_15th_ai.Prelude.{ℕ, zero, suc, ◌/◌, ◌%◌, String, ◌≡◌, refl, ◌==◌, ltb, if◌then◌else◌}

abbrev digit : ℕ → String
digit n =
    if n == 0
    then "0"
    else if n == 1
    then "1"
    else if n == 2
    then "2"
    else if n == 3
    then "3"
    else if n == 4
    then "4"
    else if n == 5
    then "5"
    else if n == 6
    then "6"
    else if n == 7
    then "7"
    else if n == 8
    then "8"
    else "9"

decimal_on : ℕ → ℕ → String
decimal_on zero n = ""
decimal_on (suc fuel) n =
    let longer = decimal_on fuel (n / 10) ++ digit (n % 10) in if ltb n 10 then digit n else longer

-- `str(n)`, of a number with at most 20 digits.
unfoldable pub decimal : ℕ → String
unfolding decimal_on
decimal n = decimal_on 20 n

-- `async_result_key`.
unfoldable pub async_result_key : ℕ → String
unfolding decimal
async_result_key id = "virtual-fitting/results/" ++ decimal id ++ "/pruna-async.webp"

number : decimal 40719 ≡ "40719"
unfolding decimal
number = refl
