-- ===== src/Api/Text.antt =====
-- internal/httpapi/server.go: what requests carry as text, and the numbers that limit their answers.
pub mod Slug
use Prim.Native.Char.{Char, code}
use Prim.Native.String.{◌++◌}
use lecrev.Prelude.{
  ℕ, zero, suc, ◌+◌, ◌-◌, ◌*◌, ◌/◌, String, Bool, true, false, not, ◌&&◌, ◌||◌, List, [], ◌∷◌,
  Option, none, some, ltb, leb, ◌==◌, if◌then◌else◌, length, str_eq,
}
use lecrev.Prelude.Int.{ℤ, pos, negsuc, ltb_ℤ, pos_part}
use lecrev.Prelude.Text.{trim_space, quote}
use lecrev.Errors.{Result, ok, err, other}
use lecrev.Domain.{Time, HttpTriggerAuthMode, ExecutionJob, JobResult, Attempt, terminal}

-- The code of a character's lower case, where that is an ASCII character; the lower case of any
-- other is none.
abbrev pub lower_code : ℕ → ℕ
lower_code n =
    if leb 65 n && leb n 90 then n + 32 else if n == 8490 then 107 else if n == 304 then 105 else n

abbrev pub is_slug_code : ℕ → Bool
is_slug_code n = (leb 97 n && leb n 122) || (leb 48 n && leb n 57)

abbrev pub nth_char : ℕ → String → Char → Char
nth_char n String.[] default = default
nth_char zero (String.◌∷◌ c s) default = c
nth_char (suc n) (String.◌∷◌ c s) default = nth_char n s default

-- A letter or digit in its lower case.
unfoldable pub lower_char : Char → Char
lower_char c =
    if lower_code (code c) == code c
    then c
    else nth_char (lower_code (code c) - 97) "abcdefghijklmnopqrstuvwxyz" c

-- The loop: whether anything is written, and whether a dash was last.
unfoldable pub slug_loop : String → Bool → Bool → String
unfolding lower_char
slug_loop String.[] started last_dash = ""
slug_loop (String.◌∷◌ c s) started last_dash = elim (is_slug_code (lower_code (code c))) [
  | true ↦ String.◌∷◌ (lower_char c) (slug_loop s true false)
  | false ↦ elim (not started || last_dash) [
    | true ↦ slug_loop s started last_dash
    | false ↦ String.◌∷◌ "-" (slug_loop s true true)
  ]
]

-- A character in front of a text whose dashes at the end are dropped already.
abbrev pub cons_undashed : Char → String → String
cons_undashed c String.[] = if code c == 45 then String.[] else String.◌∷◌ c String.[]
cons_undashed c (String.◌∷◌ d s) = String.◌∷◌ c (String.◌∷◌ d s)

unfoldable pub trim_dashes_right : String → String
trim_dashes_right String.[] = String.[]
trim_dashes_right (String.◌∷◌ c s) = cons_undashed c (trim_dashes_right s)

unfoldable pub trim_dashes_left : String → String
trim_dashes_left String.[] = String.[]
trim_dashes_left (String.◌∷◌ c s) =
    let rest = trim_dashes_left s in if code c == 45 then rest else String.◌∷◌ c s

unfoldable pub normalize_project_id : String → String → String
unfolding slug_loop trim_dashes_right trim_dashes_left
normalize_project_id raw_id name =
    let source = if str_eq (trim_space raw_id) "" then name else trim_space raw_id in
    trim_dashes_right (trim_dashes_left (slug_loop source false false))

-- strings.ToLower(s) == t, at an ASCII text t.
abbrev pub lower_is : String → String → Bool
lower_is String.[] String.[] = true
lower_is String.[] (String.◌∷◌ d t) = false
lower_is (String.◌∷◌ c s) String.[] = false
lower_is (String.◌∷◌ c s) (String.◌∷◌ d t) = lower_code (code c) == code d && lower_is s t

unfoldable pub normalize_http_trigger_auth_mode : String → Result HttpTriggerAuthMode
normalize_http_trigger_auth_mode raw =
    let mode = trim_space raw in
    if str_eq mode "" || lower_is mode "none"
    then ok HttpTriggerAuthMode.no_auth
    else if lower_is mode "api_key"
    then ok HttpTriggerAuthMode.api_key
    else err (other ("unsupported http trigger authMode " ++ quote raw))

unfoldable pub idempotency_key : String → String → String
idempotency_key header_value body_value =
    if not (str_eq (trim_space header_value) "")
    then trim_space header_value
    else trim_space body_value

-- In seconds.
unfoldable pub http_trigger_timeout : ℤ → ℕ
http_trigger_timeout timeout_sec =
    if ltb_ℤ (pos 0) timeout_sec
    then (if ltb 180 (pos_part timeout_sec + 10) then 180 else pos_part timeout_sec + 10)
    else 30

-- In milliseconds, of times in nanoseconds.
unfoldable pub compute_latency_ms : Time → Time → ℕ
compute_latency_ms started_at finished_at =
    if started_at == 0 || finished_at == 0 || ltb finished_at started_at
    then 0
    else if (finished_at - started_at) / 1000000 == 0 && ltb started_at finished_at
    then 1
    else (finished_at - started_at) / 1000000

abbrev result_latency : Option JobResult → Option JobResult
result_latency none = none
result_latency (some r) =
    some (record r { latency_ms = compute_latency_ms r.started_at r.finished_at })

unfoldable pub with_job_latency : ExecutionJob → ExecutionJob
unfolding compute_latency_ms
with_job_latency job = record job { result = result_latency job.result }

unfoldable pub with_attempt_latency : List Attempt → List Attempt
unfolding compute_latency_ms
with_attempt_latency [] = []
with_attempt_latency (a ∷ attempts) =
    (if terminal a.state
      then record a { latency_ms = compute_latency_ms a.started_at a.updated_at }
      else a)
    ∷ with_attempt_latency attempts

abbrev limit_of : Option ℤ → String → Result ℕ
limit_of none text = err (other ("invalid limit " ++ quote text))
limit_of (some limit) text =
    if ltb_ℤ limit (pos 1) || ltb_ℤ (pos 200) limit
    then err (other "limit must be between 1 and 200")
    else ok (pos_part limit)

-- The query's text; strconv.Atoi is a parameter.
unfoldable pub query_limit : (String → Option ℤ) → String → ℕ → Result ℕ
query_limit atoi text fallback =
    if str_eq (trim_space text) ""
    then ok fallback
    else limit_of (atoi (trim_space text)) (trim_space text)
