-- ===== src/Checker.antt =====
-- internal/checker/checker.go: one http check. A Probe says what the network, the clock and the
-- standard library answer: the resolution of the host, the request, the response, the body, the
-- milliseconds that have passed, strings.TrimSpace and strings.Contains. The spec of the expected
-- status codes is ASCII. The body's cap and the request's own fields are left out.
pub mod Verdict
pub mod Ssl
pub mod Certificate
pub mod Kept
use pulse_pager.Prelude.{
  ℕ, zero, suc, String, Bool, true, false, not, ◌&&◌, ◌||◌, Option, none, some, is_some, List, [],
  ◌∷◌, str_eq, ltb, codes, if◌then◌else◌,
}
use pulse_pager.Domain.{
  Time, zero_time, Header, Monitor, CheckResult, FailureReason, ResponseSnapshot,
}
use pulse_pager.StatusCodes
use pulse_pager.StatusCodes.{matches, parse_status_codes, trim_space}

-- The pre-resolve: the URL has no host, or its host resolves, is blocked, or cannot be resolved.
pub data Resolution : Type 0 where
  no_host resolved blocked : Resolution
  unresolved : String → Resolution

-- An I/O error: does it stem from the deadline, and its text.
pub record IoError : Type 0 where
  pub is_timeout : Bool
  pub text : String

-- client.Do
pub data Reply : Type 0 where
  refused : IoError → Reply
  response : ℕ → Reply

-- readBodyCapped: the text, and whether it was cut
pub data Body : Type 0 where
  unreadable : IoError → Body
  body : String → Bool → Body

pub record Probe : Type 0 where
  pub block_private_networks : Bool
  pub max_error_text_len : ℕ
  pub resolution : Resolution
  -- the error of NewRequestWithContext
  pub build_error : Option String
  pub reply : Reply
  pub read_body : Body
  pub headers : List Header
  pub latency : ℕ
  pub now : Time
  pub trim_space : String → String
  pub contains : String → String → Bool

abbrev first_runes : ℕ → String → String
first_runes zero s = String.[]
first_runes (suc n) String.[] = String.[]
first_runes (suc n) (String.◌∷◌ c s) = String.◌∷◌ c (first_runes n s)

-- truncate. A text of at most n bytes has at most n runes.
unfoldable pub truncate : Probe → String → String
truncate p s = first_runes p.max_error_text_len (p.trim_space s)

-- The result that a check starts from.
abbrev pub new_result : Probe → Monitor → CheckResult
new_result p m = record {
  id = 0;
  org_id = 0;
  monitor_id = m.id;
  region = "";
  scheduled_at = zero_time;
  checked_at = p.now;
  healthy = false;
  failure_reason = none;
  status_code = none;
  latency_ms = none;
  error_text = none;
  cert_expires_at = none;
  snapshot = none;
  cert_info = none;
}

-- withReason
unfoldable pub with_reason : CheckResult → FailureReason → String → CheckResult
with_reason res reason text = record res {
  healthy = false;
  failure_reason = some reason;
  error_text = if str_eq text "" then res.error_text else some text;
}

abbrev pub reason_of : IoError → FailureReason
reason_of e = if e.is_timeout then FailureReason.timeout else FailureReason.connection_error

-- The closure `snapshot`, on what is read of the body. A read that fails here leaves it empty.
abbrev pub snapshot_of : Probe → ℕ → Body → ResponseSnapshot
snapshot_of p status (unreadable e) = record {
  status_code = some status;
  snapshot_headers = p.headers;
  snapshot_body = "";
  truncated = false;
}
snapshot_of p status (body text cut) = record {
  status_code = some status;
  snapshot_headers = p.headers;
  snapshot_body = text;
  truncated = cut;
}

-- A failed assertion on the response.
unfoldable pub fail_response : Probe → Bool → ℕ → CheckResult → FailureReason → CheckResult
unfolding with_reason
fail_response p capture status res reason =
    let snap = snapshot_of p status p.read_body in
    with_reason (record res { snapshot = if capture then some snap else none }) reason ""

abbrev pub not_empty : List ℕ → Bool
not_empty [] = false
not_empty (x ∷ xs) = true

abbrev pub refuses : StatusCodes.Result → ℕ → Bool
refuses (StatusCodes.Result.err e) status = true
refuses (StatusCodes.Result.ok m) status = not (matches m status)

-- checkStatus, and the first assertion
unfoldable pub is_mismatch : Monitor → ℕ → Bool
is_mismatch m status =
    not_empty (trim_space (codes m.expected_status_codes))
    && refuses (parse_status_codes (codes m.expected_status_codes)) status

unfoldable pub is_too_slow : Option ℕ → ℕ → Bool
is_too_slow none latency = false
is_too_slow (some most) latency = ltb most latency

abbrev pub text_of : Body → String
text_of (unreadable e) = ""
text_of (body text cut) = text

unfoldable pub lacks_text : Probe → Option String → Bool
lacks_text p none = false
lacks_text p (some wanted) = not (p.contains (text_of p.read_body) wanted)

-- checkHTTP, from the assertions on
unfoldable pub assess : Probe → Monitor → Bool → ℕ → CheckResult → CheckResult
unfolding fail_response is_mismatch is_too_slow lacks_text
assess p m capture status res =
    if is_mismatch m status
    then fail_response p capture status res FailureReason.status_mismatch
    else if is_too_slow m.max_latency_ms p.latency
    then fail_response p capture status res FailureReason.latency_exceeded
    else if lacks_text p m.body_contains
    then fail_response p capture status res FailureReason.body_assertion
    else record res { healthy = true; failure_reason = none }

-- The read of a body on which there is an assertion: its error, if there is one.
abbrev pub read_error : Option String → Body → Option IoError
read_error none b = none
read_error (some wanted) (unreadable e) = some e
read_error (some wanted) (body text cut) = none

-- checkHTTP, from the response on
unfoldable pub examine : Probe → Monitor → Bool → ℕ → CheckResult → CheckResult
unfolding assess with_reason truncate
examine p m capture status res =
    let timed = record res { status_code = some status; latency_ms = some p.latency } in
    elim (read_error m.body_contains p.read_body) [
      | some e ↦ with_reason timed (reason_of e) (truncate p e.text)
      | none ↦ assess p m capture status timed
    ]

-- checkHTTP, from the building of the request on
unfoldable pub send_request : Probe → Monitor → Bool → CheckResult → CheckResult
unfolding examine with_reason truncate
send_request p m capture res = elim p.build_error [
  | some text ↦ with_reason res FailureReason.connection_error (truncate p text)
  | none ↦ elim p.reply [
    | refused e ↦ with_reason res (reason_of e) (truncate p e.text)
    | response status ↦ examine p m capture status res
  ]
]

-- checkHTTP
unfoldable pub check_http : Probe → Monitor → Bool → CheckResult
unfolding send_request with_reason truncate
check_http p m capture =
    let res = new_result p m in
    let sent = send_request p m capture res in
    if not p.block_private_networks then sent else elim p.resolution [
      | no_host ↦ sent
      | resolved ↦ sent
      | blocked ↦ with_reason res FailureReason.blocked_target ""
      | unresolved text ↦ with_reason res FailureReason.connection_error (truncate p text)
    ]
