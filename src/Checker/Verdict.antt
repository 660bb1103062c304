-- ===== src/Checker/Verdict.antt =====
-- internal/checker/checker.go, checkHTTP: the verdict of a check, against the list of what it
-- finds fault with.
use pulse_pager.Prelude.{
  ◌≡◌, refl, String, Bool, true, false, not, Option, none, some, is_some, List, [], ◌∷◌, ◌++◌,
  subst, ℕ, leb, codes, ◌&&◌, arith, if◌then◌else◌,
}
use pulse_pager.Domain.{Monitor, CheckResult, FailureReason}
use pulse_pager.StatusCodes
use pulse_pager.StatusCodes.{trim_space, parse_status_codes, matches}
use pulse_pager.Checker.{
  Resolution, no_host, resolved, blocked, unresolved, IoError, Reply, refused, response, Body,
  unreadable, body, Probe, new_result, truncate, snapshot_of, reason_of, read_error, with_reason,
  fail_response, not_empty, refuses, text_of, is_mismatch, is_too_slow, lacks_text, assess, examine,
  send_request, check_http,
}

-- The faults are listed in the order in which they are reported.
abbrev pub Faults : Type 0
Faults = List (Bool × FailureReason)

abbrev pub first_fault : Faults → Option FailureReason
first_fault [] = none
first_fault ((true, reason) ∷ fs) = some reason
first_fault ((false, reason) ∷ fs) = first_fault fs

abbrev pub target_faults : Resolution → Faults
target_faults no_host = []
target_faults resolved = []
target_faults blocked = (true, FailureReason.blocked_target) ∷ []
target_faults (unresolved text) = (true, FailureReason.connection_error) ∷ []

abbrev pub io_faults : IoError → Faults
io_faults e = (e.is_timeout, FailureReason.timeout) ∷ (true, FailureReason.connection_error) ∷ []

abbrev body_faults : Option String → Body → Faults
body_faults none b = []
body_faults (some wanted) (unreadable e) = io_faults e
body_faults (some wanted) (body text cut) = []

-- Is there a spec of status codes that is not blank, and is it no spec of the status?
abbrev is_unexpected : List ℕ → ℕ → Bool
is_unexpected spec status = elim (trim_space spec) [
  | [] ↦ false
  | ◌∷◌ c cs ↦ elim (parse_status_codes spec) [
    | StatusCodes.Result.ok matcher ↦ if matches matcher status then false else true
    | StatusCodes.Result.err e ↦ true
  ]
]

-- Is there a bound on the latency that is passed?
abbrev is_late : Option ℕ → ℕ → Bool
is_late (some most) latency = not (leb latency most)
is_late none latency = false

-- Is there a wanted text that the body does not contain?
abbrev is_missing : (String → String → Bool) → Option String → Body → Bool
is_missing contains (some wanted) (body text cut) = if contains text wanted then false else true
is_missing contains (some wanted) (unreadable e) = if contains "" wanted then false else true
is_missing contains none b = false

abbrev response_faults : Probe → Monitor → ℕ → Faults
response_faults p m status =
    (is_unexpected (codes m.expected_status_codes) status, FailureReason.status_mismatch)
    ∷ (is_late m.max_latency_ms p.latency, FailureReason.latency_exceeded)
    ∷ (is_missing p.contains m.body_contains p.read_body, FailureReason.body_assertion)
    ∷ []

is_mismatch-is_unexpected :
    (m : Monitor) (status : ℕ)
    → is_mismatch m status ≡ is_unexpected (codes m.expected_status_codes) status
unfolding is_mismatch
is_mismatch-is_unexpected m status =
    by_case (trim_space (codes m.expected_status_codes))
      (parse_status_codes (codes m.expected_status_codes))
  where
    by_case :
        (trimmed : List ℕ) (parsed : StatusCodes.Result)
        → (not_empty trimmed && refuses parsed status) ≡ elim trimmed [
          | [] ↦ false
          | ◌∷◌ c cs ↦ elim parsed [
            | StatusCodes.Result.ok matcher ↦ if matches matcher status then false else true
            | StatusCodes.Result.err e ↦ true
          ]
        ]
    by_case [] parsed = refl
    by_case (c ∷ cs) (StatusCodes.Result.ok matcher) = ground arith
    by_case (c ∷ cs) (StatusCodes.Result.err e) = refl

is_too_slow-is_late :
    (most : Option ℕ) (latency : ℕ) → is_too_slow most latency ≡ is_late most latency
unfolding is_too_slow
is_too_slow-is_late none latency = refl
is_too_slow-is_late (some most) latency = ground arith

lacks_text-is_missing :
    (p : Probe) (wanted : Option String)
    → lacks_text p wanted ≡ is_missing p.contains wanted p.read_body
unfolding lacks_text
lacks_text-is_missing p none = refl
lacks_text-is_missing p (some wanted) = by_case p.read_body
  where
    by_case :
        (b : Body) → not (p.contains (text_of b) wanted) ≡ is_missing p.contains (some wanted) b
    by_case (body text cut) = ground arith
    by_case (unreadable e) = ground arith

abbrev reply_faults : Probe → Monitor → Reply → Faults
reply_faults p m (refused e) = io_faults e
reply_faults p m (response status) =
    body_faults m.body_contains p.read_body ++ response_faults p m status

abbrev pub faults : Probe → Monitor → Faults
faults p m =
    (if p.block_private_networks then target_faults p.resolution else [])
    ++ ((is_some p.build_error, FailureReason.connection_error) ∷ reply_faults p m p.reply)

-- Is the result the verdict that the reason says?
abbrev pub Reports : CheckResult → Option FailureReason → Type 0
Reports r reason = (r.failure_reason ≡ reason) × (r.healthy ≡ not (is_some reason))

pub first_fault-if :
    (b : Bool) (reason : FailureReason) (fs : Faults) (x y : CheckResult)
    → Reports x (some reason)
    → Reports y (first_fault fs)
    → Reports (if b then x else y) (first_fault ((b, reason) ∷ fs))
first_fault-if true reason fs x y h k = h
first_fault-if false reason fs x y h k = k

first_fault-same :
    (b b' : Bool) (reason : FailureReason) (fs : Faults) (x y : CheckResult)
    → b ≡ b'
    → Reports x (some reason)
    → Reports y (first_fault fs)
    → Reports (if b then x else y) (first_fault ((b', reason) ∷ fs))
first_fault-same b b' reason fs x y e h k =
    subst (λ c. Reports (if b then x else y) (first_fault ((c, reason) ∷ fs))) e
      (first_fault-if b reason fs x y h k)

pub with_reason-Reports :
    (res : CheckResult) (reason : FailureReason) (text : String)
    → Reports (with_reason res reason text) (some reason)
unfolding with_reason
with_reason-Reports res reason text = (refl, refl)

pub with_reason_of-Reports :
    (res : CheckResult) (e : IoError) (text : String) (fs : Faults)
    → Reports (with_reason res (reason_of e) text) (first_fault (io_faults e ++ fs))
with_reason_of-Reports res e text fs = by_case e.is_timeout
  where
    by_case :
        (b : Bool)
        → Reports
            (with_reason res
              (if b then FailureReason.timeout else FailureReason.connection_error)
              text)
            (first_fault ((b, FailureReason.timeout) ∷ (true, FailureReason.connection_error) ∷ fs))
    by_case true = with_reason-Reports res FailureReason.timeout text
    by_case false = with_reason-Reports res FailureReason.connection_error text

module _ (p : Probe) (m : Monitor) (capture : Bool) where
  fail_response-Reports :
      (status : ℕ) (res : CheckResult) (reason : FailureReason)
      → Reports (fail_response p capture status res reason) (some reason)
  unfolding fail_response
  fail_response-Reports status res reason =
      let snap = snapshot_of p status p.read_body in
      with_reason-Reports (record res { snapshot = if capture then some snap else none }) reason ""

  assess-Reports :
      (status : ℕ) (res : CheckResult)
      → Reports (assess p m capture status res) (first_fault (response_faults p m status))
  unfolding assess
  assess-Reports status res =
      first_fault-same _ _ _ _ _ _ (is_mismatch-is_unexpected m status)
        (fail_response-Reports status res FailureReason.status_mismatch)
        (first_fault-same _ _ _ _ _ _ (is_too_slow-is_late m.max_latency_ms p.latency)
          (fail_response-Reports status res FailureReason.latency_exceeded)
          (first_fault-same _ _ _ _ _ _ (lacks_text-is_missing p m.body_contains)
            (fail_response-Reports status res FailureReason.body_assertion) (refl, refl)))

  examine-Reports :
      (status : ℕ) (res : CheckResult)
      → Reports (examine p m capture status res) (first_fault (reply_faults p m (response status)))
  unfolding examine
  examine-Reports status res = by_case m.body_contains p.read_body
    where
      timed : CheckResult
      timed = record res { status_code = some status; latency_ms = some p.latency }

      by_case :
          (wanted : Option String) (b : Body)
          → Reports
              (elim (read_error wanted b) [
                | some e ↦ with_reason timed (reason_of e) (truncate p e.text)
                | none ↦ assess p m capture status timed
              ])
              (first_fault (body_faults wanted b ++ response_faults p m status))
      by_case none b = assess-Reports status timed
      by_case (some w) (unreadable e) =
          with_reason_of-Reports timed e (truncate p e.text) (response_faults p m status)
      by_case (some w) (body text cut) = assess-Reports status timed

  send_request-Reports :
      (res : CheckResult)
      → Reports (send_request p m capture res) (
          first_fault
            ((is_some p.build_error, FailureReason.connection_error) ∷ reply_faults p m p.reply))
  unfolding send_request
  send_request-Reports res = by_case p.build_error p.reply
    where
      by_case :
          (build : Option String) (r : Reply)
          → Reports
              (elim build [
                | some text ↦ with_reason res FailureReason.connection_error (truncate p text)
                | none ↦ elim r [
                  | refused e ↦ with_reason res (reason_of e) (truncate p e.text)
                  | response status ↦ examine p m capture status res
                ]
              ])
              (first_fault ((is_some build, FailureReason.connection_error) ∷ reply_faults p m r))
      by_case (some text) r =
          with_reason-Reports res FailureReason.connection_error (truncate p text)
      by_case none (refused e) = with_reason_of-Reports res e (truncate p e.text) []
      by_case none (response status) = examine-Reports status res

  pub check_http-Reports : Reports (check_http p m capture) (first_fault (faults p m))
  unfolding check_http
  check_http-Reports = by_case p.block_private_networks p.resolution
    where
      sent : CheckResult
      sent = send_request p m capture (new_result p m)

      by_case :
          (block : Bool) (r : Resolution)
          → Reports
              (if not block then sent else elim r [
                | no_host ↦ sent
                | resolved ↦ sent
                | blocked ↦ with_reason (new_result p m) FailureReason.blocked_target ""
                | unresolved text ↦
                    with_reason (new_result p m) FailureReason.connection_error (truncate p text)
              ])
              (first_fault (
                (if block then target_faults r else [])
                ++ ((is_some p.build_error, FailureReason.connection_error)
                    ∷ reply_faults p m p.reply)))
      by_case false r = send_request-Reports (new_result p m)
      by_case true no_host = send_request-Reports (new_result p m)
      by_case true resolved = send_request-Reports (new_result p m)
      by_case true blocked = with_reason-Reports (new_result p m) FailureReason.blocked_target ""
      by_case true (unresolved text) =
          with_reason-Reports (new_result p m) FailureReason.connection_error (truncate p text)
