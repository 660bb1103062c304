-- ===== src/Checker/Kept.antt =====
-- internal/checker/checker.go and ssl.go: what every check leaves as it is in its result.
use pulse_pager.Prelude.{
  ℕ, ◌≡◌, refl, String, Bool, true, false, not, ◌&&◌, Option, none, some, is_some, [], ◌∷◌, pos,
  str_eq, ltb_ℤ, if◌then◌else◌,
}
use pulse_pager.Domain.{Monitor, MonitorType, CertInfo, CheckResult, FailureReason}
use pulse_pager.Domain.SslWarn.{ssl_warn_level}
use pulse_pager.Checker.{
  Resolution, no_host, resolved, blocked, unresolved, IoError, Reply, refused, response, Probe,
  new_result, truncate, snapshot_of, reason_of, read_error, with_reason, fail_response, is_mismatch,
  is_too_slow, lacks_text, assess, examine, send_request, check_http,
}
use pulse_pager.Checker.Ssl.{
  Handshake, dial_failed, connected, Verification, valid, expired, invalid, Tls, ssl_host_port,
  expiry_text, judge, dial, check_ssl, check,
}

-- The result is one of the monitor, with a snapshot only if the response is captured.
abbrev pub Keeps : Monitor → Bool → CheckResult → Type 0
Keeps m capture r = (r.monitor_id ≡ m.id) × (not capture && is_some r.snapshot ≡ false)

module _ (p : Probe) (t : Tls) (m : Monitor) (capture : Bool) where
  if-Keeps :
      (b : Bool) (x y : CheckResult)
      → Keeps m capture x
      → Keeps m capture y
      → Keeps m capture (if b then x else y)
  if-Keeps true x y h k = h
  if-Keeps false x y h k = k

  with_reason-Keeps :
      (res : CheckResult) (reason : FailureReason) (text : String)
      → Keeps m capture res
      → Keeps m capture (with_reason res reason text)
  unfolding with_reason
  with_reason-Keeps res reason text h = h

  fail_response-Keeps :
      (status : ℕ) (res : CheckResult) (reason : FailureReason)
      → Keeps m capture res
      → Keeps m capture (fail_response p capture status res reason)
  unfolding fail_response with_reason
  fail_response-Keeps status res reason (same, clean) = (same, by_case capture)
    where
      by_case :
          (c : Bool)
          → not c && is_some (if c then some (snapshot_of p status p.read_body) else none) ≡ false
      by_case true = refl
      by_case false = refl

  assess-Keeps :
      (status : ℕ) (res : CheckResult)
      → Keeps m capture res
      → Keeps m capture (assess p m capture status res)
  unfolding assess
  assess-Keeps status res h =
      if-Keeps (is_mismatch m status) _ _
        (fail_response-Keeps status res FailureReason.status_mismatch h)
        (if-Keeps (is_too_slow m.max_latency_ms p.latency) _ _
          (fail_response-Keeps status res FailureReason.latency_exceeded h)
          (if-Keeps (lacks_text p m.body_contains) _ _
            (fail_response-Keeps status res FailureReason.body_assertion h) h))

  examine-Keeps :
      (status : ℕ) (res : CheckResult)
      → Keeps m capture res
      → Keeps m capture (examine p m capture status res)
  unfolding examine
  examine-Keeps status res h = by_case (read_error m.body_contains p.read_body)
    where
      timed : CheckResult
      timed = record res { status_code = some status; latency_ms = some p.latency }

      by_case :
          (error : Option IoError)
          → Keeps m capture (elim error [
            | some e ↦ with_reason timed (reason_of e) (truncate p e.text)
            | none ↦ assess p m capture status timed
          ])
      by_case (some e) = with_reason-Keeps timed (reason_of e) (truncate p e.text) h
      by_case none = assess-Keeps status timed h

  send_request-Keeps :
      (res : CheckResult) → Keeps m capture res → Keeps m capture (send_request p m capture res)
  unfolding send_request
  send_request-Keeps res h = by_case p.build_error p.reply
    where
      by_case :
          (build : Option String) (r : Reply)
          → Keeps m capture (elim build [
            | some text ↦ with_reason res FailureReason.connection_error (truncate p text)
            | none ↦ elim r [
              | refused e ↦ with_reason res (reason_of e) (truncate p e.text)
              | response status ↦ examine p m capture status res
            ]
          ])
      by_case (some text) r =
          with_reason-Keeps res FailureReason.connection_error (truncate p text) h
      by_case none (refused e) = with_reason-Keeps res (reason_of e) (truncate p e.text) h
      by_case none (response status) = examine-Keeps status res h

  judge-Keeps :
      (leaf : CertInfo) (res : CheckResult)
      → Keeps m capture res
      → Keeps m capture (judge p t leaf res)
  unfolding judge
  judge-Keeps leaf res h = by_case (t.verify leaf)
    where
      text : String
      text = expiry_text t leaf.not_after p.now

      by_case :
          (v : Verification)
          → Keeps m capture (elim v [
            | expired ↦ with_reason res FailureReason.cert_expired text
            | invalid why ↦ with_reason res FailureReason.cert_invalid (truncate p why)
            | valid ↦
                if not (ltb_ℤ (ssl_warn_level leaf.not_after p.now) (pos 1))
                then with_reason res FailureReason.cert_expiring_soon text
                else record res { healthy = true; failure_reason = none }
          ])
      by_case expired = with_reason-Keeps res FailureReason.cert_expired text h
      by_case (invalid why) = with_reason-Keeps res FailureReason.cert_invalid (truncate p why) h
      by_case valid =
          if-Keeps (not (ltb_ℤ (ssl_warn_level leaf.not_after p.now) (pos 1))) _ _
            (with_reason-Keeps res FailureReason.cert_expiring_soon text h) h

  dial-Keeps : (res : CheckResult) → Keeps m capture res → Keeps m capture (dial p t res)
  unfolding dial
  dial-Keeps res h = by_case t.handshake
    where
      timed : CheckResult
      timed = record res { latency_ms = some p.latency }

      by_case :
          (s : Handshake)
          → Keeps m capture (elim s [
            | dial_failed e ↦ with_reason res (reason_of e) (truncate p e.text)
            | connected certs ↦ elim certs [
              | [] ↦ with_reason timed FailureReason.connection_error "no peer certificate"
              | ◌∷◌ leaf others ↦
                  judge p t leaf
                    (record timed { cert_expires_at = some leaf.not_after; cert_info = some leaf })
            ]
          ])
      by_case (dial_failed e) = with_reason-Keeps res (reason_of e) (truncate p e.text) h
      by_case (connected []) =
          with_reason-Keeps timed FailureReason.connection_error "no peer certificate" h
      by_case (connected (leaf ∷ others)) =
          judge-Keeps leaf
            (record timed { cert_expires_at = some leaf.not_after; cert_info = some leaf }) h

  -- The guard of both checks.
  guard-Keeps :
      (block : Bool) (r : Resolution) (res sent : CheckResult)
      → Keeps m capture res
      → Keeps m capture sent
      → Keeps m capture (
          if not block then sent else elim r [
            | no_host ↦ sent
            | resolved ↦ sent
            | blocked ↦ with_reason res FailureReason.blocked_target ""
            | unresolved text ↦ with_reason res FailureReason.connection_error (truncate p text)
          ])
  guard-Keeps false r res sent h k = k
  guard-Keeps true no_host res sent h k = k
  guard-Keeps true resolved res sent h k = k
  guard-Keeps true blocked res sent h k = with_reason-Keeps res FailureReason.blocked_target "" h
  guard-Keeps true (unresolved text) res sent h k =
      with_reason-Keeps res FailureReason.connection_error (truncate p text) h

  new_result-Keeps : Keeps m capture (new_result p m)
  new_result-Keeps = (refl, by_case capture)
    where
      by_case : (c : Bool) → not c && false ≡ false
      by_case true = refl
      by_case false = refl

  check_ssl-Keeps : Keeps m capture (check_ssl p t m)
  unfolding check_ssl
  check_ssl-Keeps =
      let res = new_result p m in
      if-Keeps (str_eq ((ssl_host_port p t m.url).0) "")
        (with_reason res FailureReason.connection_error "ssl monitor url has no host") _
        (with_reason-Keeps res FailureReason.connection_error "ssl monitor url has no host"
          new_result-Keeps)
        (guard-Keeps p.block_private_networks p.resolution res (dial p t res) new_result-Keeps
          (dial-Keeps res new_result-Keeps))

  check_http-Keeps : Keeps m capture (check_http p m capture)
  unfolding check_http
  check_http-Keeps =
      let res = new_result p m in
      guard-Keeps p.block_private_networks p.resolution res (send_request p m capture res)
        new_result-Keeps (send_request-Keeps res new_result-Keeps)

  -- A check's result is one of its monitor, and has a snapshot only if the response is captured.
  pub check-Keeps : Keeps m capture (check p t m capture)
  unfolding check
  check-Keeps = by_case m.type
    where
      by_case :
          (type : MonitorType)
          → Keeps m capture (elim type [
            | MonitorType.ssl ↦ check_ssl p t m
            | MonitorType.http ↦ check_http p m capture
          ])
      by_case MonitorType.ssl = check_ssl-Keeps
      by_case MonitorType.http = check_http-Keeps
