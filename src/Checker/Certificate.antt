-- ===== src/Checker/Certificate.antt =====
-- internal/checker/ssl.go, and Check of checker.go: the verdict of a check, against the list of
-- what it finds fault with.
use pulse_pager.Prelude.{
  ◌+◌, ◌*◌, ◌≡◌, refl, subst, String, Bool, true, false, not, ◌&&◌, none, some, [], ◌∷◌, ◌++◌, pos,
  str_eq, ltb, leb, ltb_ℤ, if◌then◌else◌, arith,
}
use pulse_pager.Domain.{Time, Monitor, MonitorType, CertInfo, CheckResult, FailureReason}
use pulse_pager.Domain.SslWarn.{day, ssl_warn_level}
use pulse_pager.Checker.{
  Resolution, no_host, resolved, blocked, unresolved, Probe, truncate, new_result, with_reason,
  reason_of, check_http,
}
use pulse_pager.Checker.Ssl.{
  Handshake, dial_failed, connected, Verification, valid, expired, invalid, Tls, ssl_host_port,
  expiry_text, judge, dial, check_ssl, check,
}
use pulse_pager.Checker.Verdict.{
  Faults, first_fault, target_faults, io_faults, Reports, first_fault-if, with_reason-Reports,
  with_reason_of-Reports, faults, check_http-Reports,
}

-- Does it end within seven days?
abbrev is_ending : Time → Time → Bool
is_ending now not_after = ltb now not_after && leb not_after (now + 7 * day)

abbrev verify_faults : Time → CertInfo → Verification → Faults
verify_faults now leaf expired = (true, FailureReason.cert_expired) ∷ []
verify_faults now leaf (invalid text) = (true, FailureReason.cert_invalid) ∷ []
verify_faults now leaf valid = (is_ending now leaf.not_after, FailureReason.cert_expiring_soon) ∷ []

abbrev handshake_faults : Probe → Tls → Handshake → Faults
handshake_faults p t (dial_failed e) = io_faults e
handshake_faults p t (connected []) = (true, FailureReason.connection_error) ∷ []
handshake_faults p t (connected (leaf ∷ others)) = verify_faults p.now leaf (t.verify leaf)

abbrev ssl_faults : Probe → Tls → Monitor → Faults
ssl_faults p t m =
    (str_eq ((ssl_host_port p t m.url).0) "", FailureReason.connection_error)
    ∷ ((if p.block_private_networks then target_faults p.resolution else [])
        ++ handshake_faults p t t.handshake)

abbrev pub check_faults : Probe → Tls → Monitor → MonitorType → Faults
check_faults p t m MonitorType.ssl = ssl_faults p t m
check_faults p t m MonitorType.http = faults p m

ssl_warn_level-is_ending :
    (not_after now : Time)
    → not (ltb_ℤ (ssl_warn_level not_after now) (pos 1)) ≡ is_ending now not_after
unfolding ssl_warn_level
ssl_warn_level-is_ending not_after now = ground arith

module _ (p : Probe) (t : Tls) where
  judge-Reports :
      (leaf : CertInfo) (res : CheckResult)
      → Reports (judge p t leaf res) (first_fault (verify_faults p.now leaf (t.verify leaf)))
  unfolding judge
  judge-Reports leaf res = by_case (t.verify leaf)
    where
      text : String
      text = expiry_text t leaf.not_after p.now

      soon : CheckResult
      soon = with_reason res FailureReason.cert_expiring_soon text

      fine : CheckResult
      fine = record res { healthy = true; failure_reason = none }

      warns : Bool
      warns = not (ltb_ℤ (ssl_warn_level leaf.not_after p.now) (pos 1))

      by_case :
          (v : Verification)
          → Reports
              (elim v [
                | expired ↦ with_reason res FailureReason.cert_expired text
                | invalid text ↦ with_reason res FailureReason.cert_invalid (truncate p text)
                | valid ↦ if warns then soon else fine
              ])
              (first_fault (verify_faults p.now leaf v))
      by_case expired = with_reason-Reports res FailureReason.cert_expired text
      by_case (invalid why) = with_reason-Reports res FailureReason.cert_invalid (truncate p why)
      by_case valid =
          subst
            (λ b.
              Reports (if warns then soon else fine)
                (first_fault ((b, FailureReason.cert_expiring_soon) ∷ [])))
            (ssl_warn_level-is_ending leaf.not_after p.now)
            (first_fault-if warns FailureReason.cert_expiring_soon [] soon fine
              (with_reason-Reports res FailureReason.cert_expiring_soon text) (refl, refl))

  dial-Reports :
      (res : CheckResult) → Reports (dial p t res) (first_fault (handshake_faults p t t.handshake))
  unfolding dial
  dial-Reports res = by_case t.handshake
    where
      timed : CheckResult
      timed = record res { latency_ms = some p.latency }

      by_case :
          (h : Handshake)
          → Reports
              (elim h [
                | dial_failed e ↦ with_reason res (reason_of e) (truncate p e.text)
                | connected certs ↦ elim certs [
                  | [] ↦ with_reason timed FailureReason.connection_error "no peer certificate"
                  | ◌∷◌ leaf others ↦ judge p t leaf (record timed {
                    cert_expires_at = some leaf.not_after;
                    cert_info = some leaf;
                  })
                ]
              ])
              (first_fault (handshake_faults p t h))
      by_case (dial_failed e) = with_reason_of-Reports res e (truncate p e.text) []
      by_case (connected []) =
          with_reason-Reports timed FailureReason.connection_error "no peer certificate"
      by_case (connected (leaf ∷ others)) =
          judge-Reports leaf
            (record timed { cert_expires_at = some leaf.not_after; cert_info = some leaf })

  check_ssl-Reports : (m : Monitor) → Reports (check_ssl p t m) (first_fault (ssl_faults p t m))
  unfolding check_ssl
  check_ssl-Reports m =
      first_fault-if (str_eq ((ssl_host_port p t m.url).0) "") FailureReason.connection_error _
        (with_reason res FailureReason.connection_error "ssl monitor url has no host") _
        (with_reason-Reports res FailureReason.connection_error "ssl monitor url has no host")
        (by_case p.block_private_networks p.resolution)
    where
      res : CheckResult
      res = new_result p m

      by_case :
          (block : Bool) (r : Resolution)
          → Reports
              (if not block then dial p t res else elim r [
                | no_host ↦ dial p t res
                | resolved ↦ dial p t res
                | blocked ↦ with_reason res FailureReason.blocked_target ""
                | unresolved text ↦ with_reason res FailureReason.connection_error (truncate p text)
              ])
              (first_fault
                ((if block then target_faults r else []) ++ handshake_faults p t t.handshake))
      by_case false r = dial-Reports res
      by_case true no_host = dial-Reports res
      by_case true resolved = dial-Reports res
      by_case true blocked = with_reason-Reports res FailureReason.blocked_target ""
      by_case true (unresolved text) =
          with_reason-Reports res FailureReason.connection_error (truncate p text)

  -- A check is healthy exactly if it finds no fault. Otherwise its failure reason is the first
  -- fault in its order. For a page: the host of the URL is blocked or does not resolve (looked at
  -- only where private networks are blocked), the request cannot be built, there is no response,
  -- the body on which there is an assertion cannot be read, the status is not an expected one, the
  -- latency exceeds the monitor's bound, the body lacks the wanted text; whether the response is
  -- captured makes no difference. For a certificate: the URL has no host, the host is blocked or
  -- does not resolve, the dial fails, the peer shows no certificate, the verification says that it
  -- is expired or that it is invalid, or it is valid and ends after the time of the check and at
  -- most seven days after it.
  pub check-Reports :
      (m : Monitor) (capture : Bool)
      → Reports (check p t m capture) (first_fault (check_faults p t m m.type))
  unfolding check
  check-Reports m capture = by_case m.type
    where
      by_case :
          (type : MonitorType)
          → Reports
              (elim type [
                | MonitorType.ssl ↦ check_ssl p t m
                | MonitorType.http ↦ check_http p m capture
              ])
              (first_fault (check_faults p t m type))
      by_case MonitorType.ssl = check_ssl-Reports m
      by_case MonitorType.http = check_http-Reports p m capture
