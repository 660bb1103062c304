-- ===== src/Checker/Ssl.antt =====
-- internal/checker/ssl.go: the check of a certificate, and Check of checker.go, which chooses the
-- check by the type of the monitor. A Tls says what the network and the standard library answer
-- beyond a Probe: how a URL and a host with a port are parsed, the handshake, the verification of
-- the chain at the time of the check, and the two texts that Sprintf makes.
use pulse_pager.Prelude.{
  ℕ, ◌-◌, ◌/◌, String, Bool, true, not, Option, none, some, List, [], ◌∷◌, pos, str_eq, ltb, ltb_ℤ,
  if◌then◌else◌,
}
use pulse_pager.Domain.{Time, Monitor, MonitorType, CertInfo, CheckResult, FailureReason}
use pulse_pager.Domain.SslWarn.{day, ssl_warn_level}
use pulse_pager.Checker.{
  no_host, resolved, blocked, unresolved, IoError, Probe, truncate, new_result, with_reason,
  reason_of, check_http,
}

-- DialContext: the certificates of the peer as certInfo reads them, the leaf first
pub data Handshake : Type 0 where
  dial_failed : IoError → Handshake
  connected : List CertInfo → Handshake

-- leaf.Verify: valid, invalid for the reason x509.Expired, or invalid in another way
pub data Verification : Type 0 where
  valid expired : Verification
  invalid : String → Verification

pub record Tls : Type 0 where
  -- url.Parse: the host name and the port, each possibly empty
  pub parse_url : String → Option (String × String)
  pub split_host_port : String → Option (String × String)
  pub handshake : Handshake
  pub verify : CertInfo → Verification
  -- "certificate expired on ..." and "certificate expires in ... days (...)"
  pub expired_on : Time → String
  pub expires_in : ℕ → Time → String

abbrev default_tls_port : String
default_tls_port = "443"

abbrev bare_host_port : Tls → String → String × String
bare_host_port t raw = elim (t.split_host_port raw) [
  | some host_port ↦ host_port
  | none ↦ if str_eq raw "" then ("", "") else (raw, default_tls_port)
]

-- sslHostPort
unfoldable pub ssl_host_port : Probe → Tls → String → String × String
ssl_host_port p t text =
    let raw = p.trim_space text in
    elim (t.parse_url raw) [
      | some u ↦
          if str_eq (u.0) ""
          then bare_host_port t raw
          else (u.0, if str_eq (u.1) "" then default_tls_port else u.1)
      | none ↦ bare_host_port t raw
    ]

-- expiryText, the days as whole ones
unfoldable pub expiry_text : Tls → Time → Time → String
expiry_text t not_after now =
    if ltb now not_after
    then t.expires_in ((not_after - now) / day) not_after
    else t.expired_on not_after

-- checkSSL, from the verification of the leaf on
unfoldable pub judge : Probe → Tls → CertInfo → CheckResult → CheckResult
unfolding with_reason truncate expiry_text
judge p t leaf res = elim (t.verify leaf) [
  | expired ↦ with_reason res FailureReason.cert_expired (expiry_text t leaf.not_after p.now)
  | invalid text ↦ with_reason res FailureReason.cert_invalid (truncate p text)
  | valid ↦
      if not (ltb_ℤ (ssl_warn_level leaf.not_after p.now) (pos 1))
      then with_reason res FailureReason.cert_expiring_soon (expiry_text t leaf.not_after p.now)
      else record res { healthy = true; failure_reason = none }
]

-- checkSSL, from the dial on
unfoldable pub dial : Probe → Tls → CheckResult → CheckResult
unfolding judge with_reason truncate
dial p t res = elim t.handshake [
  | dial_failed e ↦ with_reason res (reason_of e) (truncate p e.text)
  | connected certs ↦
      let timed = record res { latency_ms = some p.latency } in
      elim certs [
        | [] ↦ with_reason timed FailureReason.connection_error "no peer certificate"
        | ◌∷◌ leaf others ↦
            judge p t leaf
              (record timed { cert_expires_at = some leaf.not_after; cert_info = some leaf })
      ]
]

-- checkSSL. The host that is resolved is not empty, so there is no answer no_host.
unfoldable pub check_ssl : Probe → Tls → Monitor → CheckResult
unfolding dial with_reason truncate ssl_host_port
check_ssl p t m =
    let res = new_result p m in
    let dialed = dial p t res in
    if str_eq ((ssl_host_port p t m.url).0) ""
    then with_reason res FailureReason.connection_error "ssl monitor url has no host"
    else if not p.block_private_networks
    then dialed
    else elim p.resolution [
      | no_host ↦ dialed
      | resolved ↦ dialed
      | blocked ↦ with_reason res FailureReason.blocked_target ""
      | unresolved text ↦ with_reason res FailureReason.connection_error (truncate p text)
    ]

-- Check
unfoldable pub check : Probe → Tls → Monitor → Bool → CheckResult
unfolding check_ssl check_http
check p t m capture = elim m.type [
  | MonitorType.ssl ↦ check_ssl p t m
  | MonitorType.http ↦ check_http p m capture
]
