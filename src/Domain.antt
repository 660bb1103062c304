-- ===== src/Domain.antt =====
-- internal/domain/domain.go: the structs and enums that every package shares.
-- A time is the number of nanoseconds since Go's zero time.Time, and a duration a number of
-- nanoseconds; an id is a positive number that the database gives out. A pointer field is an
-- Option. A string that the source gives a type of its own, and whose values are constants, is a
-- data type; `unset` stands for the empty string, which is the zero value of such a field.
pub mod Status
pub mod SslWarn
pub mod Laws
use pulse_pager.Prelude.{ℕ, ℤ, String, Bool, Option, List, ◌*◌}

abbrev pub Time : Type 0
Time = ℕ

-- The zero time.Time.
abbrev pub zero_time : Time
zero_time = 0

abbrev pub second : ℕ
second = 1_000_000_000

abbrev pub minute : ℕ
minute = 60 * second

abbrev pub hour : ℕ
hour = 60 * minute

pub data MonitorType : Type 0 where
  http ssl : MonitorType

pub data DownPolicy : Type 0 where
  any quorum all : DownPolicy

pub data FailureReason : Type 0 where
  unset connection_error timeout status_mismatch latency_exceeded : FailureReason
  body_assertion blocked_target cert_expired cert_expiring_soon cert_invalid : FailureReason

pub data CloseReason : Type 0 where
  unset recovered disabled manual : CloseReason

pub record Header : Type 0 where
  pub key : String
  pub value : String
  pub secret : Bool

pub record Monitor : Type 0 where
  pub id : ℕ
  pub org_id : ℕ
  pub type : MonitorType
  pub name : String
  pub url : String
  pub method : String
  pub headers : List Header
  pub body : String
  pub expected_status_codes : String
  pub timeout_seconds : ℕ
  pub interval_seconds : ℕ
  pub enabled : Bool
  pub max_latency_ms : Option ℕ
  pub body_contains : Option String
  pub failure_threshold : ℕ
  pub regions : List String
  pub down_policy : DownPolicy
  pub channel_ids : List ℕ
  pub created_at : Time
  pub updated_at : Time

pub record CertInfo : Type 0 where
  pub subject : String
  pub issuer : String
  pub not_before : Time
  pub not_after : Time
  pub dns_names : List String
  pub serial : String

pub record ResponseSnapshot : Type 0 where
  pub status_code : Option ℕ
  pub snapshot_headers : List Header
  pub snapshot_body : String
  pub truncated : Bool

pub record CheckResult : Type 0 where
  pub id : ℕ
  pub org_id : ℕ
  pub monitor_id : ℕ
  pub region : String
  pub scheduled_at : Time
  pub checked_at : Time
  pub healthy : Bool
  pub failure_reason : Option FailureReason
  pub status_code : Option ℕ
  pub latency_ms : Option ℕ
  pub error_text : Option String
  pub cert_expires_at : Option Time
  pub snapshot : Option ResponseSnapshot
  pub cert_info : Option CertInfo

pub record Incident : Type 0 where
  pub id : ℕ
  pub org_id : ℕ
  pub monitor_id : ℕ
  pub started_at : Time
  pub ended_at : Option Time
  pub cause_reason : FailureReason
  pub close_reason : Option CloseReason
  pub closed_by : Option ℕ
  pub first_result_id : Option ℕ

pub record AlertState : Type 0 where
  pub consecutive_fails : ℕ
  pub first_fail_at : Option Time
  pub open_incident : Option Incident
  pub last_applied_result_id : Option ℕ
  pub ssl_warned_days : Option ℤ

abbrev pub is_ssl : MonitorType → Bool
is_ssl http = Bool.false
is_ssl ssl = Bool.true
