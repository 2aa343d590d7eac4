-- ===== src/Tls/Monitor.antt =====
-- internal/plugins/tls/monitor.go: the watch over the expiry of the certificate. A check is given the
-- clock and what reading the certificate gives, which may fail; a remaining time may be negative. The
-- texts of events and of the message are left out.
use vibewarden.Prelude.{
  ℕ, ◌≡◌, refl, arith, ◌==◌, Bool, true, false, ◌&&◌, String, str_eq, List, [], ◌∷◌, ◌++◌, Option,
  none, some, if◌then◌else◌,
}
use vibewarden.Prelude.Int.{ℤ, pos, pos_part, neg_part, sub_ℕ, leb_ℤ}

pub record Monitoring : Type 0 where
  pub check_interval : ℤ
  pub warning_threshold : ℤ
  pub critical_threshold : ℤ

abbrev default_check_interval : ℤ
default_check_interval = pos 21_600_000_000_000

abbrev default_warning_threshold : ℤ
default_warning_threshold = pos 2_592_000_000_000_000

abbrev default_critical_threshold : ℤ
default_critical_threshold = pos 604_800_000_000_000

or_default : ℤ → ℤ → ℤ
or_default d fallback = if pos_part d == 0 && neg_part d == 0 then fallback else d

unfoldable apply_monitor_defaults : Monitoring → Monitoring
unfolding or_default
apply_monitor_defaults m = record {
  check_interval = or_default m.check_interval default_check_interval;
  warning_threshold = or_default m.warning_threshold default_warning_threshold;
  critical_threshold = or_default m.critical_threshold default_critical_threshold;
}

pub data Event : Type 0 where
  cert_expiry_critical cert_expiry_warning : (domain : String) → (not_after : ℕ) → Event

pub record Cert : Type 0 where
  pub common_name : String
  pub not_after : ℕ

pub record CertMonitor : Type 0 where
  pub domain : String
  pub monitoring : Monitoring
  pub degraded : Bool

unfoldable pub new_cert_monitor : String → Monitoring → CertMonitor
unfolding apply_monitor_defaults
new_cert_monitor domain monitoring = record {
  domain = domain;
  monitoring = apply_monitor_defaults monitoring;
  degraded = false;
}

domain_of : CertMonitor → Cert → String
domain_of m cert = if str_eq m.domain "" then cert.common_name else m.domain

unfoldable pub check : ℕ → Option Cert → CertMonitor → CertMonitor × List Event
unfolding domain_of
check now none m = (m, [])
check now (some cert) m =
    let remaining = sub_ℕ cert.not_after now in
    if leb_ℤ remaining m.monitoring.critical_threshold
    then (record m { degraded = true }, cert_expiry_critical (domain_of m cert) cert.not_after ∷ [])
    else if leb_ℤ remaining m.monitoring.warning_threshold
    then (record m { degraded = false }, cert_expiry_warning (domain_of m cert) cert.not_after ∷ [])
    else (record m { degraded = false }, [])

-- The loop of the monitor: a check at the start and one for each tick.
unfoldable pub run : List (ℕ × Option Cert) → CertMonitor → CertMonitor × List Event
run [] m = (m, [])
run ((now, cert) ∷ ticks) m =
    let (m', es) = check now cert m in let (end, fs) = run ticks m' in (end, es ++ fs)

-- Whether the last certificate that could be read was within the critical threshold.
abbrev pub last_critical : ℤ → Bool → List (ℕ × Option Cert) → Bool
last_critical threshold last [] = last
last_critical threshold last ((now, none) ∷ ticks) = last_critical threshold last ticks
last_critical threshold last ((now, some cert) ∷ ticks) =
    last_critical threshold (leb_ℤ (sub_ℕ cert.not_after now) threshold) ticks

check-none : (now : ℕ) (m : CertMonitor) → check now none m ≡ (m, [])
unfolding check
check-none now m = refl

check-degraded :
    (now : ℕ) (cert : Cert) (m : CertMonitor)
    → (check now (some cert) m).0
      ≡ record m { degraded = leb_ℤ (sub_ℕ cert.not_after now) m.monitoring.critical_threshold }
unfolding check
check-degraded now cert m = ground arith

-- After any checks the monitor is degraded exactly if the last certificate that it could read was
-- within the critical threshold; reading failures change nothing.
pub run-degraded :
    (ticks : List (ℕ × Option Cert)) (m : CertMonitor)
    → (run ticks m).0.degraded ≡ last_critical m.monitoring.critical_threshold m.degraded ticks
unfolding run
run-degraded [] m = refl
run-degraded ((now, none) ∷ ticks) m = rw (check-none now m) (run-degraded ticks m)
run-degraded ((now, some cert) ∷ ticks) m = rw (check-degraded now cert m) (
    run-degraded ticks
      (record m { degraded = leb_ℤ (sub_ℕ cert.not_after now) m.monitoring.critical_threshold }))
