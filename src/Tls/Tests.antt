-- ===== src/Tls/Tests.antt =====
-- Runs of the certificate checks, and their theorems at concrete inputs.
use vibewarden.Prelude.{
  ℕ, ◌+◌, ◌*◌, ◌≡◌, refl, true, false, String, List, [], ◌∷◌, Option, none, some, ok, err, some_of,
}
use vibewarden.Prelude.Int.{pos}
use vibewarden.Prelude.Text.{text_of, text_eq, has_prefix, to_lower}
use vibewarden.Prelude.Split.{cut_last}
use vibewarden.Tls.{
  day, obtained, expiring_soon, disabled, self_signed_local, bad_validity, new_cert_info,
  expiry_status, critical, kind_string, healthy, is_caddy_local_issuer, unknown,
}
use vibewarden.Tls.Resolvers.{
  Leaf, not_in_process, in_process_resolve, handshake_resolve, chain_resolve,
}
use vibewarden.Tls.Preflight.{
  CrtShRecord, count_from, budget_window, status_fail, check_domain, is_le_issuer, status_warn,
}
use vibewarden.Tls.Recount.{counted_at, check_domain-recount}
use vibewarden.Tls.Monitor
use vibewarden.Tls.Monitor.{
  CertMonitor, Cert, new_cert_monitor, run, last_critical, run-degraded, Monitoring,
}
use vibewarden.Tls.Checks.{status_line, status_ok}
use vibewarden.Tls.Acme.{acme_incompatible, reserved_tld}

abbrev acme_leaf : Leaf
acme_leaf = record { issuer_cn = text_of "R3"; not_after = 100 * day }

abbrev dial_acme : String → Option (List Leaf)
dial_acme host = some (acme_leaf ∷ [])

soon : handshake_resolve (some true) dial_acme "" (95 * day) ≡ (expiring_soon 5 (100 * day), none)
unfolding handshake_resolve is_caddy_local_issuer has_prefix
soon = refl

off : in_process_resolve (some false) (ok none) 0 ≡ (disabled, none)
unfolding in_process_resolve
off = refl

falls_through :
    chain_resolve ((unknown, some not_in_process) ∷ (obtained 5, none) ∷ []) ≡ (obtained 5, none)
unfolding chain_resolve
falls_through = refl

near_expiry_is_no_failure : status_line (expiring_soon 1 5) ≡ status_ok
unfolding status_line
near_expiry_is_no_failure = refl

words : kind_string self_signed_local ≡ "self-signed-local"
unfolding kind_string
words = refl

not_yet_healthy : healthy (expiring_soon 5 9) ≡ false
unfolding healthy
not_yet_healthy = refl

validity_is_checked : new_cert_info "CN=a" "CN=b" 5 5 [] "01" ≡ err bad_validity
unfolding new_cert_info
validity_is_checked = refl

a_week_is_critical :
    expiry_status 0 (record {
      subject = "CN=a";
      issuer = "CN=b";
      not_before = 0;
      not_after = 7 * day + 5;
      sans = [];
      serial = "01";
    })
    ≡ critical 7
unfolding expiry_status
a_week_is_critical = refl

abbrev issued : ℕ → CrtShRecord
issued t = record { not_before = t; issuer_name = text_of "C=US, O=Let's Encrypt, CN=R3" }

-- Seven certificates in the window, of which the oldest alone leaves it at the named instant.
abbrev seven : List CrtShRecord
seven =
    issued (budget_window + 1)
    ∷ issued (budget_window + 2)
    ∷ issued (budget_window + 3)
    ∷ issued (budget_window + 4)
    ∷ issued (budget_window + 5)
    ∷ issued (budget_window + 6)
    ∷ issued (budget_window + 7)
    ∷ []

used_up : (check_domain (budget_window + 100) "example.com" (ok seven)).status ≡ status_fail
unfolding check_domain is_le_issuer has_prefix to_lower count_from
used_up = refl

still_used_up :
    (check_domain
      (check_domain (budget_window + 100) "example.com" (ok seven)).next_slot_available_at
      "example.com"
      (ok seven)).status
    ≡ status_fail
unfolding check_domain is_le_issuer has_prefix to_lower count_from
still_used_up = refl

query_failure_warns : (check_domain 0 "example.com" (err "timeout")).status ≡ status_warn
unfolding check_domain
query_failure_warns = refl

check_domain-recount_example :
    let before = check_domain (budget_window + 100) "example.com" (ok seven) in
    let after = check_domain before.next_slot_available_at "example.com" (ok seven) in
    after.issued_in_window + counted_at before.oldest_in_window 100 seven ≡ before.issued_in_window
check_domain-recount_example =
    check_domain-recount (budget_window + 100) "example.com" seven used_up

abbrev monitor : CertMonitor
monitor =
    new_cert_monitor "example.com"
      (record { check_interval = pos 0; warning_threshold = pos 0; critical_threshold = pos 0 })

abbrev ticks : List (ℕ × Option Cert)
ticks =
    (50 * day, some (record { common_name = "example.com"; not_after = 100 * day }))
    ∷ (97 * day, some (record { common_name = "example.com"; not_after = 100 * day }))
    ∷ (98 * day, none)
    ∷ []

ends_degraded : (run ticks monitor).0.degraded ≡ true
unfolding run Monitor.check new_cert_monitor
ends_degraded = refl

local_names_are_refused :
    acme_incompatible (λ s. false) (text_of "App.Local.") ≡ some (reserved_tld (text_of "local"))
unfolding acme_incompatible text_eq to_lower cut_last some_of
local_names_are_refused = refl

public_names_are_fine : acme_incompatible (λ s. false) (text_of "example.com") ≡ none
unfolding acme_incompatible text_eq to_lower cut_last some_of
public_names_are_fine = refl
