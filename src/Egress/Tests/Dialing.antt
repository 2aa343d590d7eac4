-- ===== src/Egress/Tests/Dialing.antt =====
-- The guard against private addresses at concrete targets.
use vibewarden.Prelude.{
  ◌≡◌, ◌↔◌, ◌⊎◌, refl, true, false, String, str_eq, List, [], ◌∷◌, Option, none, some, some_of,
  Result, ok, err, if◌then◌else◌,
}
use vibewarden.Egress.Dns.{
  Ip, v4, v6, net4, quad, contains, SsrfGuard, is_blocked, dial_context, dial_split, check_host,
  check_answer, check_addrs, ssrf_blocked,
}
use vibewarden.Egress.Ssrf.{IsOpenHost, dial_context_iff}

abbrev guard : SsrfGuard
guard = record { block_private = true; allowed_private = net4 (quad 10 1 0 0) 16 ∷ [] }

private_is_blocked : is_blocked guard (v4 (quad 10 2 0 7)) ≡ true
unfolding is_blocked contains some_of
private_is_blocked = refl

allowed_is_open : is_blocked guard (v4 (quad 10 1 0 7)) ≡ false
unfolding is_blocked contains some_of
allowed_is_open = refl

-- The unspecified address of IPv6, at which a host reaches itself, is in no range.
unspecified_is_open : is_blocked guard (v6 0) ≡ false
unfolding is_blocked contains some_of
unspecified_is_open = refl

abbrev read_ip : String → Option Ip
read_ip s =
    if str_eq s "93.184.216.34"
    then some (v4 (quad 93 184 216 34))
    else if str_eq s "127.0.0.1"
    then some (v4 (quad 127 0 0 1))
    else none

abbrev answers : String → Result String (List String)
answers host = ok ("93.184.216.34" ∷ [])

abbrev rebound : String → Result String (List String)
rebound host = ok ("127.0.0.1" ∷ [])

abbrev cut_target : String → Option (String × String)
cut_target addr = some ("api.example", "443")

-- What the dialer resolves is not what was checked: it gets the name again.
name_is_dialed :
    dial_context read_ip cut_target guard answers "api.example:443" ≡ ok ("api.example", "443")
unfolding dial_context dial_split check_host check_answer check_addrs is_blocked contains some_of
name_is_dialed = refl

rebound_is_blocked :
    dial_context read_ip cut_target guard rebound "api.example:443"
    ≡ err (ssrf_blocked "api.example" (v4 (quad 127 0 0 1)))
unfolding dial_context dial_split check_host check_answer check_addrs is_blocked contains some_of
rebound_is_blocked = refl

dial_context_iff_example :
    (dial_context read_ip cut_target guard answers "api.example:443" ≡ ok ("api.example", "443"))
    ↔ ((cut_target "api.example:443" ≡ some ("api.example", "443"))
        × ((guard.block_private ≡ false) ⊎ IsOpenHost read_ip guard answers "api.example"))
dial_context_iff_example =
    dial_context_iff read_ip cut_target guard answers "api.example:443" "api.example" "443"
