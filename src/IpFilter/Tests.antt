-- ===== src/IpFilter/Tests.antt =====
-- The filter of client addresses at concrete clients.
use vibewarden.Prelude.{
  ◌≡◌, ◌≢◌, ◌↔◌, ◌⊎◌, refl, true, false, String, str_eq, List, [], ◌∷◌, Option, none, some, some_of,
  Any, if◌then◌else◌,
}
use vibewarden.Prelude.Text.{Text, text_of, text_eq}
use vibewarden.Egress.Dns.{Ip, v4, IpNet, net4, quad, contains}
use vibewarden.RateLimit.Middleware.{Request, extract_client_ip}
use vibewarden.IpFilter.{
  allowlist, blocklist, AddressList, forward, same_ip, matches_any, is_blocked, parse_from,
  parse_list, serve,
}
use vibewarden.IpFilter.Listed.{Names, serve_iff}

abbrev read_cidr : String → Option IpNet
read_cidr s = if str_eq s "10.0.0.0/8" then some (net4 (quad 10 0 0 0) 24) else none

abbrev read_addr : String → Option Ip
read_addr s =
    if str_eq s "10.1.2.3"
    then some (v4 (quad 10 1 2 3))
    else if str_eq s "192.0.2.7"
    then some (v4 (quad 192 0 2 7))
    else none

abbrev canonical : Text → Option String
canonical t = if text_eq t (text_of "10.1.2.3") then some "10.1.2.3" else none

abbrev no_port : Text → Option Text
no_port t = none

abbrev both : List String
both = "10.0.0.0/8" ∷ "192.0.2.7" ∷ []

abbrev both_parsed : AddressList
both_parsed = record { nets = net4 (quad 10 0 0 0) 24 ∷ []; ips = v4 (quad 192 0 2 7) ∷ [] }

abbrev inside : Request
inside = record {
  path = text_of "/";
  forwarded_for = [];
  remote_addr = text_of "10.1.2.3";
  identity = none;
  user_header = "";
}

both_are_read : parse_list read_cidr read_addr both ≡ some both_parsed
unfolding parse_list parse_from
both_are_read = refl

range_is_blocked : is_blocked (some (v4 (quad 10 1 2 3))) both_parsed blocklist ≡ true
unfolding is_blocked matches_any same_ip contains some_of
range_is_blocked = refl

unreadable_is_not_blocked : is_blocked none both_parsed blocklist ≡ false
unfolding is_blocked matches_any
unreadable_is_not_blocked = refl

serve_iff_example :
    let client = read_addr (extract_client_ip canonical no_port false inside) in
    let listed = (ip : Ip) × (client ≡ some ip) × Any (Names read_cidr read_addr ip) both in
    ((serve read_addr canonical no_port blocklist false both_parsed inside).1 ≡ forward)
    ↔ (((blocklist ≡ allowlist) × listed) ⊎ ((blocklist ≢ allowlist) × (listed → ⊥)))
serve_iff_example =
    serve_iff read_cidr read_addr canonical no_port both both_parsed blocklist false inside
      both_are_read
