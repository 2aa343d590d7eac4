-- ===== src/IpFilter.antt =====
-- internal/domain/ipfilter/matcher.go and internal/adapters/caddy/ipfilter_handler.go: the filter of client
-- addresses. The parsers of addresses and ranges are parameters; the client's address is found as in
-- RateLimit.Middleware. The event and the audit event of a blocked request are one event here.
pub mod Listed
mod Tests
use vibewarden.Prelude.{
  Bool, true, false, not, String, List, [], ◌∷◌, ◌++◌, Option, none, some, some_of, if◌then◌else◌,
  ◌==◌,
}
use vibewarden.Prelude.Text.{Text}
use vibewarden.Egress.Dns.{Ip, v4, v6, IpNet, contains}
use vibewarden.RateLimit.Middleware.{Request, extract_client_ip}

pub data Mode : Type 0 where
  allowlist blocklist : Mode
  other_mode : String → Mode

pub record AddressList : Type 0 where
  pub nets : List IpNet
  pub ips : List Ip

pub data Outcome : Type 0 where
  forward forbidden : Outcome

pub data Event : Type 0 where
  ip_filter_blocked : (client_ip : String) → Event

-- `known.Equal(ip)`.
unfoldable pub same_ip : Ip → Ip → Bool
same_ip (v4 a) (v4 b) = a == b
same_ip (v6 a) (v6 b) = a == b
same_ip (v4 a) (v6 b) = false
same_ip (v6 a) (v4 b) = false

unfoldable pub matches_any : AddressList → Option Ip → Bool
matches_any l none = false
matches_any l (some ip) =
    if some_of (λ known. same_ip known ip) l.ips
    then true
    else some_of (λ cidr. contains cidr ip) l.nets

unfoldable pub is_blocked : Option Ip → AddressList → Mode → Bool
is_blocked ip l allowlist = not (matches_any l ip)
is_blocked ip l blocklist = matches_any l ip
is_blocked ip l (other_mode name) = matches_any l ip

module _ (parse_cidr : String → Option IpNet) (parse_addr : String → Option Ip) where
  -- The loop of ParseList from the entries that are read.
  unfoldable pub parse_from : List String → AddressList → Option AddressList
  parse_from [] l = some l
  parse_from (addr ∷ addresses) l = elim (parse_cidr addr) [
    | some cidr ↦ parse_from addresses (record l { nets = l.nets ++ cidr ∷ [] })
    | none ↦ elim (parse_addr addr) [
      | some ip ↦ parse_from addresses (record l { ips = l.ips ++ ip ∷ [] })
      | none ↦ none
    ]
  ]

  unfoldable pub parse_list : List String → Option AddressList
  unfolding parse_from
  parse_list addresses = parse_from addresses (record { nets = []; ips = [] })

module _ (parse_addr : String → Option Ip) (canonical_ip : Text → Option String)
    (split_host_port : Text → Option Text) where
  unfoldable pub serve : Mode → Bool → AddressList → Request → List Event × Outcome
  serve mode trust_proxy l r =
      let client_ip = extract_client_ip canonical_ip split_host_port trust_proxy r in
      if is_blocked (parse_addr client_ip) l mode
      then (ip_filter_blocked client_ip ∷ [], forbidden)
      else ([], forward)
