-- ===== src/Egress/Dns.antt =====
-- internal/adapters/egress/dns.go: the guard against requests to private addresses. An address is its
-- number in one of the two families, a mapped IPv4 address in the first; what the language's library
-- makes of the texts of addresses, ranges and targets, and the resolver, are parameters.
use vibewarden.Prelude.{
  ℕ, ◌+◌, ◌*◌, ◌/◌, ◌^◌, ◌==◌, Bool, false, not, String, List, [], ◌∷◌, Option, none, some, some_of,
  Result, ok, err, if◌then◌else◌,
}

pub data Ip : Type 0 where
  v4 v6 : ℕ → Ip

-- The base of a range, with no bit set behind the prefix, and how many bits are behind it.
pub data IpNet : Type 0 where
  net4 net6 : (base free : ℕ) → IpNet

unfoldable pub contains : IpNet → Ip → Bool
contains (net4 base free) (v4 a) = a / 2 ^ free == base / 2 ^ free
contains (net6 base free) (v6 a) = a / 2 ^ free == base / 2 ^ free
contains (net4 base free) (v6 a) = false
contains (net6 base free) (v4 a) = false

abbrev pub quad : ℕ → ℕ → ℕ → ℕ → ℕ
quad a b c d = ((a * 256 + b) * 256 + c) * 256 + d

-- builtInPrivateCIDRs, as they are parsed.
abbrev pub private_ranges : List IpNet
private_ranges =
    net4 (quad 127 0 0 0) 24
    ∷ net4 (quad 10 0 0 0) 24
    ∷ net4 (quad 172 16 0 0) 20
    ∷ net4 (quad 192 168 0 0) 16
    ∷ net4 (quad 169 254 0 0) 16
    ∷ net4 (quad 100 64 0 0) 22
    ∷ net4 (quad 0 0 0 0) 24
    ∷ net4 (quad 192 0 0 0) 8
    ∷ net4 (quad 192 0 2 0) 8
    ∷ net4 (quad 198 51 100 0) 8
    ∷ net4 (quad 203 0 113 0) 8
    ∷ net4 (quad 224 0 0 0) 28
    ∷ net4 (quad 240 0 0 0) 28
    ∷ net4 (quad 255 255 255 255) 0
    ∷ net6 1 0
    ∷ net6 (0xfc * 2 ^ 120) 121
    ∷ net6 (0xfe80 * 2 ^ 112) 118
    ∷ net6 (0xff * 2 ^ 120) 120
    ∷ []

pub record SsrfGuard : Type 0 where
  pub block_private : Bool
  pub allowed_private : List IpNet

pub data DialError : Type 0 where
  bad_address : DialError
  resolving_failed : String → DialError
  ssrf_blocked : String → Ip → DialError

unfoldable pub is_blocked : SsrfGuard → Ip → Bool
is_blocked g ip =
    if not (some_of (λ r. contains r ip) private_ranges)
    then false
    else not (some_of (λ r. contains r ip) g.allowed_private)

module _ (parse_cidr : String → Option IpNet) where
  unfoldable parse_allowed : List String → Option (List IpNet)
  parse_allowed [] = some []
  parse_allowed (cidr ∷ cidrs) = elim (parse_cidr cidr) [
    | none ↦ none
    | some r ↦ elim (parse_allowed cidrs) [ none ↦ none | some rs ↦ some (r ∷ rs) ]
  ]

  unfoldable new_ssrf_guard : Bool → List String → Option SsrfGuard
  unfolding parse_allowed
  new_ssrf_guard block_private allowed = elim (parse_allowed allowed) [
    | none ↦ none
    | some rs ↦ some (record { block_private = block_private; allowed_private = rs })
  ]

module _ (parse_ip : String → Option Ip) where
  -- The loop over the addresses that a name resolves to; one that is no address is skipped.
  unfoldable pub check_addrs : SsrfGuard → String → List String → Option DialError
  check_addrs g host [] = none
  check_addrs g host (addr ∷ addrs) =
      let rest = check_addrs g host addrs in
      elim (parse_ip addr) [
        | none ↦ rest
        | some ip ↦ if is_blocked g ip then some (ssrf_blocked host ip) else rest
      ]

  unfoldable pub check_answer : SsrfGuard → String → Result String (List String) → Option DialError
  unfolding check_addrs
  check_answer g host (err e) = some (resolving_failed e)
  check_answer g host (ok addrs) = check_addrs g host addrs

  unfoldable pub check_literal : SsrfGuard → String → Ip → Option DialError
  check_literal g host ip = if is_blocked g ip then some (ssrf_blocked host ip) else none

  unfoldable pub check_host :
      SsrfGuard → (String → Result String (List String)) → String → Option DialError
  unfolding check_answer check_literal
  check_host g lookup host = elim (parse_ip host) [
    | some ip ↦ check_literal g host ip
    | none ↦ check_answer g host (lookup host)
  ]

  -- The dial that follows the check is given the host again, not the addresses that were checked.
  unfoldable pub dial_split :
      SsrfGuard
      → (String → Result String (List String))
      → Option (String × String)
      → Result DialError (String × String)
  unfolding check_host
  dial_split g lookup none = err bad_address
  dial_split g lookup (some (host, port)) =
      if not g.block_private
      then ok (host, port)
      else elim (check_host g lookup host) [ some e ↦ err e | none ↦ ok (host, port) ]

  unfoldable pub dial_context :
      (String → Option (String × String))
      → SsrfGuard
      → (String → Result String (List String))
      → String
      → Result DialError (String × String)
  unfolding dial_split
  dial_context split_host_port g lookup addr = dial_split g lookup (split_host_port addr)
