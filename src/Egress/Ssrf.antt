-- ===== src/Egress/Ssrf.antt =====
-- internal/adapters/egress/dns.go: which dials go through the guard.
use mathlib.Core.Path.{subst}
use mathlib.Core.Option.{some-injective}
use vibewarden.Prelude.{
  ℕ, ◌+◌, ◌*◌, ◌/◌, ◌%◌, ◌^◌, ◌≤◌, ◌<◌, ◌==◌, ◌≡◌, ◌↔◌, ◌⊎◌, inl, inr, refl, sym, arith, Bool, true,
  false, not, String, List, [], ◌∷◌, Option, none, some, some_of, Result, ok, err, All, Any,
  some_of_iff, Bool-cases, Option-cases, if◌then◌else◌,
}
use native.Mathlib.Nat.{one-le-pow}
use vibewarden.Egress.Dns.{
  Ip, v4, v6, IpNet, net4, net6, contains, private_ranges, SsrfGuard, is_blocked, check_addrs,
  check_answer, check_literal, check_host, dial_split, dial_context,
}

-- The addresses of a range, as an interval.
abbrev In : IpNet → Ip → Type 0
In (net4 base free) (v4 a) = (base ≤ a) × (a < base + 2 ^ free)
In (net6 base free) (v6 a) = (base ≤ a) × (a < base + 2 ^ free)
In (net4 base free) (v6 a) = ⊥
In (net6 base free) (v4 a) = ⊥

abbrev Aligned : IpNet → Type 0
Aligned (net4 base free) = base % 2 ^ free ≡ 0
Aligned (net6 base free) = base % 2 ^ free ≡ 0

pow_pos : (n : ℕ) → 0 < 2 ^ n
pow_pos n = one-le-pow n 2 (omega arith)

div-interval : (a q k : ℕ) → 0 < k → ((a / k ≡ q) ↔ ((q * k ≤ a) × (a < q * k + k)))
div-interval a q k h = (λ e. grind arith, λ (l, u). grind arith)

block_iff :
    (a base k : ℕ)
    → 0 < k
    → base % k ≡ 0
    → ((a / k == base / k) ≡ true) ↔ ((base ≤ a) × (a < base + k))
block_iff a base k h m =
    let q : base / k * k ≡ base = grind arith in ground (arith, div-interval a (base / k) k h)

contains_iff : (r : IpNet) (ip : Ip) → Aligned r → (contains r ip ≡ true) ↔ In r ip
unfolding contains
contains_iff (net4 base free) (v4 a) h = block_iff a base (2 ^ free) (pow_pos free) h
contains_iff (net6 base free) (v6 a) h = block_iff a base (2 ^ free) (pow_pos free) h
contains_iff (net4 base free) (v6 a) h = ground arith
contains_iff (net6 base free) (v4 a) h = ground arith

ranges_iff :
    (rs : List IpNet) (ip : Ip)
    → All Aligned rs
    → (some_of (λ r. contains r ip) rs ≡ true) ↔ Any (λ r. In r ip) rs
unfolding some_of
ranges_iff [] ip h = (λ e. cc, λ a. absurd a)
ranges_iff (r ∷ rs) ip h = ground (arith, contains_iff r ip h.0, ranges_iff rs ip h.1)

private-Aligned : All Aligned private_ranges
private-Aligned = (
  refl,
  (
    refl,
    (
      refl,
      (
        refl,
        (
          refl,
          (
            refl,
            (
              refl,
              (
                refl,
                (refl, (refl, (refl, (refl, (refl, (refl, (refl, (refl, (refl, (refl, tt)))))))))),
              ),
            ),
          ),
        ),
      ),
    ),
  ),
)

-- The address is in one of the forbidden ranges.
abbrev IsPrivate : Ip → Type 0
IsPrivate ip = Any (λ r. In r ip) private_ranges

-- The address is in no forbidden range, or in one that the operator allows.
abbrev IsOpen : SsrfGuard → Ip → Type 0
IsOpen g ip = (IsPrivate ip → ⊥) ⊎ Any (λ r. contains r ip ≡ true) g.allowed_private

guarded_iff : (p a : Bool) → ((if not p then false else not a) ≡ false) ↔ ((p ≡ false) ⊎ (a ≡ true))
guarded_iff p a = ground arith

is_blocked_iff : (g : SsrfGuard) (ip : Ip) → (is_blocked g ip ≡ false) ↔ IsOpen g ip
unfolding is_blocked
is_blocked_iff g ip =
    let p = some_of (λ r. contains r ip) private_ranges in
    let a = some_of (λ r. contains r ip) g.allowed_private in
    let private = ranges_iff private_ranges ip private-Aligned in
    let allowed = some_of_iff (λ r. contains r ip) g.allowed_private in
    (
      λ h. elim ((guarded_iff p a).0 h) [
        | inl outside ↦ inl (λ i. cc (outside, private.1 i))
        | inr exempt ↦ inr (allowed.0 exempt)
      ],
      λ o. (guarded_iff p a).1 (elim o [
        | inl outside ↦ elim (Bool-cases p) [
          | inl t ↦ absurd (outside (private.0 t))
          | inr f ↦ inl f
        ]
        | inr exempt ↦ inr (allowed.1 exempt)
      ]),
    )

module _ (parse_ip : String → Option Ip) where
  -- Every address that the name resolves to is open.
  abbrev AllOpen : SsrfGuard → List String → Type 0
  AllOpen g addrs = All (λ addr. (ip : Ip) → parse_ip addr ≡ some ip → IsOpen g ip) addrs

  -- The host is an open address, or a name that resolves to open addresses only.
  abbrev pub IsOpenHost : SsrfGuard → (String → Result String (List String)) → String → Type 0
  IsOpenHost g lookup host =
      ((ip : Ip) × (parse_ip host ≡ some ip) × IsOpen g ip)
      ⊎ ((parse_ip host ≡ none)
          × ((addrs : List String) × (lookup host ≡ ok addrs) × AllOpen g addrs))

  check_addrs_iff :
      (g : SsrfGuard) (host : String) (addrs : List String)
      → (check_addrs parse_ip g host addrs ≡ none) ↔ AllOpen g addrs
  unfolding check_addrs
  check_addrs_iff g host [] = (λ _. tt, λ _. refl)
  check_addrs_iff g host (addr ∷ addrs) =
      let rest = check_addrs_iff g host addrs in
      elim (Option-cases (parse_ip addr)) [
        | inl e ↦ rw (e, check_addrs) (λ h. (λ ip i. cc, rest.0 h), λ a. rest.1 a.1)
        | inr (ip, e) ↦ elim (Bool-cases (is_blocked g ip)) [
          | inl b ↦
              rw (e, b, check_addrs) (λ h. cc, λ a. cc (b, (is_blocked_iff g ip).1 (a.0 ip refl)))
          | inr f ↦
              rw (e, f, check_addrs)
                (
                  λ h. (
                    λ other i.
                        subst (IsOpen g) (some-injective ip other i) ((is_blocked_iff g ip).0 f),
                    rest.0 h,
                  ),
                  λ a. rest.1 a.1,
                )
        ]
      ]

  check_answer_iff :
      (g : SsrfGuard) (host : String) (answer : Result String (List String))
      → (check_answer parse_ip g host answer ≡ none)
        ↔ ((addrs : List String) × (answer ≡ ok addrs) × AllOpen g addrs)
  unfolding check_answer
  check_answer_iff g host (err e) = (λ h. cc, λ (addrs, q, o). cc)
  check_answer_iff g host (ok addrs) = (
    λ h. (addrs, refl, (check_addrs_iff g host addrs).0 h),
    λ (others, q, o).
        let same : others ≡ addrs = cc in
        (check_addrs_iff g host addrs).1 (subst (AllOpen g) same o),
  )

  check_literal_iff :
      (g : SsrfGuard) (host : String) (ip : Ip)
      → (check_literal parse_ip g host ip ≡ none) ↔ IsOpen g ip
  unfolding check_literal
  check_literal_iff g host ip = elim (Bool-cases (is_blocked g ip)) [
    | inl b ↦ rw b (λ h. cc, λ o. cc (b, (is_blocked_iff g ip).1 o))
    | inr f ↦ rw f (λ h. (is_blocked_iff g ip).0 f, λ o. refl)
  ]

  check_host_iff :
      (g : SsrfGuard) (lookup : String → Result String (List String)) (host : String)
      → (check_host parse_ip g lookup host ≡ none) ↔ IsOpenHost g lookup host
  unfolding check_host check_answer
  check_host_iff g lookup host =
      let answered = check_answer_iff g host (lookup host) in
      elim (Option-cases (parse_ip host)) [
        | inl e ↦
            rw (e, check_host)
              (
                λ h. inr (refl, answered.0 h),
                λ o. elim o [ inl (ip, i, p) ↦ cc | inr a ↦ answered.1 a.1 ],
              )
        | inr (ip, e) ↦
            rw (e, check_host)
              (
                λ h. inl (ip, refl, (check_literal_iff g host ip).0 h),
                λ o. elim o [
                  | inl (other, i, p) ↦
                      (check_literal_iff g host ip).1
                        (subst (IsOpen g) (sym (some-injective ip other i)) p)
                  | inr a ↦ cc
                ],
              )
      ]

  dial_split_iff :
      (g : SsrfGuard) (lookup : String → Result String (List String))
      (target : Option (String × String)) (host port : String)
      → (dial_split parse_ip g lookup target ≡ ok (host, port))
        ↔ ((target ≡ some (host, port)) × ((g.block_private ≡ false) ⊎ IsOpenHost g lookup host))
  unfolding dial_split
  dial_split_iff g lookup none host port = (λ h. cc, λ x. cc)
  dial_split_iff g lookup (some (h, p)) host port =
      let checked = check_host_iff g lookup h in
      elim (Bool-cases g.block_private) [
        | inr off ↦ rw (off, dial_split) (λ e. (cc, inl refl), λ x. cc)
        | inl on ↦ elim (Option-cases (check_host parse_ip g lookup h)) [
          | inl passed ↦
              rw (on, passed, dial_split)
                (
                  λ e.
                      let same : h ≡ host = cc in
                      (cc, inr (subst (IsOpenHost g lookup) same (checked.0 passed))),
                  λ x. cc,
                )
          | inr (e, failed) ↦
              rw (on, failed, dial_split)
                (
                  λ q. cc,
                  λ (q, o).
                      let same : host ≡ h = cc in
                      elim o [
                        | inl f ↦ cc
                        | inr opened ↦
                            cc (failed, checked.1 (subst (IsOpenHost g lookup) same opened))
                      ],
                )
        ]
      ]

  -- The guard lets a dial go on, to the host and the port of the target, exactly if the target can be
  -- split and, where private addresses are blocked, its host is an address that is open or a name that
  -- resolves to open addresses only.
  pub dial_context_iff :
      (split_host_port : String → Option (String × String)) (g : SsrfGuard)
      (lookup : String → Result String (List String)) (addr host port : String)
      → (dial_context parse_ip split_host_port g lookup addr ≡ ok (host, port)) ↔ (
          (split_host_port addr ≡ some (host, port))
          × ((g.block_private ≡ false) ⊎ IsOpenHost g lookup host))
  unfolding dial_context
  dial_context_iff split_host_port g lookup addr host port =
      dial_split_iff g lookup (split_host_port addr) host port
