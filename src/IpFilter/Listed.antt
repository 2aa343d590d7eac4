-- ===== src/IpFilter/Listed.antt =====
-- internal/domain/ipfilter/matcher.go and internal/adapters/caddy/ipfilter_handler.go: which clients the
-- filter lets through, in terms of the configured texts.
use mathlib.Core.Path.{subst}
use mathlib.Core.Option.{some-injective, none-ne-some}
use vibewarden.Prelude.{
  ◌≡◌, ◌↔◌, ◌⊎◌, ◌∙◌, inl, inr, refl, sym, ap, ◌≢◌, arith, Bool, true, false, String, List, [], ◌∷◌,
  ◌++◌, Option, none, some, some_of, Any, Bool-cases, Option-cases,
}
use vibewarden.Prelude.Text.{Text}
use vibewarden.Egress.Dns.{Ip, v4, v6, IpNet, contains}
use vibewarden.RateLimit.Middleware.{Request, extract_client_ip}
use vibewarden.IpFilter.{
  Mode, allowlist, blocklist, other_mode, AddressList, forward, same_ip, matches_any, is_blocked,
  parse_from, parse_list, serve,
}

same_ip_iff : (a b : Ip) → (same_ip a b ≡ true) ↔ (a ≡ b)
unfolding same_ip
same_ip_iff (v4 a) (v4 b) = ground arith
same_ip_iff (v6 a) (v6 b) = ground arith
same_ip_iff (v4 a) (v6 b) = (λ h. cc, λ e. cc)
same_ip_iff (v6 a) (v4 b) = (λ h. cc, λ e. cc)

some_of-snoc {ℓ} :
    {A : Type ℓ} (p : A → Bool) (xs : List A) (x : A)
    → (some_of p (xs ++ x ∷ []) ≡ true) ↔ ((some_of p xs ≡ true) ⊎ (p x ≡ true))
unfolding some_of
some_of-snoc p [] x = ground arith
some_of-snoc p (y ∷ xs) x = ground (arith, some_of-snoc p xs x)

join_iff :
    {P Q R S T : Type 0}
    → (P ↔ (Q ⊎ R))
    → (Q ↔ (S ⊎ T))
    → {N : Type 0} → (N ↔ T)
    → P ↔ (S ⊎ (N ⊎ R))
join_iff p q n = (
  λ x. elim (p.0 x) [
    | inl y ↦ elim (q.0 y) [ inl s ↦ inl s | inr t ↦ inr (inl (n.1 t)) ]
    | inr z ↦ inr (inr z)
  ],
  λ x. p.1 (elim x [
    | inl s ↦ inl (q.1 (inl s))
    | inr (inl m) ↦ inl (q.1 (inr (n.0 m)))
    | inr (inr z) ↦ inr z
  ]),
)

no_match : (ip : Ip) → matches_any (record { nets = []; ips = [] }) (some ip) ≡ true → ⊥
unfolding matches_any some_of
no_match ip h = cc

is_blocked_iff :
    (client : Option Ip) (l : AddressList) (mode : Mode)
    → (is_blocked client l mode ≡ false) ↔ (
        ((mode ≡ allowlist) × (matches_any l client ≡ true))
        ⊎ ((mode ≢ allowlist) × (matches_any l client ≡ true → ⊥)))
unfolding is_blocked
is_blocked_iff client l allowlist = ground arith
is_blocked_iff client l blocklist = ground arith
is_blocked_iff client l (other_mode name) = ground arith

module _ (parse_cidr : String → Option IpNet) (parse_addr : String → Option Ip) where
  -- The text is a range that holds the address, or no range but the address itself.
  abbrev pub Names : Ip → String → Type 0
  Names ip addr =
      ((cidr : IpNet) × (parse_cidr addr ≡ some cidr) × (contains cidr ip ≡ true))
      ⊎ ((parse_cidr addr ≡ none) × (parse_addr addr ≡ some ip))

  matches_any-net :
      (l : AddressList) (cidr : IpNet) (ip : Ip)
      → (matches_any (record l { nets = l.nets ++ cidr ∷ [] }) (some ip) ≡ true)
        ↔ ((matches_any l (some ip) ≡ true) ⊎ (contains cidr ip ≡ true))
  unfolding matches_any
  matches_any-net l cidr ip = ground (arith, some_of-snoc (λ r. contains r ip) l.nets cidr)

  matches_any-ip :
      (l : AddressList) (known ip : Ip)
      → (matches_any (record l { ips = l.ips ++ known ∷ [] }) (some ip) ≡ true)
        ↔ ((matches_any l (some ip) ≡ true) ⊎ (known ≡ ip))
  unfolding matches_any
  matches_any-ip l known ip =
      ground (arith, some_of-snoc (λ k. same_ip k ip) l.ips known, same_ip_iff known ip)

  parse_from-cidr :
      (addr : String) (addresses : List String) (l : AddressList) (cidr : IpNet)
      → parse_cidr addr ≡ some cidr
      → parse_from parse_cidr parse_addr (addr ∷ addresses) l
        ≡ parse_from parse_cidr parse_addr addresses (record l { nets = l.nets ++ cidr ∷ [] })
  unfolding parse_from
  parse_from-cidr addr addresses l cidr e = rw (e, parse_from) refl

  parse_from-addr :
      (addr : String) (addresses : List String) (l : AddressList) (ip : Ip)
      → parse_cidr addr ≡ none
      → parse_addr addr ≡ some ip
      → parse_from parse_cidr parse_addr (addr ∷ addresses) l
        ≡ parse_from parse_cidr parse_addr addresses (record l { ips = l.ips ++ ip ∷ [] })
  unfolding parse_from
  parse_from-addr addr addresses l ip e f = rw (e, f, parse_from) refl

  parse_from-bad :
      (addr : String) (addresses : List String) (l : AddressList)
      → parse_cidr addr ≡ none
      → parse_addr addr ≡ none
      → parse_from parse_cidr parse_addr (addr ∷ addresses) l ≡ none
  unfolding parse_from
  parse_from-bad addr addresses l e f = rw (e, f, parse_from) refl

  Names-cidr :
      (ip : Ip) (addr : String) (cidr : IpNet)
      → parse_cidr addr ≡ some cidr
      → Names ip addr ↔ (contains cidr ip ≡ true)
  Names-cidr ip addr cidr e = (
    λ n. elim n [
      | inl (other, q, c) ↦
          subst (λ r. contains r ip ≡ true) (some-injective other cidr (sym q ∙ e)) c
      | inr (q, f) ↦ cc
    ],
    λ c. inl (cidr, e, c),
  )

  Names-addr :
      (ip known : Ip) (addr : String)
      → parse_cidr addr ≡ none
      → parse_addr addr ≡ some known
      → Names ip addr ↔ (known ≡ ip)
  Names-addr ip known addr e f = (
    λ n. elim n [ inl (other, q, c) ↦ cc | inr (q, g) ↦ some-injective known ip (sym f ∙ g) ],
    λ k. inr (e, f ∙ ap some k),
  )

  parse_from-matches :
      (addresses : List String) (l m : AddressList) (ip : Ip)
      → parse_from parse_cidr parse_addr addresses l ≡ some m
      → (matches_any m (some ip) ≡ true)
        ↔ ((matches_any l (some ip) ≡ true) ⊎ Any (Names ip) addresses)
  unfolding parse_from
  parse_from-matches [] l m ip h =
      let same = some-injective l m h in
      (
        λ t. inl (subst (λ k. matches_any k (some ip) ≡ true) (sym same) t),
        λ s. elim s [
          | inl t ↦ subst (λ k. matches_any k (some ip) ≡ true) same t
          | inr n ↦ absurd n
        ],
      )
  parse_from-matches (addr ∷ addresses) l m ip h = elim (Option-cases (parse_cidr addr)) [
    | inr (cidr, e) ↦
        let rest =
          parse_from-matches addresses (record l { nets = l.nets ++ cidr ∷ [] }) m ip
            (sym (parse_from-cidr addr addresses l cidr e) ∙ h) in
        join_iff rest (matches_any-net l cidr ip) (Names-cidr ip addr cidr e)
    | inl e ↦ elim (Option-cases (parse_addr addr)) [
      | inr (known, f) ↦
          let rest =
            parse_from-matches addresses (record l { ips = l.ips ++ known ∷ [] }) m ip
              (sym (parse_from-addr addr addresses l known e f) ∙ h) in
          join_iff rest (matches_any-ip l known ip) (Names-addr ip known addr e f)
      | inl f ↦ absurd (none-ne-some m (sym (parse_from-bad addr addresses l e f) ∙ h))
    ]
  ]

  matches_any-listed_iff :
      (addresses : List String) (l : AddressList) (client : Option Ip)
      → parse_list parse_cidr parse_addr addresses ≡ some l
      → (matches_any l client ≡ true) ↔ ((ip : Ip) × (client ≡ some ip) × Any (Names ip) addresses)
  unfolding parse_list matches_any
  matches_any-listed_iff addresses l none h = (λ t. cc, λ (ip, e, n). cc)
  matches_any-listed_iff addresses l (some ip) h =
      let found = parse_from-matches addresses (record { nets = []; ips = [] }) l ip h in
      (
        λ t. elim (found.0 t) [ inl f ↦ absurd (no_match ip f) | inr n ↦ (ip, refl, n) ],
        λ (other, e, n).
            found.1
              (inr (subst (λ k. Any (Names k) addresses) (some-injective other ip (sym e)) n)),
      )

  -- The filter forwards a request exactly if its client's address is an allowed one, in the mode of an
  -- allowlist, and in every other mode exactly if it is not a blocked one. An address is allowed or blocked
  -- if one of the configured texts is a range that holds it, or is no range but the address itself; a client
  -- whose address cannot be read is neither.
  pub serve_iff :
      (canonical_ip : Text → Option String) (split_host_port : Text → Option Text)
      (addresses : List String) (l : AddressList) (mode : Mode) (trust_proxy : Bool) (r : Request)
      → parse_list parse_cidr parse_addr addresses ≡ some l
      → let client = parse_addr (extract_client_ip canonical_ip split_host_port trust_proxy r) in
        let listed = (ip : Ip) × (client ≡ some ip) × Any (Names ip) addresses in
        ((serve parse_addr canonical_ip split_host_port mode trust_proxy l r).1 ≡ forward)
        ↔ (((mode ≡ allowlist) × listed) ⊎ ((mode ≢ allowlist) × (listed → ⊥)))
  unfolding serve
  serve_iff canonical_ip split_host_port addresses l mode trust_proxy r h =
      let client = parse_addr (extract_client_ip canonical_ip split_host_port trust_proxy r) in
      let blocked = is_blocked_iff client l mode in
      let listed = matches_any-listed_iff addresses l client h in
      elim (Bool-cases (is_blocked client l mode)) [
        | inl b ↦ rw b (
          λ f. cc,
          λ s. cc (
            b,
            blocked.1 (elim s [
              | inl (m, x) ↦ inl (m, listed.1 x)
              | inr (m, x) ↦ inr (m, λ t. x (listed.0 t))
            ]),
          ),
        )
        | inr f ↦ rw f (
          λ g. elim (blocked.0 f) [
            | inl (m, t) ↦ inl (m, listed.0 t)
            | inr (m, t) ↦ inr (m, λ x. t (listed.1 x))
          ],
          λ s. refl,
        )
      ]
