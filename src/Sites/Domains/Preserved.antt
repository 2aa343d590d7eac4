-- ===== src/Sites/Domains/Preserved.antt =====
-- internal/app/reload/multisite_service.go: the domains of the healthy sites stay distinct.
use vibewarden.Prelude.{
  ◌≡◌, ◌⊎◌, ◌∙◌, sym, refl, ap, arith, List, [], ◌∷◌, Bool, true, Option, none, some, String,
  str_eq, eq_iff, inl, inr, Bool-cases, Option-cases,
}
use vibewarden.Prelude.Dict.{
  lookup, insert, delete, lookup-insert, lookup-delete, lookup-delete_self, delete-insert,
  insert-insert_old,
}
use vibewarden.Sites.{
  Site, Registry, SiteEvent, SiteEventKind, created, modified, removed, Answers, MultiSite,
  LogEvent, site_added, site_updated, site_load_failed, claim, add, remove, validate_from,
  validate_domains, valid_name, emit, error_site, healthy_site, mark_site_error, rollback_site,
  apply_site, handle_created, handle_modified, handle_removed, handle_event, handle_kind, run,
}
use vibewarden.Sites.Domains.Distinct.{IsDistinct, validate_domains-IsDistinct}
use vibewarden.Sites.Domains.{
  validate_from-unclaimed, validate_from-claimed, validate_from-delete,
  validate_from-insert_unclaimed, validate_from-insert_last,
}

validate_from-back_head :
    (key name : String) (old : Site) (seen : List String) (r : Registry)
    → validate_from seen ((name, old) ∷ r) ≡ true
    → validate_from seen (insert key old (delete key r)) ≡ true
validate_from-back_head key name old seen r h = elim (Option-cases (claim old)) [
  | inl unclaimed ↦ validate_from-insert_unclaimed key old seen (delete key r) unclaimed (
      validate_from-delete key seen r (sym (validate_from-unclaimed seen name old r unclaimed) ∙ h))
  | inr (d, claimed) ↦ ground (
    arith,
    validate_from-claimed seen name old r d claimed,
    validate_from-delete key (d ∷ seen) r,
    lookup-delete_self key r,
    validate_from-insert_last key old d seen (delete key r) claimed,
  )
]

-- A site that is taken out can come back last.
validate_from-back :
    (key : String) (old : Site) (seen : List String) (r : Registry)
    → lookup key r ≡ some old
    → validate_from seen r ≡ true
    → validate_from seen (insert key old (delete key r)) ≡ true
unfolding lookup insert delete
validate_from-back key old seen [] found h = absurd (ground arith)
validate_from-back key old seen ((name, s) ∷ r) found h = elim (Bool-cases (str_eq name key)) [
  | inl same ↦
      let is_old : s ≡ old = ground arith in
      rw same (validate_from-back_head key name old seen r (rw (← is_old) h))
  | inr other ↦ elim (Option-cases (claim s)) [
    | inl unclaimed ↦ ground (
      arith,
      validate_from-unclaimed seen name s r unclaimed,
      validate_from-unclaimed seen name s (insert key old (delete key r)) unclaimed,
      validate_from-back key old seen r,
    )
    | inr (d, claimed) ↦ ground (
      arith,
      validate_from-claimed seen name s r d claimed,
      validate_from-claimed seen name s (insert key old (delete key r)) d claimed,
      validate_from-back key old (d ∷ seen) r,
    )
  ]
]

-- Every site is kept under its name.
abbrev Named : Registry → Type 0
Named r = (key : String) (s : Site) → lookup key r ≡ some s → s.name ≡ key

-- Every site is kept under its name, and the check of the domains passes.
pub record IsValid (r : Registry) : Type 0 where
  pub named : (key : String) (s : Site) → lookup key r ≡ some s → s.name ≡ key
  pub valid : validate_domains r ≡ true

Named-insert : (s : Site) (r : Registry) → Named r → Named (insert s.name s r)
Named-insert s r named key found h =
    ground (arith, lookup-insert s.name key s r, eq_iff s.name key, named key found)

Named-delete : (name : String) (r : Registry) → Named r → Named (delete name r)
Named-delete name r named key found h = ground (arith, lookup-delete name key r, named key found)

mark_site_error-IsValid :
    (ev : SiteEvent) (ms : MultiSite)
    → IsValid ms.registry
    → IsValid (mark_site_error ev ms).registry
unfolding mark_site_error add error_site validate_domains claim
mark_site_error-IsValid ev ms c = elim (Bool-cases (valid_name ev.site_name)) [
  | inl valid ↦
      rw (valid, mark_site_error)
        (record {
          named = Named-insert (error_site ev) ms.registry c.named;
          valid =
              validate_from-insert_unclaimed ev.site_name (error_site ev) [] ms.registry refl
                c.valid;
        })
  | inr invalid ↦ rw (invalid, mark_site_error) c
]

-- The undoing of a site that was just added leaves a consistent registry.
rollback_site-IsValid :
    (prev : Option Site) (s : Site) (ms : MultiSite)
    → (prev ≡ none) ⊎ (prev ≡ lookup s.name ms.registry)
    → IsValid ms.registry
    → IsValid (rollback_site prev s.name (record ms { registry = add s ms.registry })).registry
unfolding rollback_site add remove validate_domains
rollback_site-IsValid none s ms origin c = rw (delete-insert s.name s ms.registry) (record {
  named = Named-delete s.name ms.registry c.named;
  valid = validate_from-delete s.name [] ms.registry c.valid;
})
rollback_site-IsValid (some prev) s ms origin c =
    let found : lookup s.name ms.registry ≡ some prev = ground arith in
    let same : prev.name ≡ s.name = c.named s.name prev found in
    let back : add prev (add s ms.registry) ≡ ms.registry =
      ap (λ key. insert key prev (insert s.name s ms.registry)) same
      ∙ insert-insert_old s.name prev s ms.registry found in
    rw back c

apply_site-IsValid :
    (reloads : Bool) (prev : Option Site) (s : Site) (done failed : LogEvent) (ms : MultiSite)
    → (prev ≡ none) ⊎ (prev ≡ lookup s.name ms.registry)
    → IsValid ms.registry
    → IsValid (apply_site reloads s (rollback_site prev s.name) done failed ms).registry
unfolding apply_site emit add
apply_site-IsValid reloads prev s done failed ms origin c =
    let undone = rollback_site-IsValid prev s ms origin c in
    elim (Bool-cases (validate_domains (add s ms.registry))) [
      | inr invalid ↦ rw (invalid, apply_site) undone
      | inl valid ↦ elim (Bool-cases reloads) [
        | inr failing ↦ rw (valid, failing, apply_site) undone
        | inl reloaded ↦
            rw (valid, reloaded, apply_site)
              (record { named = Named-insert s ms.registry c.named; valid = valid })
      ]
    ]

handle_created-IsValid :
    (answers : Answers) (ev : SiteEvent) (ms : MultiSite)
    → IsValid ms.registry
    → IsValid (handle_created answers ev ms).registry
unfolding handle_created emit healthy_site
handle_created-IsValid answers ev ms c = elim (Option-cases answers.loaded) [
  | inl broken ↦ rw (broken, handle_created) (mark_site_error-IsValid ev ms c)
  | inr (domain, loaded) ↦ elim (Bool-cases (valid_name ev.site_name)) [
    | inr invalid ↦ rw (loaded, invalid, handle_created) c
    | inl valid ↦
        rw (loaded, valid, handle_created)
          (apply_site-IsValid answers.reloads none (healthy_site ev domain)
            (site_added ev.site_name domain) (site_load_failed ev.site_name) ms (inl refl) c)
  ]
]

handle_modified-IsValid :
    (answers : Answers) (ev : SiteEvent) (ms : MultiSite)
    → IsValid ms.registry
    → IsValid (handle_modified answers ev ms).registry
unfolding handle_modified emit healthy_site
handle_modified-IsValid answers ev ms c = elim (Option-cases answers.loaded) [
  | inl broken ↦ rw (broken, handle_modified) (mark_site_error-IsValid ev ms c)
  | inr (domain, loaded) ↦ elim (Bool-cases (valid_name ev.site_name)) [
    | inr invalid ↦ rw (loaded, invalid, handle_modified) c
    | inl valid ↦
        rw (loaded, valid, handle_modified)
          (apply_site-IsValid answers.reloads (lookup ev.site_name ms.registry)
            (healthy_site ev domain) (site_updated ev.site_name domain)
            (site_load_failed ev.site_name) ms (inr refl) c)
  ]
]

handle_removed-IsValid :
    (answers : Answers) (ev : SiteEvent) (ms : MultiSite)
    → IsValid ms.registry
    → IsValid (handle_removed answers ev ms).registry
unfolding handle_removed remove emit rollback_site add validate_domains
handle_removed-IsValid answers ev ms c =
    let gone : IsValid (delete ev.site_name ms.registry) = record {
      named = Named-delete ev.site_name ms.registry c.named;
      valid = validate_from-delete ev.site_name [] ms.registry c.valid;
    } in
    elim (Option-cases (lookup ev.site_name ms.registry)) [
      | inl absent ↦ rw (absent, handle_removed, remove) gone
      | inr (prev, found) ↦ elim (Bool-cases answers.reloads) [
        | inl reloaded ↦ rw (found, reloaded, handle_removed, remove) gone
        | inr failing ↦
            let same : prev.name ≡ ev.site_name = c.named ev.site_name prev found in
            let restored : IsValid (insert prev.name prev (delete ev.site_name ms.registry)) =
              record {
                named = Named-insert prev (delete ev.site_name ms.registry) gone.named;
                valid =
                    ap (λ key. validate_from [] (insert key prev (delete ev.site_name ms.registry)))
                      same
                    ∙ validate_from-back ev.site_name prev [] ms.registry found c.valid;
              } in
            rw (found, failing, handle_removed, remove) restored
      ]
    ]

event_kinds : (k : SiteEventKind) → (k ≡ created) ⊎ (k ≡ modified) ⊎ (k ≡ removed)
event_kinds created = inl refl
event_kinds modified = inr (inl refl)
event_kinds removed = inr (inr refl)

handle_event-IsValid :
    (answers : Answers) (ev : SiteEvent) (ms : MultiSite)
    → IsValid ms.registry
    → IsValid (handle_event answers ev ms).registry
unfolding handle_event handle_kind
handle_event-IsValid answers ev ms c = elim (event_kinds ev.kind) [
  | inl kind ↦ rw (kind, handle_event) (handle_created-IsValid answers ev ms c)
  | inr (inl kind) ↦ rw (kind, handle_event) (handle_modified-IsValid answers ev ms c)
  | inr (inr kind) ↦ rw (kind, handle_event) (handle_removed-IsValid answers ev ms c)
]

run-IsValid :
    (evs : List (Answers × SiteEvent)) (ms : MultiSite)
    → IsValid ms.registry
    → IsValid (run evs ms).registry
unfolding run
run-IsValid [] ms c = c
run-IsValid ((answers, ev) ∷ evs) ms c =
    run-IsValid evs (handle_event answers ev ms) (handle_event-IsValid answers ev ms c)

-- Every site is kept under its name, and no two of them are healthy with one domain.
pub record IsConsistent (r : Registry) : Type 0 where
  pub named : (key : String) (s : Site) → lookup key r ≡ some s → s.name ≡ key
  pub distinct : IsDistinct r

-- Whatever events come, and whatever the loads and the reloads answer, from an empty registry on
-- each site is kept under its name, and no two sites under different names are both healthy with the
-- same domain, save for the empty one.
pub run-IsConsistent :
    (evs : List (Answers × SiteEvent))
    → IsConsistent (run evs (record { registry = []; served = []; log = [] })).registry
unfolding validate_domains validate_from lookup
run-IsConsistent evs =
    let valid =
      run-IsValid evs (record { registry = []; served = []; log = [] })
        (record { named = λ key s h. cc; valid = refl }) in
    record { named = valid.named; distinct = validate_domains-IsDistinct _ valid.valid }
