-- ===== src/Sites/Rollback.antt =====
-- internal/app/reload/multisite_service.go: what a refused change leaves behind.
use vibewarden.Prelude.{
  ◌≡◌, ◌⊎◌, ◌∙◌, refl, ap, Bool, true, false, Option, none, some, String, inl, inr, Bool-cases,
  Option-cases,
}
use vibewarden.Prelude.Dict.{
  lookup, insert, delete, lookup-delete_self, delete-insert_new, insert-insert_old,
}
use vibewarden.Sites.{
  Site, SiteEvent, Answers, MultiSite, LogEvent, site_updated, site_load_failed, add, remove,
  validate_domains, valid_name, emit, healthy_site, rollback_site, apply_site, handle_created,
  handle_modified,
}
use vibewarden.Sites.Domains.Preserved.{IsConsistent}

rollback_site-add :
    (s : Site) (ms : MultiSite)
    → IsConsistent ms.registry
    → (rollback_site
        (lookup s.name ms.registry)
        s.name
        (record ms { registry = add s ms.registry })).registry
      ≡ ms.registry
unfolding rollback_site add remove
rollback_site-add s ms c = elim (Option-cases (lookup s.name ms.registry)) [
  | inl absent ↦ rw (absent, rollback_site, remove) (delete-insert_new s.name s ms.registry absent)
  | inr (prev, found) ↦
      rw (found, rollback_site)
        (ap (λ key. insert key prev (insert s.name s ms.registry)) (c.named s.name prev found)
          ∙ insert-insert_old s.name prev s ms.registry found)
]

rollback_site-served :
    (prev : Option Site) (name : String) (ms : MultiSite)
    → (rollback_site prev name ms).served ≡ ms.served
unfolding rollback_site
rollback_site-served none name ms = refl
rollback_site-served (some prev) name ms = refl

-- Nothing is changed, or the site is in and the proxy serves the new registry.
abbrev AllOrNothing : Site → Bool → MultiSite → MultiSite → Type 0
AllOrNothing s reloads before after =
    ((after.registry ≡ before.registry) × (after.served ≡ before.served))
    ⊎ ((reloads ≡ true)
        × (after.registry ≡ add s before.registry)
        × (after.served ≡ after.registry))

apply_site-AllOrNothing :
    (reloads : Bool) (s : Site) (done failed : LogEvent) (ms : MultiSite)
    → IsConsistent ms.registry
    → AllOrNothing s reloads ms
        (apply_site reloads s (rollback_site (lookup s.name ms.registry) s.name) done failed ms)
unfolding apply_site emit
apply_site-AllOrNothing reloads s done failed ms c =
    let ms' : MultiSite = record ms { registry = add s ms.registry } in
    let same = rollback_site-add s ms c in
    let served = rollback_site-served (lookup s.name ms.registry) s.name ms' in
    elim (Bool-cases (validate_domains (add s ms.registry))) [
      | inr invalid ↦ rw (invalid, apply_site) (inl (same, served))
      | inl valid ↦ elim (Bool-cases reloads) [
        | inr failing ↦ rw (valid, failing, apply_site) (inl (same, served))
        | inl reloaded ↦ rw (valid, reloaded, apply_site) (inr (refl, refl, refl))
      ]
    ]

-- From a consistent registry, a changed config that loads is taken over by the registry and by the
-- proxy, which then has reloaded, or by neither, and both are as before.
pub handle_modified-atomic :
    (answers : Answers) (ev : SiteEvent) (ms : MultiSite) (domain : String)
    → IsConsistent ms.registry
    → answers.loaded ≡ some domain
    → let after = handle_modified answers ev ms in
      ((after.registry ≡ ms.registry) × (after.served ≡ ms.served))
      ⊎ ((answers.reloads ≡ true)
          × (after.registry ≡ add (healthy_site ev domain) ms.registry)
          × (after.served ≡ after.registry))
unfolding handle_modified emit healthy_site
handle_modified-atomic answers ev ms domain c loaded = elim (Bool-cases (valid_name ev.site_name)) [
  | inr invalid ↦ rw (loaded, invalid, handle_modified) (inl (refl, refl))
  | inl valid ↦
      rw (loaded, valid, handle_modified)
        (apply_site-AllOrNothing answers.reloads (healthy_site ev domain)
          (site_updated ev.site_name domain) (site_load_failed ev.site_name) ms c)
]

-- If the proxy does not reload after the created event of a valid site, its name is gone from the
-- registry, a site that was served under it before included, while the proxy serves what it did.
handle_created-drops :
    (answers : Answers) (ev : SiteEvent) (ms : MultiSite) (domain : String)
    → answers.loaded ≡ some domain
    → answers.reloads ≡ false
    → valid_name ev.site_name ≡ true
    → (lookup ev.site_name (handle_created answers ev ms).registry ≡ none)
      × ((handle_created answers ev ms).served ≡ ms.served)
unfolding handle_created apply_site rollback_site remove emit add healthy_site
handle_created-drops answers ev ms domain loaded failing valid =
    let gone : lookup ev.site_name
          (delete ev.site_name (insert ev.site_name (healthy_site ev domain) ms.registry))
        ≡ none =
      lookup-delete_self ev.site_name _ in
    elim (Bool-cases (validate_domains (add (healthy_site ev domain) ms.registry))) [
      | inr invalid ↦
          rw (loaded, valid, invalid, handle_created, apply_site, rollback_site, remove)
            (gone, refl)
      | inl distinct ↦
          rw (loaded, valid, distinct, failing, handle_created, apply_site, rollback_site, remove)
            (gone, refl)
    ]
