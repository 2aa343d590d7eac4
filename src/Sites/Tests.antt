-- ===== src/Sites/Tests.antt =====
-- Runs of the multi-site service, and its theorems at concrete events.
use vibewarden.Prelude.{◌≡◌, ◌⊎◌, refl, arith, [], ◌∷◌, true, false, some, eq_iff}
use vibewarden.Prelude.Dict.{lookup}
use vibewarden.Sites.{
  Site, seen_domain, healthy, created, SiteEvent, Answers, MultiSite, add, healthy_site, claim,
  validate_domains, validate_from, handle_modified, run,
}
use vibewarden.Sites.Domains.Distinct.{validate_domains-IsDistinct}
use vibewarden.Sites.Domains.Preserved.{IsConsistent, run-IsConsistent}
use vibewarden.Sites.Rollback.{handle_modified-atomic}

abbrev blog : Site
blog = record { name = "blog"; config_path = "sites/blog"; domain = some "b.io"; status = healthy }

abbrev serving : MultiSite
serving = record { registry = ("blog", blog) ∷ []; served = ("blog", blog) ∷ []; log = [] }

abbrev blog_event : SiteEvent
blog_event = record { kind = created; site_name = "blog"; config_path = "sites/blog" }

abbrev shop_event : SiteEvent
shop_event = record { kind = created; site_name = "shop"; config_path = "sites/shop" }

abbrev loads : Answers
loads = record { loaded = some "b.io"; reloads = true }

abbrev does_not_reload : Answers
does_not_reload = record { loaded = some "b.io"; reloads = false }

run-IsConsistent_example :
    IsConsistent
      (run
        ((loads, blog_event) ∷ (loads, shop_event) ∷ [])
        (record { registry = []; served = []; log = [] })).registry
run-IsConsistent_example = run-IsConsistent ((loads, blog_event) ∷ (loads, shop_event) ∷ [])

serving-IsConsistent : IsConsistent serving.registry
unfolding lookup validate_domains validate_from claim seen_domain
serving-IsConsistent = record {
  named = λ key s h. ground (arith, eq_iff "blog" key);
  distinct = validate_domains-IsDistinct serving.registry refl;
}

handle_modified-atomic_example :
    ((handle_modified does_not_reload blog_event serving).registry ≡ serving.registry)
      × ((handle_modified does_not_reload blog_event serving).served ≡ serving.served)
    ⊎ ((false ≡ true)
        × ((handle_modified does_not_reload blog_event serving).registry
            ≡ add (healthy_site blog_event "b.io") serving.registry)
        × ((handle_modified does_not_reload blog_event serving).served
            ≡ (handle_modified does_not_reload blog_event serving).registry))
handle_modified-atomic_example =
    handle_modified-atomic does_not_reload blog_event serving "b.io" serving-IsConsistent refl
