-- ===== src/Sites.antt =====
-- internal/domain/site/registry.go and internal/app/reload/multisite_service.go: the sites of one
-- proxy, kept up to date from the events of their config files. The loading of a config and the
-- reload of the proxy are parameters, one answer for each event. A site's config is its domain here,
-- and events are handled one after another.
pub mod Domains
pub mod Rollback
mod Tests
use vibewarden.Prelude.{
  ℕ, List, [], ◌∷◌, ◌++◌, Bool, true, false, not, ◌&&◌, ◌||◌, Option, none, some, Result, ok, err,
  String, str_eq, leb, ◌==◌, length, if◌then◌else◌,
}
use vibewarden.Prelude.Text.{Text, text_of}
use vibewarden.Prelude.Dict.{Dict, lookup, insert, delete}

pub data SiteStatus : Type 0 where
  healthy errored : SiteStatus

-- The domain is that of the config, and none if there is no config.
pub record Site : Type 0 where
  pub name : String
  pub config_path : String
  pub domain : Option String
  pub status : SiteStatus

abbrev pub Registry : Type 0
Registry = Dict Site

unfoldable pub add : Site → Registry → Registry
add s r = insert s.name s r

unfoldable pub remove : String → Registry → Registry × Bool
remove name r = (delete name r, elim (lookup name r) [ none ↦ false | some s ↦ true ])

-- The domain that a site claims: that of a healthy one, if it is not "".
unfoldable pub claim : Site → Option String
claim s = elim s.status [
  | errored ↦ none
  | healthy ↦ elim s.domain [ none ↦ none | some d ↦ if str_eq d "" then none else some d ]
]

-- Whether an earlier site has claimed the domain: `seen[domain]`.
unfoldable pub seen_domain : String → List String → Bool
seen_domain d [] = false
seen_domain d (e ∷ seen) = str_eq e d || seen_domain d seen

unfoldable pub validate_from : List String → Registry → Bool
validate_from seen [] = true
validate_from seen ((name, s) ∷ r) =
    let unclaimed = validate_from seen r in
    elim (claim s) [
      | none ↦ unclaimed
      | some d ↦
          let claimed = validate_from (d ∷ seen) r in if seen_domain d seen then false else claimed
    ]

-- Whether ValidateDomains gives no error.
unfoldable pub validate_domains : Registry → Bool
validate_domains r = validate_from [] r

is_lower_or_digit : ℕ → Bool
is_lower_or_digit c = (leb b'a' c && leb c b'z') || (leb b'0' c && leb c b'9')

-- The rest of a name after its first character: letters, digits and dashes, no dash at the end.
ends_well : Text → Bool
ends_well [] = true
ends_well (c ∷ []) = is_lower_or_digit c
ends_well (c ∷ d ∷ s) = (is_lower_or_digit c || c == b'-') && ends_well (d ∷ s)

starts_well : Text → Bool
starts_well [] = false
starts_well (c ∷ s) = is_lower_or_digit c && ends_well s

unfoldable pub valid_name : String → Bool
unfolding is_lower_or_digit ends_well starts_well
valid_name name = leb (length (text_of name)) 63 && starts_well (text_of name)

pub data SiteEventKind : Type 0 where
  created modified removed : SiteEventKind

pub record SiteEvent : Type 0 where
  pub kind : SiteEventKind
  pub site_name : String
  pub config_path : String

-- What the loading of the event's config and the reload of the proxy answer.
pub record Answers : Type 0 where
  pub loaded : Option String
  pub reloads : Bool

pub data LogEvent : Type 0 where
  site_added site_updated : (name domain : String) → LogEvent
  site_removed site_load_failed : (name : String) → LogEvent

-- The registry, what the proxy serves (the registry at its last reload), and the events emitted.
pub record MultiSite : Type 0 where
  pub registry : Registry
  pub served : Registry
  pub log : List LogEvent

emit : LogEvent → MultiSite → MultiSite
emit e ms = record ms { log = ms.log ++ e ∷ [] }

unfoldable pub healthy_site : SiteEvent → String → Site
healthy_site ev domain = record {
  name = ev.site_name;
  config_path = ev.config_path;
  domain = some domain;
  status = healthy;
}

error_site : SiteEvent → Site
error_site ev = record {
  name = ev.site_name;
  config_path = ev.config_path;
  domain = none;
  status = errored;
}

unfoldable pub mark_site_error : SiteEvent → MultiSite → MultiSite
unfolding add error_site
mark_site_error ev ms =
    if valid_name ev.site_name then record ms { registry = add (error_site ev) ms.registry } else ms

unfoldable pub rollback_site : Option Site → String → MultiSite → MultiSite
unfolding add remove
rollback_site none name ms = record ms { registry = (remove name ms.registry).0 }
rollback_site (some prev) name ms = record ms { registry = add prev ms.registry }

-- The site is added, and undone unless the domains are valid and the proxy reloads.
apply_site : Bool → Site → (MultiSite → MultiSite) → LogEvent → LogEvent → MultiSite → MultiSite
unfolding add validate_domains emit
apply_site reloads s undo done failed ms =
    let ms' = record ms { registry = add s ms.registry } in
    if not (validate_domains ms'.registry)
    then emit failed (undo ms')
    else if not reloads
    then emit failed (undo ms')
    else emit done (record ms' { served = ms'.registry })

unfoldable pub handle_created : Answers → SiteEvent → MultiSite → MultiSite
unfolding mark_site_error rollback_site apply_site healthy_site emit
handle_created answers ev ms = elim answers.loaded [
  | none ↦ emit (site_load_failed ev.site_name) (mark_site_error ev ms)
  | some domain ↦
      if valid_name ev.site_name
      then apply_site answers.reloads (healthy_site ev domain) (rollback_site none ev.site_name)
          (site_added ev.site_name domain) (site_load_failed ev.site_name) ms
      else emit (site_load_failed ev.site_name) ms
]

unfoldable pub handle_modified : Answers → SiteEvent → MultiSite → MultiSite
unfolding mark_site_error rollback_site apply_site healthy_site emit
handle_modified answers ev ms = elim answers.loaded [
  | none ↦ emit (site_load_failed ev.site_name) (mark_site_error ev ms)
  | some domain ↦
      if valid_name ev.site_name
      then apply_site answers.reloads (healthy_site ev domain)
          (rollback_site (lookup ev.site_name ms.registry) ev.site_name)
          (site_updated ev.site_name domain) (site_load_failed ev.site_name) ms
      else emit (site_load_failed ev.site_name) ms
]

unfoldable pub handle_removed : Answers → SiteEvent → MultiSite → MultiSite
unfolding remove rollback_site emit
handle_removed answers ev ms =
    let (r, existed) = remove ev.site_name ms.registry in
    let ms' = record ms { registry = r } in
    if not existed
    then ms'
    else if not answers.reloads
    then rollback_site (lookup ev.site_name ms.registry) ev.site_name ms'
    else emit (site_removed ev.site_name) (record ms' { served = r })

handle_kind : SiteEventKind → Answers → SiteEvent → MultiSite → MultiSite
handle_kind created = handle_created
handle_kind modified = handle_modified
handle_kind removed = handle_removed

unfoldable pub handle_event : Answers → SiteEvent → MultiSite → MultiSite
unfolding handle_kind handle_created handle_modified handle_removed
handle_event answers ev ms = handle_kind ev.kind answers ev ms

-- The events that Run handles, one after another.
unfoldable pub run : List (Answers × SiteEvent) → MultiSite → MultiSite
run [] ms = ms
run ((answers, ev) ∷ evs) ms = run evs (handle_event answers ev ms)
