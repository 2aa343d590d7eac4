-- ===== src/Proposals.antt =====
-- internal/domain/proposal, internal/adapters/proposal/store.go and internal/app/proposal: the
-- changes that an agent proposes and an operator approves or dismisses. The clock, the new ids and
-- the applier, which carries out an approved change, are parameters. The parameters of an action
-- and its diff are left out; a store's calls hold its mutex.
pub mod Lifecycle
pub mod Applied
pub mod Approval
mod Tests
use vibewarden.Prelude.{
  ℕ, ltb, List, [], ◌∷◌, ◌++◌, Bool, true, false, not, ◌&&◌, ◌||◌, Option, none, some, Result, ok,
  err, String, str_eq, if◌then◌else◌,
}
use vibewarden.Prelude.Int.{ℤ, pos, leb_ℤ, add_duration}
use vibewarden.Prelude.Dict.{Dict, lookup, insert}

pub data Status : Type 0 where
  pending approved dismissed expired : Status

pub data ActionType : Type 0 where
  block_ip adjust_rate_limit update_config : ActionType

pub record Proposal : Type 0 where
  pub id : String
  pub action : ActionType
  pub reason : String
  pub status : Status
  pub created_at : ℕ
  pub expires_at : ℕ
  pub source : String

abbrev default_ttl : ℤ
default_ttl = pos 3_600_000_000_000

abbrev pub is_pending : Status → Bool
is_pending pending = true
is_pending _ = false

unfoldable pub is_expired : ℕ → Proposal → Bool
is_expired now p = ltb p.expires_at now

-- A pending proposal whose time is over is expired; any other stays as it is.
unfoldable pub expire : ℕ → Proposal → Proposal
unfolding is_expired
expire now p = if is_pending p.status && is_expired now p then record p { status = expired } else p

-- The loop over all items.
unfoldable pub expire_all : ℕ → Dict Proposal → Dict Proposal
unfolding expire
expire_all now [] = []
expire_all now ((id, p) ∷ items) = (id, expire now p) ∷ expire_all now items

abbrev same_status : Status → Status → Bool
same_status pending pending = true
same_status approved approved = true
same_status dismissed dismissed = true
same_status expired expired = true
same_status _ _ = false

with_status : Option Status → Dict Proposal → List Proposal
with_status status [] = []
with_status none ((id, p) ∷ items) = p ∷ with_status none items
with_status (some s) ((id, p) ∷ items) =
    let rest = with_status (some s) items in if same_status p.status s then p ∷ rest else rest

unfoldable pub store_list : Option Status → ℕ → Dict Proposal → Dict Proposal × List Proposal
unfolding expire_all with_status
store_list status now items =
    let items' = expire_all now items in (items', with_status status items')

pub data ProposalError : Type 0 where
  not_found not_pending apply_failed : ProposalError

unfoldable pub store_get :
    String → ℕ → Dict Proposal → Dict Proposal × Result ProposalError Proposal
unfolding expire
store_get id now items = elim (lookup id items) [
  | none ↦ (items, err not_found)
  | some p ↦
      if is_pending p.status && is_expired now p
      then (insert id (expire now p) items, ok (expire now p))
      else (items, ok p)
]

-- A proposal that is still pending after it is looked at for expiry gets the next status.
settle : Status → String → Proposal → Dict Proposal → Dict Proposal × Result ProposalError Proposal
settle next id p items =
    if not (is_pending p.status)
    then (items, err not_pending)
    else let p' = record p { status = next } in (insert id p' items, ok p')

unfoldable pub transition :
    Status → String → ℕ → Dict Proposal → Dict Proposal × Result ProposalError Proposal
unfolding expire settle
transition next id now items = elim (lookup id items) [
  | none ↦ (items, err not_found)
  | some p ↦
      if is_pending p.status && is_expired now p
      then settle next id (expire now p) (insert id (expire now p) items)
      else settle next id p items
]

pub data Event : Type 0 where
  created_event approved_event dismissed_event : (id : String) → Event

-- The store, the proposals that were handed to the applier with the id that was approved, and the
-- events, oldest first.
pub record Service : Type 0 where
  pub items : Dict Proposal
  pub applied : List (String × Proposal)
  pub events : List Event

pub record CreateParams : Type 0 where
  pub action : ActionType
  pub reason : String
  pub source : String
  pub ttl : ℤ

unfoldable pub create : String → CreateParams → ℕ → Service → Service × Proposal
create id params now s =
    let prop : Proposal = record {
      id = id;
      action = params.action;
      reason = params.reason;
      status = pending;
      created_at = now;
      expires_at = add_duration now (if leb_ℤ params.ttl (pos 0) then default_ttl else params.ttl);
      source = if str_eq params.source "" then "mcp_agent" else params.source;
    } in
    (record s { items = insert id prop s.items; events = s.events ++ created_event id ∷ [] }, prop)

-- What the service makes of the store's answer to Approve.
pub finish_approve :
    (Proposal → Bool)
    → String
    → Dict Proposal × Result ProposalError Proposal
    → Service
    → Service × Result ProposalError Proposal
finish_approve applies id (items, err e) s = (record s { items = items }, err e)
finish_approve applies id (items, ok p) s =
    let s' = record s { items = items; applied = s.applied ++ (id, p) ∷ [] } in
    if applies p
    then (record s' { events = s.events ++ approved_event id ∷ [] }, ok p)
    else (s', err apply_failed)

unfoldable pub approve :
    (Proposal → Bool) → String → ℕ → Service → Service × Result ProposalError Proposal
unfolding transition finish_approve
approve applies id now s = finish_approve applies id (transition approved id now s.items) s

pub finish_dismiss :
    String
    → Dict Proposal × Result ProposalError Proposal
    → Service
    → Service × Result ProposalError Proposal
finish_dismiss id (items, err e) s = (record s { items = items }, err e)
finish_dismiss id (items, ok p) s =
    (record s { items = items; events = s.events ++ dismissed_event id ∷ [] }, ok p)

unfoldable pub dismiss : String → ℕ → Service → Service × Result ProposalError Proposal
unfolding transition finish_dismiss
dismiss id now s = finish_dismiss id (transition dismissed id now s.items) s
