-- ===== src/Proposals/Lifecycle.antt =====
-- internal/app/proposal/service.go: proposals over any calls on the service.
use vibewarden.Prelude.{
  ℕ, ◌≡◌, ◌∙◌, refl, arith, List, [], ◌∷◌, Bool, false, All, Option, none, some, Result, ok, err,
  String, str_eq, eq_iff, inl, inr, Option-cases,
}
use vibewarden.Prelude.Dict.{Dict, lookup, insert, lookup-insert}
use vibewarden.Proposals.{
  Status, Proposal, CreateParams, Service, is_pending, expire, expire_all, store_list, store_get,
  settle, transition, ProposalError, approved, dismissed, create, finish_approve, approve,
  finish_dismiss, dismiss,
}

-- Calls on one service, each with its arguments; Create comes with the id that it generates.
pub data Call : Type 0 where
  create_call : String → CreateParams → ℕ → Call
  list_call : Option Status → ℕ → Call
  get_call approve_call dismiss_call : (id : String) → (now : ℕ) → Call

unfoldable pub perform : (Proposal → Bool) → Call → Service → Service
perform applies (create_call id params now) s = (create id params now s).0
perform applies (list_call status now) s = record s { items = (store_list status now s.items).0 }
perform applies (get_call id now) s = record s { items = (store_get id now s.items).0 }
perform applies (approve_call id now) s = (approve applies id now s).0
perform applies (dismiss_call id now) s = (dismiss id now s).0

unfoldable pub perform_all : (Proposal → Bool) → List Call → Service → Service
perform_all applies [] s = s
perform_all applies (k ∷ ks) s = perform_all applies ks (perform applies k s)

-- The call does not create a proposal with this id.
abbrev pub SparesId : String → Call → Type 0
SparesId id (create_call other params now) = str_eq other id ≡ false
SparesId id _ = Unit

pub lookup-expire_all :
    (id : String) (now : ℕ) (items : Dict Proposal)
    → lookup id (expire_all now items)
      ≡ elim (lookup id items) [ none ↦ none | some p ↦ some (expire now p) ]
unfolding expire_all lookup
lookup-expire_all id now [] = refl
lookup-expire_all id now ((other, p) ∷ items) = ground (arith, lookup-expire_all id now items)

module _ (id : String) (p : Proposal) where
  -- The store has this proposal under the id.
  abbrev Has : Dict Proposal → Type 0
  Has items = lookup id items ≡ some p

  module _ (is_settled : is_pending p.status ≡ false) where
    expire_all-Has : (now : ℕ) (items : Dict Proposal) → Has items → Has (expire_all now items)
    unfolding expire
    expire_all-Has now items has = lookup-expire_all id now items ∙ rw has (ground arith)

    store_get-Has :
        (other : String) (now : ℕ) (items : Dict Proposal)
        → Has items
        → Has (store_get other now items).0
    unfolding store_get expire
    store_get-Has other now items has = elim (Option-cases (lookup other items)) [
      | inl absent ↦ rw (absent, store_get) has
      | inr (q, found) ↦
          rw (found, store_get)
            (ground (arith, eq_iff other id, lookup-insert other id (expire now q) items))
    ]

    transition-Has :
        (next : Status) (other : String) (now : ℕ) (items : Dict Proposal)
        → Has items
        → Has (transition next other now items).0
    unfolding transition settle expire
    transition-Has next other now items has = elim (Option-cases (lookup other items)) [
      | inl absent ↦ rw (absent, transition) has
      | inr (q, found) ↦
          rw (found, transition)
            (ground (
              arith,
              eq_iff other id,
              lookup-insert other id (expire now q) items,
              lookup-insert other id (record q { status = next }) items,
              lookup-insert other id (record (expire now q) { status = next })
                  (insert other (expire now q) items),
            ))
    ]

pub finish_approve-items :
    (applies : Proposal → Bool) (id : String)
    (answer : Dict Proposal × Result ProposalError Proposal) (s : Service)
    → (finish_approve applies id answer s).0.items ≡ answer.0
unfolding finish_approve
finish_approve-items applies id (items, err e) s = refl
finish_approve-items applies id (items, ok p) s = ground arith

pub finish_dismiss-items :
    (id : String) (answer : Dict Proposal × Result ProposalError Proposal) (s : Service)
    → (finish_dismiss id answer s).0.items ≡ answer.0
unfolding finish_dismiss
finish_dismiss-items id (items, err e) s = refl
finish_dismiss-items id (items, ok p) s = refl

module _ (applies : Proposal → Bool) (id : String) (p : Proposal)
    (is_settled : is_pending p.status ≡ false) where
  perform-Has :
      (k : Call) (s : Service)
      → SparesId id k
      → Has id p s.items
      → Has id p (perform applies k s).items
  unfolding perform create approve dismiss store_list
  perform-Has (create_call other params now) s spares has =
      lookup-insert other id _ s.items ∙ rw spares has
  perform-Has (list_call status now) s spares has = expire_all-Has id p is_settled now s.items has
  perform-Has (get_call other now) s spares has =
      store_get-Has id p is_settled other now s.items has
  perform-Has (approve_call other now) s spares has =
      rw (finish_approve-items applies other (transition approved other now s.items) s)
        (transition-Has id p is_settled approved other now s.items has)
  perform-Has (dismiss_call other now) s spares has =
      rw (finish_dismiss-items other (transition dismissed other now s.items) s)
        (transition-Has id p is_settled dismissed other now s.items has)

-- A proposal that is approved, dismissed or expired stays exactly as it is, whatever calls follow
-- that do not create a new one with its id.
perform_all-settled :
    (applies : Proposal → Bool) (id : String) (p : Proposal) (ks : List Call) (s : Service)
    → is_pending p.status ≡ false
    → lookup id s.items ≡ some p
    → All (SparesId id) ks
    → lookup id (perform_all applies ks s).items ≡ some p
unfolding perform_all
perform_all-settled applies id p [] s is_settled has all = has
perform_all-settled applies id p (k ∷ ks) s is_settled has (spares, all) =
    perform_all-settled applies id p ks (perform applies k s) is_settled
      (perform-Has applies id p is_settled k s spares has) all
