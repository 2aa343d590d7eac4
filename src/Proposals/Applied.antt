-- ===== src/Proposals/Applied.antt =====
-- internal/app/proposal/service.go: how often a change is carried out.
use vibewarden.Prelude.{
  ℕ, ◌+◌, ◌≤◌, ◌≡◌, refl, arith, List, [], ◌∷◌, ◌++◌, Bool, false, All, Option, none, some, Result,
  ok, err, String, str_eq, eq_iff, inl, inr, Option-cases, if◌then◌else◌,
}
use vibewarden.Prelude.Dict.{Dict, lookup, insert, lookup-insert}
use vibewarden.Proposals.{
  Status, Proposal, Service, ProposalError, is_pending, expire, expire_all, store_list, store_get,
  settle, transition, approved, dismissed, create, finish_approve, approve, finish_dismiss, dismiss,
}
use vibewarden.Proposals.Lifecycle.{
  Call, create_call, list_call, get_call, approve_call, dismiss_call, perform, perform_all,
  SparesId, lookup-expire_all, finish_approve-items, finish_dismiss-items,
}

-- How often a change was handed to the applier under this id.
unfoldable pub times_applied : String → List (String × Proposal) → ℕ
times_applied id [] = 0
times_applied id ((other, p) ∷ applied) =
    let rest = times_applied id applied in if str_eq other id then rest + 1 else rest

-- One if the proposal is still pending.
abbrev pub open_count : Option Proposal → ℕ
open_count none = 0
open_count (some p) = if is_pending p.status then 1 else 0

times_applied-append :
    (id : String) (xs ys : List (String × Proposal))
    → times_applied id (xs ++ ys) ≡ times_applied id xs + times_applied id ys
unfolding times_applied
times_applied-append id [] ys = omega arith
times_applied-append id ((other, p) ∷ xs) ys = ground (arith, times_applied-append id xs ys)

open_count-expire :
    (now : ℕ) (p : Proposal) → open_count (some (expire now p)) ≤ open_count (some p)
unfolding expire
open_count-expire now p = ground arith

open_count-expire_all :
    (id : String) (now : ℕ) (items : Dict Proposal)
    → open_count (lookup id (expire_all now items)) ≤ open_count (lookup id items)
open_count-expire_all id now items = elim (Option-cases (lookup id items)) [
  | inl absent ↦ rw (lookup-expire_all id now items, absent) (omega arith)
  | inr (q, found) ↦ rw (lookup-expire_all id now items, found) (open_count-expire now q)
]

open_count-store_get :
    (id other : String) (now : ℕ) (items : Dict Proposal)
    → open_count (lookup id (store_get other now items).0) ≤ open_count (lookup id items)
unfolding store_get
open_count-store_get id other now items = elim (Option-cases (lookup other items)) [
  | inl absent ↦ rw (absent, store_get) (omega arith)
  | inr (q, found) ↦
      rw (found, store_get)
        (ground (
          arith,
          eq_iff other id,
          open_count-expire now q,
          lookup-insert other id (expire now q) items,
        ))
]

won : Result ProposalError Proposal → ℕ
won (ok p) = 1
won (err e) = 0

won_for : String → String → Result ProposalError Proposal → ℕ
won_for id other r = if str_eq other id then won r else 0

open_count-transition :
    (id : String) (next : Status) (other : String) (now : ℕ) (items : Dict Proposal)
    → is_pending next ≡ false
    → open_count (lookup id (transition next other now items).0)
        + won_for id other (transition next other now items).1
      ≤ open_count (lookup id items)
unfolding transition won_for won settle expire
open_count-transition id next other now items settles = elim (Option-cases (lookup other items)) [
  | inl absent ↦ rw (absent, transition) (ground arith)
  | inr (q, found) ↦
      rw (found, transition)
        (ground (
          arith,
          eq_iff other id,
          lookup-insert other id (expire now q) items,
          lookup-insert other id (record q { status = next }) items,
          lookup-insert other id (record (expire now q) { status = next })
              (insert other (expire now q) items),
        ))
]

times_applied-finish_approve :
    (applies : Proposal → Bool) (id other : String)
    (answer : Dict Proposal × Result ProposalError Proposal) (s : Service)
    → times_applied id (finish_approve applies other answer s).0.applied
      ≡ times_applied id s.applied + won_for id other answer.1
unfolding finish_approve won_for won times_applied
times_applied-finish_approve applies id other (items, err e) s = ground arith
times_applied-finish_approve applies id other (items, ok p) s =
    ground (arith, times_applied-append id s.applied ((other, p) ∷ []))

finish_dismiss-applied :
    (other : String) (answer : Dict Proposal × Result ProposalError Proposal) (s : Service)
    → (finish_dismiss other answer s).0.applied ≡ s.applied
unfolding finish_dismiss
finish_dismiss-applied other (items, err e) s = refl
finish_dismiss-applied other (items, ok p) s = refl

-- How often the change was applied, and once more if it still may be.
used : String → Service → ℕ
used id s = times_applied id s.applied + open_count (lookup id s.items)

used-perform :
    (applies : Proposal → Bool) (id : String) (k : Call) (s : Service)
    → SparesId id k
    → used id (perform applies k s) ≤ used id s
unfolding perform create approve dismiss store_list used
used-perform applies id (create_call other params now) s spares =
    rw (lookup-insert other id _ s.items, spares, used) (omega arith)
used-perform applies id (list_call status now) s spares =
    omega (arith, open_count-expire_all id now s.items)
used-perform applies id (get_call other now) s spares =
    omega (arith, open_count-store_get id other now s.items)
used-perform applies id (approve_call other now) s spares =
    let answer = transition approved other now s.items in
    rw (finish_approve-items applies other answer s) (
      omega (
        arith,
        times_applied-finish_approve applies id other answer s,
        open_count-transition id approved other now s.items refl,
      ))
used-perform applies id (dismiss_call other now) s spares =
    let answer = transition dismissed other now s.items in
    rw (finish_dismiss-items other answer s, finish_dismiss-applied other answer s)
      (omega (arith, open_count-transition id dismissed other now s.items refl))

used-perform_all :
    (applies : Proposal → Bool) (id : String) (ks : List Call) (s : Service)
    → All (SparesId id) ks
    → used id (perform_all applies ks s) ≤ used id s
unfolding perform_all
used-perform_all applies id [] s all = omega arith
used-perform_all applies id (k ∷ ks) s (spares, all) = omega (
  arith,
  used-perform applies id k s spares,
  used-perform_all applies id ks (perform applies k s) all,
)

-- Whatever calls follow that do not create a new proposal with its id, a proposal is handed to the
-- applier at most once, and never if it is no longer pending.
pub perform_all-applied :
    (applies : Proposal → Bool) (id : String) (ks : List Call) (s : Service)
    → All (SparesId id) ks
    → times_applied id (perform_all applies ks s).applied
      ≤ times_applied id s.applied + open_count (lookup id s.items)
unfolding used
perform_all-applied applies id ks s all = omega (arith, used-perform_all applies id ks s all)
