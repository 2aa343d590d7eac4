-- ===== src/Proposals/Approval.antt =====
-- internal/app/proposal/service.go, Approve: when it succeeds, and what a refused change leaves.
use vibewarden.Prelude.{
  ℕ, ◌≡◌, ◌↔◌, sym, ◌∙◌, refl, ap, arith, Bool, true, false, some, Result, ok, err, String, inl,
  inr, Option-cases,
}
use vibewarden.Prelude.Dict.{Dict, lookup, insert, lookup-insert_self}
use vibewarden.Proposals.{
  Status, Proposal, Service, ProposalError, is_pending, is_expired, expire, settle, transition,
  approved, finish_approve, approve, apply_failed, not_pending,
}
use vibewarden.Proposals.Lifecycle.{finish_approve-items}

abbrev WasOpen : String → ℕ → Service → Proposal → Type 0
WasOpen id now s p =
    (lookup id s.items ≡ some p) × (is_pending p.status ≡ true) × (is_expired now p ≡ false)

transition-WasOpen :
    (next : Status) (id : String) (now : ℕ) (s : Service) (p : Proposal)
    → WasOpen id now s p
    → transition next id now s.items
      ≡ (insert id (record p { status = next }) s.items, ok (record p { status = next }))
unfolding transition settle
transition-WasOpen next id now s p (found, waiting, fresh) = rw (found, transition) (ground arith)

WasOpen-of_ok :
    (next : Status) (id : String) (now : ℕ) (s : Service) (q : Proposal)
    → (transition next id now s.items).1 ≡ ok q
    → (p : Proposal) × WasOpen id now s p × (q ≡ record p { status = next })
unfolding transition settle expire
WasOpen-of_ok next id now s q h = elim (Option-cases (lookup id s.items)) [
  | inl absent ↦ absurd (ground arith)
  | inr (p, found) ↦ (p, (found, ground arith, ground arith), ground arith)
]

finish_approve_iff :
    (applies : Proposal → Bool) (id : String)
    (answer : Dict Proposal × Result ProposalError Proposal) (s : Service) (q : Proposal)
    → ((finish_approve applies id answer s).1 ≡ ok q) ↔ ((answer.1 ≡ ok q) × (applies q ≡ true))
unfolding finish_approve
finish_approve_iff applies id (items, err e) s q = ground arith
finish_approve_iff applies id (items, ok p) s q = grind arith

-- Approve succeeds with a proposal exactly if the store has it pending and not over at that time,
-- save its status, and the applier carries it out as approved.
approve_iff :
    (applies : Proposal → Bool) (id : String) (now : ℕ) (s : Service) (q : Proposal)
    → ((approve applies id now s).1 ≡ ok q) ↔ (
        (p : Proposal) × (lookup id s.items ≡ some p)
        × (is_pending p.status ≡ true)
        × (is_expired now p ≡ false)
        × (q ≡ record p { status = approved })
        × (applies q ≡ true))
unfolding approve
approve_iff applies id now s q = (
  λ h.
      let (same, applied) = (finish_approve_iff applies id _ s q).0 h in
      let (p, (found, waiting, fresh), settled) = WasOpen-of_ok approved id now s q same in
      (p, found, waiting, fresh, settled, applied),
  λ (p, found, waiting, fresh, settled, applied). (finish_approve_iff applies id _ s q).1 (
    ap (λ x. x.1) (transition-WasOpen approved id now s p (found, waiting, fresh))
        ∙ ap (λ x. ok x) (sym settled),
    applied,
  ),
)

transition-settled :
    (next : Status) (id : String) (later : ℕ) (items : Dict Proposal) (p : Proposal)
    → lookup id items ≡ some p
    → is_pending p.status ≡ false
    → (transition next id later items).1 ≡ err not_pending
unfolding transition settle
transition-settled next id later items p found settled = rw (found, transition) (ground arith)

finish_approve-err :
    (applies : Proposal → Bool) (id : String)
    (answer : Dict Proposal × Result ProposalError Proposal) (s : Service) (e : ProposalError)
    → answer.1 ≡ err e
    → (finish_approve applies id answer s).1 ≡ err e
unfolding finish_approve
finish_approve-err applies id (items, err e') s e h = h
finish_approve-err applies id (items, ok p) s e h = absurd (ground arith)

-- If the applier refuses a pending proposal that is not over, Approve fails, but the store keeps it
-- as approved: the Approve of its id that comes next, at whatever time, fails because it is not
-- pending, whatever the applier says then.
pub approve-refused :
    (applies retried : Proposal → Bool) (id : String) (now later : ℕ) (s : Service) (p : Proposal)
    → lookup id s.items ≡ some p
    → is_pending p.status ≡ true
    → is_expired now p ≡ false
    → applies (record p { status = approved }) ≡ false
    → ((approve applies id now s).1 ≡ err apply_failed)
      × (lookup id (approve applies id now s).0.items ≡ some (record p { status = approved }))
      × ((approve retried id later (approve applies id now s).0).1 ≡ err not_pending)
unfolding approve finish_approve
approve-refused applies retried id now later s p found waiting fresh refused =
    let answered = transition-WasOpen approved id now s p (found, waiting, fresh) in
    let kept : lookup id (approve applies id now s).0.items
        ≡ some (record p { status = approved }) =
      rw (finish_approve-items applies id (transition approved id now s.items) s, answered)
        (lookup-insert_self id (record p { status = approved }) s.items) in
    (
      rw (answered, refused, finish_approve) refl,
      kept,
      finish_approve-err retried id _ (approve applies id now s).0 not_pending (
          transition-settled approved id later (approve applies id now s).0.items
            (record p { status = approved }) kept refl),
    )
