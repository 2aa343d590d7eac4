-- ===== src/Proposals/Tests.antt =====
-- Runs of the proposal service, and its theorems at concrete proposals.
use vibewarden.Prelude.{◌+◌, ◌≤◌, ◌≡◌, refl, [], ◌∷◌, true, false, some, err}
use vibewarden.Prelude.Dict.{lookup}
use vibewarden.Proposals.{
  pending, approved, block_ip, Proposal, Service, is_expired, approve, not_pending, apply_failed,
}
use vibewarden.Proposals.Lifecycle.{approve_call, perform_all}
use vibewarden.Proposals.Applied.{times_applied, open_count, perform_all-applied}
use vibewarden.Proposals.Approval.{approve-refused}

abbrev block : Proposal
block = record {
  id = "p1";
  action = block_ip;
  reason = "scan";
  status = pending;
  created_at = 100;
  expires_at = 200;
  source = "mcp_agent";
}

abbrev one_pending : Service
one_pending = record { items = ("p1", block) ∷ []; applied = []; events = [] }

perform_all-applied_example :
    times_applied "p1"
      (perform_all
        (λ p. true)
        (approve_call "p1" 150 ∷ approve_call "p1" 151 ∷ [])
        one_pending).applied
    ≤ times_applied "p1" one_pending.applied + open_count (lookup "p1" one_pending.items)
perform_all-applied_example =
    perform_all-applied (λ p. true) "p1" (approve_call "p1" 150 ∷ approve_call "p1" 151 ∷ [])
      one_pending (tt, (tt, tt))

approve-refused_example :
    ((approve (λ p. false) "p1" 150 one_pending).1 ≡ err apply_failed)
    × (lookup "p1" (approve (λ p. false) "p1" 150 one_pending).0.items
        ≡ some (record block { status = approved }))
    × ((approve (λ p. true) "p1" 160 (approve (λ p. false) "p1" 150 one_pending).0).1
        ≡ err not_pending)
unfolding lookup is_expired
approve-refused_example =
    approve-refused (λ p. false) (λ p. true) "p1" 150 160 one_pending block refl refl refl refl
