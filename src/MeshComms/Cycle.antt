-- ===== src/MeshComms/Cycle.antt =====
-- The states that meshCommsCycle reaches.
use edge_pdl.Prelude.{◌+◌, ◌-◌, ◌%◌, ◌^◌, Bool, true, false, Bool-cases, inl, inr, ltb, ◌≡◌, refl}
use edge_pdl.MeshComms.{
  CommsState, at_init, at_sync, at_cloud, at_idle, Comms, SyncResult, in_progress, success, error,
  Answers, init, init_cycle, sync_cycle, work_cycle, cloud_state_cycle, cycle_at, cycle,
}

-- The states after meshCommsInit and any cycles.
pub data Reachable : Comms → Type 0 where
  started : (s : Comms) → Reachable (init s)
  cycled : (a : Answers) {s : Comms} → Reachable s → Reachable (cycle a s).1

-- The states that the code is in, and that no synchronisation is forced while it works.
pub data IsGood : CommsState → Bool → Type 0 where
  good_init : {force : Bool} → IsGood at_init force
  good_sync : {force : Bool} → IsGood at_sync force
  good_cloud : IsGood at_cloud false

sync_cycle-IsGood :
    (r : SyncResult) (a : Answers) (s : Comms)
    → s.state ≡ at_sync
    → IsGood (sync_cycle r a s).1.state (sync_cycle r a s).1.force_sync
unfolding sync_cycle
sync_cycle-IsGood in_progress a s here = rw here good_sync
sync_cycle-IsGood success a s here = good_cloud
sync_cycle-IsGood error a s here = good_init

work_cycle-IsGood :
    (a : Answers) (s : Comms)
    → s.state ≡ at_cloud
    → s.force_sync ≡ false
    → IsGood (work_cycle a s).1.state (work_cycle a s).1.force_sync
unfolding work_cycle
work_cycle-IsGood a s here calm = elim (Bool-cases a.cloud_ok) [
  | inr bad ↦ rw bad good_sync
  | inl ok ↦ rw ok (elim (Bool-cases a.command_ok) [
    | inr bad ↦ rw bad good_sync
    | inl ok' ↦ rw ok' (elim (Bool-cases a.update_ok) [
      | inr bad ↦ rw bad good_sync
      | inl ok'' ↦ rw (ok'', here, calm) good_cloud
    ])
  ])
]

cloud_cycle-IsGood :
    (a : Answers) (s : Comms)
    → s.state ≡ at_cloud
    → s.force_sync ≡ false
    → IsGood (cloud_state_cycle a s).1.state (cloud_state_cycle a s).1.force_sync
unfolding cloud_state_cycle work_cycle
cloud_cycle-IsGood a s here calm = elim (Bool-cases a.available) [
  | inl back ↦ rw back good_init
  | inr away ↦ rw away (elim (Bool-cases (ltb 10800000 ((a.now + 2 ^ 32 - a.last_sync) % 2 ^ 32))) [
    | inl due ↦ rw due good_sync
    | inr recent ↦ rw recent (work_cycle-IsGood a s here calm)
  ])
]

init_cycle-IsGood :
    (a : Answers) (s : Comms)
    → s.state ≡ at_init
    → IsGood (init_cycle a s).1.state (init_cycle a s).1.force_sync
unfolding init_cycle
init_cycle-IsGood a s here = elim (Bool-cases a.available) [
  | inl there ↦ rw (there, here) good_init
  | inr away ↦
      rw away (elim (Bool-cases (ltb 120000 ((a.now + 2 ^ 32 - s.last_cloud_connected) % 2 ^ 32))) [
        | inl due ↦ rw due good_sync
        | inr recent ↦ rw (recent, here) good_init
      ])
]

cycle_at-IsGood :
    (a : Answers) (s : Comms) (state : CommsState) (force : Bool)
    → s.state ≡ state
    → s.force_sync ≡ force
    → IsGood state force
    → IsGood (cycle_at state a s).1.state (cycle_at state a s).1.force_sync
unfolding cycle_at
cycle_at-IsGood a s at_init force here eq good_init = init_cycle-IsGood a s here
cycle_at-IsGood a s at_sync force here eq good_sync = sync_cycle-IsGood a.sync_result a s here
cycle_at-IsGood a s at_cloud false here eq good_cloud = cloud_cycle-IsGood a s here eq
cycle_at-IsGood a s at_cloud true here eq v = elim v [ ]
cycle_at-IsGood a s at_idle force here eq v = elim v [ ]

-- In every state that meshCommsInit and any number of cycles reach, whatever they are answered, the
-- machine is at its start, at the synchronisation, or at work with no synchronisation forced.
pub Reachable-IsGood : (s : Comms) → Reachable s → IsGood s.state s.force_sync
unfolding init cycle
Reachable-IsGood _ (started s) = good_init
Reachable-IsGood _ (cycled a {s = s} r) =
    cycle_at-IsGood a s s.state s.force_sync refl refl (Reachable-IsGood s r)
