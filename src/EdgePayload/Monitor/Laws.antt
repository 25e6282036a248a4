-- ===== src/EdgePayload/Monitor/Laws.antt =====
-- The functions that build a monitor payload (edgePayloadInitMonitor to edgePayloadAddMonitorParam32 of
-- edge_payload.c).
use edge_pdl.Prelude.{
  ℕ, zero, suc, [], ◌∷◌, sym, ap, ◌+◌, ◌-◌, ◌≤◌, ◌<◌, Option, none, some, Bool, true, false, ltb,
}
use edge_pdl.Prelude.{List, if◌then◌else◌, All, All-get_elem?, All-set, All-replicate, lt→ltb}
use edge_pdl.Prelude.{length, length-set, set, get_elem?, get_elem?_of_lt, ◌≡◌, refl, arith}
use edge_pdl.Prelude.{◌∙◌, leb, ◌&&◌, Bool-cases, inl, inr, ltb→lt}
use edge_pdl.EdgePayload.Header.{ComHeader}
use edge_pdl.EdgePayload.Monitor.{Param, Phase, Monitor, write_at, no_phase, init_monitor}
use edge_pdl.EdgePayload.Monitor.{new_monitor_phase, add_monitor_param, add_monitor_param32}
use edge_pdl.EdgePayload.Monitor.{last_phase}

-- A phase with its arrays, and counts within them.
pub record IsBuiltPhase (ph : Phase) : Type 0 where
  pub params_length : length ph.params ≡ 52
  pub params32_length : length ph.params32 ≡ 6
  pub params_count : ph.param_count ≤ 52
  pub params32_count : ph.param32_count ≤ 6

pub record IsBuilt (p : Monitor) : Type 0 where
  pub phases_length : length p.phases ≡ 4
  pub phases_count : p.phase_count ≤ 4
  pub phases_built : All IsBuiltPhase p.phases

write_at-some :
    {A : Type 0} (xs : List A) (i : ℕ) (x : A) → i < length xs → write_at xs i x ≡ some (set xs i x)
unfolding write_at
write_at-some xs i x h = rw (lt→ltb i (length xs) h)

with_phase : Monitor → ℕ → Phase → Monitor
with_phase p k ph = record p { phases = set p.phases k ph }

-- The phase with one more parameter of 16 bits, or of 32 bits.
abbrev pub push_param : Phase → Param → Phase
push_param ph q = record ph {
  params = set ph.params ph.param_count q;
  param_count = ph.param_count + 1;
}

abbrev pub push_param32 : Phase → Param → Phase
push_param32 ph q = record ph {
  params32 = set ph.params32 ph.param32_count q;
  param32_count = ph.param32_count + 1;
}

module _ (p : Monitor) (id value : ℕ) {ph : Phase} (v : IsBuilt p) (some_phase : 0 < p.phase_count)
    (last : get_elem? p.phases (p.phase_count - 1) ≡ some ph) where
  last_phase-eq : last_phase p ≡ p.phase_count - 1
  last_phase-eq = omega arith

  built : IsBuiltPhase ph
  built = All-get_elem? IsBuiltPhase p.phases (p.phase_count - 1) v.phases_built last

  -- edgePayloadAddMonitorParam
  pub add_monitor_param-eq :
      add_monitor_param p id value
      ≡ some (
          if ltb ph.param_count 52
          then (
            record p {
              phases =
                  set p.phases
                    (p.phase_count - 1)
                    (push_param ph (record { id = id; value = value }));
            },
            true,
          )
          else (p, false))
  unfolding add_monitor_param
  add_monitor_param-eq =
      rw (last_phase-eq, last) (ground (arith, built, v.phases_length, some_phase, v.phases_count))

  -- edgePayloadAddMonitorParam32 on a built payload that has a phase: it appends the parameter to
  -- the last phase where that has less than 6 of them, and else writes past the array.
  pub add_monitor_param32-eq : add_monitor_param32 p id value ≡ (
      if ltb ph.param32_count 6
      then some (
        record p {
          phases =
              set p.phases
                (p.phase_count - 1)
                (push_param32 ph (record { id = id; value = value }));
        },
        true,
      )
      else none)
  unfolding add_monitor_param32
  add_monitor_param32-eq =
      rw (last_phase-eq, last) (ground (arith, built, v.phases_length, some_phase, v.phases_count))

  push_param-IsBuilt :
      (q : Param)
      → ph.param_count < 52
      → IsBuilt (record p { phases = set p.phases (p.phase_count - 1) (push_param ph q) })
  push_param-IsBuilt q room = record {
    phases_length = length-set p.phases (p.phase_count - 1) (push_param ph q) ∙ v.phases_length;
    phases_count = v.phases_count;
    phases_built =
        All-set IsBuiltPhase p.phases (p.phase_count - 1) (push_param ph q) v.phases_built
          (omega (arith, built, length-set ph.params ph.param_count q));
  }

pub init_monitor-IsBuilt : (h : ComHeader) → IsBuilt (init_monitor h)
unfolding init_monitor
init_monitor-IsBuilt h = record {
  phases_length = refl;
  phases_count = omega arith;
  phases_built = All-replicate IsBuiltPhase 4 no_phase (omega arith);
}

-- A function that makes no access out of range, and gives `q` and true where the test says so, and
-- else `p` unchanged and false; either is built.
abbrev pub Builds : Option (Monitor × Bool) → Monitor → Bool → Monitor → Type 0
Builds m p changes q =
    (m ≡ some (if changes then (q, true) else (p, false))) × IsBuilt (if changes then q else p)

-- The phases with another index for the one at a place.
abbrev pub rename_at : ℕ → ℕ → List Phase → List Phase
rename_at i index [] = []
rename_at zero index (ph ∷ phases) = record ph { phase_index = index } ∷ phases
rename_at (suc i) index (ph ∷ phases) = ph ∷ rename_at i index phases

-- The payload with one phase more, which has the index.
abbrev pub start_phase : ℕ → Monitor → Monitor
start_phase index p = record p {
  phase_count = p.phase_count + 1;
  phases = rename_at p.phase_count index p.phases;
}

set-rename_at :
    (phases : List Phase) (i index : ℕ) (ph : Phase)
    → get_elem? phases i ≡ some ph
    → set phases i (record ph { phase_index = index }) ≡ rename_at i index phases
set-rename_at [] i index ph e = refl
set-rename_at (x ∷ phases) zero index ph e = ap (λ t. named t ∷ phases) (sym e)
  where
    named : Option Phase → Phase
    named none = record x { phase_index = index }
    named (some t) = record t { phase_index = index }
set-rename_at (x ∷ phases) (suc i) index ph e = ap (λ t. x ∷ t) (set-rename_at phases i index ph e)

new_phase-Builds :
    (p : Monitor) (phase : ℕ) (ph : Phase)
    → IsBuilt p
    → get_elem? p.phases p.phase_count ≡ some ph
    → p.phase_count < 4
    → leb phase 3 ≡ true
    → Builds (new_monitor_phase p phase) p true (start_phase phase p)
unfolding new_monitor_phase
new_phase-Builds p phase ph v found room index = (
  taken ∙ ap (λ t. some (record p { phase_count = p.phase_count + 1; phases = t }, true)) same,
  rw (← same) (record {
    phases_length = length-set p.phases p.phase_count renamed ∙ v.phases_length;
    phases_count = omega arith;
    phases_built =
        All-set IsBuiltPhase p.phases p.phase_count renamed v.phases_built
          (omega (arith, All-get_elem? IsBuiltPhase p.phases p.phase_count v.phases_built found));
  }),
)
  where
    renamed : Phase
    renamed = record ph { phase_index = phase }

    same : set p.phases p.phase_count renamed ≡ rename_at p.phase_count phase p.phases
    same = set-rename_at p.phases p.phase_count phase ph found

    taken :
        new_monitor_phase p phase
        ≡ some (
          record p { phase_count = p.phase_count + 1; phases = set p.phases p.phase_count renamed },
          true,
        )
    taken = ground (arith, index, room, found, v.phases_length)

new_monitor_phase-refused :
    (p : Monitor) (phase : ℕ)
    → (leb phase 3 && ltb p.phase_count 4) ≡ false
    → new_monitor_phase p phase ≡ some (p, false)
unfolding new_monitor_phase
new_monitor_phase-refused p phase refused = ground (arith, refused)

-- A built payload stays built under edgePayloadNewMonitorPhase. Exactly where the index is valid and
-- there is room, the function returns true, there is one phase more, the next entry has the index and
-- no other entry changes; else nothing changes.
pub new_monitor_phase-Builds :
    (p : Monitor) (phase : ℕ)
    → IsBuilt p
    → Builds
        (new_monitor_phase p phase)
        p
        (leb phase 3 && ltb p.phase_count 4)
        (start_phase phase p)
new_monitor_phase-Builds p phase v = elim (Bool-cases (leb phase 3 && ltb p.phase_count 4)) [
  | inr refused ↦ rw refused (new_monitor_phase-refused p phase refused, v)
  | inl accepted ↦
      let room : p.phase_count < 4 = ltb→lt _ _ (ground (arith, accepted)) in
      let (ph, found) =
        get_elem?_of_lt p.phases p.phase_count (omega (arith, v.phases_length, room)) in
      rw accepted (new_phase-Builds p phase ph v found room (ground (arith, accepted)))
]

-- A built payload that has a phase stays built under edgePayloadAddMonitorParam. Exactly where the
-- last phase has less than 52 parameters, the function returns true and that phase has the id and the
-- value behind its parameters and counts one more, and no other phase changes; else nothing changes.
pub add_monitor_param-Builds :
    (p : Monitor) (id value : ℕ) {ph : Phase}
    → IsBuilt p
    → 0 < p.phase_count
    → get_elem? p.phases (p.phase_count - 1) ≡ some ph
    → Builds (add_monitor_param p id value) p (ltb ph.param_count 52) (record p {
      phases = set p.phases (p.phase_count - 1) (push_param ph (record { id = id; value = value }));
    })
add_monitor_param-Builds p id value {ph} v some_phase last =
    rw (add_monitor_param-eq p id value v some_phase last)
      (elim (Bool-cases (ltb ph.param_count 52)) [
        | inr full ↦ rw full (refl, v)
        | inl room ↦ rw room (
          refl,
          push_param-IsBuilt p id value v some_phase last (record { id = id; value = value })
              (ltb→lt _ _ room),
        )
      ])
