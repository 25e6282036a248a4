-- ===== src/EdgePayload/Monitor.antt =====
-- edge_payload.c: the monitor payload, edgePayloadInitMonitor to edgePayloadMonitor2Buf.
-- `none` is an access out of range. Laws has what the functions do, Bytes the encoder.
pub mod Bytes
pub mod Laws
use edge_pdl.Prelude.{
  ℕ, zero, suc, ◌+◌, ◌*◌, ◌/◌, ◌%◌, ◌^◌, bit_and, bit_or, Option, none, some, ◌>>=◌,
}
use edge_pdl.Prelude.{
  Bool, true, false, if◌then◌else◌, ltb, leb, List, [], ◌∷◌, length, set, get_elem?, replicate,
}
use edge_pdl.Buffer.{Writer, put_all}
use edge_pdl.EdgePayload.Header.{
  ComHeader, Encoded, with_header, header_len, le_bytes16, le_bytes32,
}

-- K_PAYLOAD_MAX_MON_PARAM_COUNT, K_PAYLOAD_MAX_MON_PARAM32_COUNT, K_PAYLOAD_MAX_MON_PHASE_COUNT
-- and EP_PHASE_INDEX_MAX
abbrev pub max_mon_param_count : ℕ
max_mon_param_count = 52

abbrev pub max_mon_param32_count : ℕ
max_mon_param32_count = 6

abbrev pub max_mon_phase_count : ℕ
max_mon_phase_count = 4

abbrev pub phase_index_max : ℕ
phase_index_max = 3

-- `ep_monitor_param_st`, and `ep_monitor_param32_st` where the value has 32 bits
pub record Param : Type 0 where
  pub id : ℕ
  pub value : ℕ

-- `ep_monitor_phase_st`: the arrays have their full length, the counts say how much is used.
pub record Phase : Type 0 where
  pub phase_index : ℕ
  pub param_count : ℕ
  pub param32_count : ℕ
  pub params : List Param
  pub params32 : List Param

-- `ep_monitor_payload_st`
pub record Monitor : Type 0 where
  pub header : ComHeader
  pub phase_count : ℕ
  pub phases : List Phase

-- An array element assigned, with the bounds of the array.
pub write_at {ℓ} : {A : Type ℓ} → List A → ℕ → A → Option (List A)
write_at xs i x = if ltb i (length xs) then some (set xs i x) else none

abbrev no_param : Param
no_param = record { id = 0; value = 0 }

abbrev pub no_phase : Phase
no_phase = record {
  phase_index = 0;
  param_count = 0;
  param32_count = 0;
  params = replicate max_mon_param_count no_param;
  params32 = replicate max_mon_param32_count no_param;
}

-- edgePayloadInitMonitor
pub init_monitor : ComHeader → Monitor
init_monitor header = record {
  header = header;
  phase_count = 0;
  phases = replicate max_mon_phase_count no_phase;
}

-- edgePayloadNewMonitorPhase
pub new_monitor_phase : Monitor → ℕ → Option (Monitor × Bool)
unfolding write_at
new_monitor_phase p phase =
    if leb phase phase_index_max
    then if ltb p.phase_count max_mon_phase_count
      then get_elem? p.phases p.phase_count >>= (λ ph.
        write_at p.phases p.phase_count (record ph { phase_index = phase }) >>= λ phases.
        some (record p { phase_count = p.phase_count + 1; phases = phases }, true))
      else some (p, false)
    else some (p, false)

-- `(uint8_t)(ui8_phase_count - 1)`
abbrev pub last_phase : Monitor → ℕ
last_phase p = (p.phase_count + 255) % 256

-- edgePayloadAddMonitorParam
pub add_monitor_param : Monitor → ℕ → ℕ → Option (Monitor × Bool)
unfolding write_at
add_monitor_param p mon_id value = get_elem? p.phases (last_phase p) >>= λ ph.
    if ltb ph.param_count max_mon_param_count
    then write_at ph.params ph.param_count (record { id = mon_id; value = value }) >>= (λ params.
      write_at p.phases (last_phase p)
        (record ph { params = params; param_count = ph.param_count + 1 })
      >>= λ phases. some (record p { phases = phases }, true))
    else some (p, false)

-- edgePayloadAddMonitorParam32, which tests the count by the length of the other array.
pub add_monitor_param32 : Monitor → ℕ → ℕ → Option (Monitor × Bool)
unfolding write_at
add_monitor_param32 p mon_id value = get_elem? p.phases (last_phase p) >>= λ ph.
    if ltb ph.param32_count max_mon_param_count
    then write_at ph.params32 ph.param32_count (record { id = mon_id; value = value })
      >>= (λ params32.
          write_at p.phases (last_phase p)
            (record ph { params32 = params32; param32_count = ph.param32_count + 1 })
          >>= λ phases. some (record p { phases = phases }, true))
    else some (p, false)

-- The loop of edgePayloadMonitor2Buf that counts.
pub phases_len : ℕ → List Phase → Option ℕ
phases_len zero phases = some 0
phases_len (suc n) [] = none
phases_len (suc n) (ph ∷ phases) =
    phases_len n phases >>= λ sum. some (1 + 3 * ph.param_count + 5 * ph.param32_count + sum)

-- Its loops that write: the parameters of a phase, those with 32 bits, and the phases.
pub params_loop : ℕ → List Param → Writer → Option Writer
params_loop zero params w = some w
params_loop (suc n) [] w = none
params_loop (suc n) (q ∷ params) w =
    put_all ((q.id % 256) ∷ le_bytes16 q.value) w >>= params_loop n params

pub params32_loop : ℕ → List Param → Writer → Option Writer
params32_loop zero params w = some w
params32_loop (suc n) [] w = none
params32_loop (suc n) (q ∷ params) w =
    put_all ((q.id % 256) ∷ le_bytes32 q.value) w >>= params32_loop n params

-- The byte before the parameters of a phase.
pub phase_tag : Phase → ℕ
phase_tag ph =
    let count = (ph.param_count + ph.param32_count) % 256 in
    bit_or (bit_and (ph.phase_index * 2 ^ 5) 0xe0) (bit_and count 0x1f) % 256

pub phases_loop : ℕ → List Phase → Writer → Option Writer
unfolding params_loop params32_loop
phases_loop zero phases w = some w
phases_loop (suc n) [] w = none
phases_loop (suc n) (ph ∷ phases) w = do
  w ← put_all (phase_tag ph ∷ []) w
  w ← params_loop ph.param_count ph.params w
  w ← params32_loop ph.param32_count ph.params32 w
  phases_loop n phases w

-- edgePayloadMonitor2Buf
pub monitor_to_buf : List ℕ → ℕ → Monitor → Option Encoded
monitor_to_buf buf buf_len p = phases_len p.phase_count p.phases >>= λ len.
    with_header buf buf_len (header_len p.header + len) p.header
      (phases_loop p.phase_count p.phases)
