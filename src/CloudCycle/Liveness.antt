-- ===== src/CloudCycle/Liveness.antt =====
-- A request that the cloud does not answer, under cloudMeshCycle of cloud_mesh.c.
use edge_pdl.Prelude.{
  ℕ, zero, suc, ◌+◌, ◌-◌, ◌*◌, ◌%◌, ◌^◌, ◌≤◌, ◌<◌, Option, some, ◌>>=◌, true, false, Bool-cases,
  inl, inr, ◌⊎◌,
}
use edge_pdl.Prelude.{
  ltb, leb, ◌==◌, List, [], length, take, get_elem?, set, ◌≡◌, refl, ap, ◌∙◌, arith,
}
use edge_pdl.Buffer.{read_bytes-take}
use edge_pdl.CloudMesh.{Entry, no_entry}
use edge_pdl.MeshComms.{elapsed}
use edge_pdl.CloudCycle.{
  RequestState, at_idle, at_send_req, at_wait_resp, at_wait_ack, at_retry_delay, CloudRequest,
  Gateway, GatewayCall, GatewayAnswers, clear_entry, clear_received, request_sent, check_queued,
  queued_request, get_queued_request, pointed, idle_step, request_call, is_sent, send_step,
  wait_resp_step, retry_step, cycle_at, cycle,
}

-- What a request at the state waits for, with nothing received.
abbrev pub Stage : ℕ → RequestState → CloudRequest → Type 0
Stage idx at_idle r = Unit
Stage idx at_send_req r = r.req ≡ some idx
Stage idx at_wait_resp r = (r.resp_byte ≡ 0) × (r.resp_len ≡ 0)
Stage idx at_wait_ack r = 0 < 0
Stage idx at_retry_delay r = Unit

abbrev pub phase : RequestState → ℕ
phase at_idle = 3
phase at_send_req = 2
phase at_wait_resp = 1
phase at_wait_ack = 0
phase at_retry_delay = 0

-- The complete request in entry `idx` is not answered yet.
pub record IsUnanswered (idx : ℕ) (e : Entry) (s : Gateway) : Type 0 where
  pub entry_eq : get_elem? s.entries idx ≡ some e
  pub complete : (e.hdr.partial == 1) ≡ false
  pub held : e.len ≤ length e.buf
  pub few : s.request.num_retries < 720
  pub stage : Stage idx s.request.state s.request

-- How many cycles that do not stand still the machine has left.
abbrev pub turns_left : Gateway → ℕ
turns_left s = (720 - s.request.num_retries) * 4 + phase s.request.state

-- The node is connected, entry `idx` is at the head of the queue, and more than 10 seconds have gone by
-- since the machine took the time.
pub record IsLate (idx : ℕ) (a : GatewayAnswers) (s : Gateway) : Type 0 where
  pub available : a.available ≡ true
  pub peeked : a.peeked ≡ some (some idx)
  pub received : a.received ≡ some (some idx)
  pub late : 10000 < elapsed a.now s.request.timeout

-- The request is discarded, and the machine ready for the next one.
pub record IsDiscarded (idx : ℕ) (s t : Gateway) : Type 0 where
  pub entries_eq : t.entries ≡ set s.entries idx no_entry
  pub idle : t.request.state ≡ at_idle
  pub no_retries : t.request.num_retries ≡ 0

-- A cycle at a state: the request is discarded, or it is still not answered, its entries the same and the
-- machine further.
Progress : ℕ → Entry → GatewayAnswers → RequestState → Gateway → Type 0
Progress idx e a state s =
    (calls : List GatewayCall) × (t : Gateway) × (cycle_at state a s ≡ some (calls, t))
    × (IsDiscarded idx s t
        ⊎ IsUnanswered idx e t
          × (t.entries ≡ s.entries)
          × (turns_left t < (720 - s.request.num_retries) * 4 + phase state))

module _ (idx : ℕ) (e : Entry) (a : GatewayAnswers) (s : Gateway)
    (entry_eq : get_elem? s.entries idx ≡ some e) (complete : (e.hdr.partial == 1) ≡ false)
    (held : e.len ≤ length e.buf) (few : s.request.num_retries < 720) (h : IsLate idx a s) where
  -- The machine goes on with the request `r`.
  abbrev goes_on : CloudRequest → Gateway
  goes_on r = record s { request = r }

  still :
      (r : CloudRequest)
      → r.num_retries < 720
      → Stage idx r.state r
      → IsUnanswered idx e (goes_on r)
  still r few stage = record {
    entry_eq = entry_eq;
    complete = complete;
    held = held;
    few = few;
    stage = stage;
  }

  idle-Progress : Progress idx e a at_idle s
  unfolding Progress cycle_at idle_step get_queued_request queued_request check_queued
  idle-Progress = (
    [],
    goes_on (record s.request { state = at_send_req; req = some idx }),
    rw (h.available, h.peeked, entry_eq, complete) refl,
    inr (
      still (record s.request { state = at_send_req; req = some idx }) few refl,
      refl,
      omega arith,
    ),
  )

  send-Progress : s.request.req ≡ some idx → Progress idx e a at_send_req s
  unfolding Progress cycle_at send_step pointed
  send-Progress points =
      elim (Bool-cases (is_sent (request_call a.new_id e (take e.len e.buf)) a.sent)) [
        | inl sent ↦ (
          request_call a.new_id e (take e.len e.buf),
          goes_on (asked at_wait_resp),
          rw (points, entry_eq, read_bytes-take e.len e.buf held, sent) refl,
          inr (still (asked at_wait_resp) few (refl, refl), refl, omega arith),
        )
        | inr failed ↦ (
          request_call a.new_id e (take e.len e.buf),
          goes_on (asked at_retry_delay),
          rw (points, entry_eq, read_bytes-take e.len e.buf held, failed) refl,
          inr (still (asked at_retry_delay) few tt, refl, omega arith),
        )
      ]
    where
      asked : RequestState → CloudRequest
      asked state = record s.request {
        msg_id = a.new_id;
        state = state;
        resp_len = 0;
        resp_byte = 0;
        ack_received = false;
        timeout = a.now;
      }

  wait-Progress : s.request.resp_byte ≡ 0 → s.request.resp_len ≡ 0 → Progress idx e a at_wait_resp s
  unfolding Progress cycle_at wait_resp_step
  wait-Progress no_byte no_len =
      let over : leb 10000 (elapsed a.now s.request.timeout) ≡ true = ground (arith, h.late) in
      let no_details : ltb 1 s.request.resp_len ≡ false = ground (arith, no_len) in
      let no_answer : (s.request.resp_byte == 0) ≡ true = ground (arith, no_byte) in
      (
        [],
        goes_on (record s.request { timeout = a.now; state = at_retry_delay }),
        rw (no_details, no_answer, over) refl,
        inr (
          still (record s.request { timeout = a.now; state = at_retry_delay }) few tt,
          refl,
          omega arith,
        ),
      )

  retry-Progress : Progress idx e a at_retry_delay s
  unfolding Progress cycle_at retry_step request_sent clear_received clear_entry
  retry-Progress =
      let over : ltb 5000 (elapsed a.now s.request.timeout) ≡ true = ground (arith, h.late) in
      elim (Bool-cases (leb 720 ((s.request.num_retries + 1) % 2 ^ 16))) [
        | inl last ↦ (
          [],
          record {
            request = record s.request { state = at_idle; num_retries = 0; num_fwd_resp = 0 };
            entries = set s.entries idx no_entry;
          },
          rw (over, last, h.received, entry_eq) refl,
          inl (record { entries_eq = refl; idle = refl; no_retries = refl }),
        )
        | inr again ↦ (
          [],
          goes_on (record s.request {
            state = at_idle;
            num_retries = (s.request.num_retries + 1) % 2 ^ 16;
          }),
          rw (over, again) refl,
          inr (
            still
                (record s.request {
                  state = at_idle;
                  num_retries = (s.request.num_retries + 1) % 2 ^ 16;
                })
                (ground (arith, again)) tt,
            refl,
            omega (arith, few),
          ),
        )
      ]

  state-Progress : (state : RequestState) → Stage idx state s.request → Progress idx e a state s
  state-Progress at_idle stage = idle-Progress
  state-Progress at_send_req stage = send-Progress stage
  state-Progress at_wait_resp stage = wait-Progress stage.0 stage.1
  state-Progress at_wait_ack stage = absurd (omega (arith, stage))
  state-Progress at_retry_delay stage = retry-Progress

-- `n` cycles from the `i`-th on; the world answers each by the state at that time.
pub run : (ℕ → Gateway → GatewayAnswers) → ℕ → ℕ → Gateway → Option Gateway
run env i zero s = some s
run env i (suc n) s = cycle (env i s) s >>= λ r. run env (i + 1) n r.1

first_cycle :
    (env : ℕ → Gateway → GatewayAnswers) (i n : ℕ) (s : Gateway) (calls : List GatewayCall)
    (t : Gateway)
    → cycle_at s.request.state (env i s) s ≡ some (calls, t)
    → run env i (suc n) s ≡ run env (i + 1) n t
unfolding run cycle
first_cycle env i n s calls t e = ap (λ m. m >>= λ r. run env (i + 1) n r.1) e

last_cycle : (env : ℕ → Gateway → GatewayAnswers) (i : ℕ) (s : Gateway) → run env i 0 s ≡ some s
unfolding run
last_cycle env i s = refl

GivesUp : ℕ → (ℕ → Gateway → GatewayAnswers) → ℕ → ℕ → Gateway → Type 0
GivesUp idx env i m s =
    (n : ℕ) × (t : Gateway) × (n ≤ m) × (run env i n s ≡ some t) × IsDiscarded idx s t

-- With as many turns as are left, and one.
run-GivesUp :
    (idx : ℕ) (e : Entry) (env : ℕ → Gateway → GatewayAnswers)
    → ((k : ℕ) (t : Gateway) → IsLate idx (env k t) t)
    → (m i : ℕ) (s : Gateway) → IsUnanswered idx e s
    → turns_left s < m
    → GivesUp idx env i m s
unfolding GivesUp Progress
run-GivesUp idx e env late zero i s v bound = absurd (omega (arith, bound))
run-GivesUp idx e env late (suc m) i s v bound =
    let (calls, t, ran, after) =
      state-Progress idx e (env i s) s v.entry_eq v.complete v.held v.few (late i s) s.request.state
        v.stage in
    elim after [
      | inl over ↦
          (1, t, omega arith, first_cycle env i 0 s calls t ran ∙ last_cycle env (i + 1) t, over)
      | inr (going, same, less) ↦
          let (n, u, small, finished, over) =
            run-GivesUp idx e env late m (i + 1) t going (omega (arith, less, bound)) in
          (
            suc n,
            u,
            omega (arith, small),
            first_cycle env i n s calls t ran ∙ finished,
            record {
              entries_eq = over.entries_eq ∙ ap (λ entries. set entries idx no_entry) same;
              idle = over.idle;
              no_retries = over.no_retries;
            },
          )
    ]

-- A complete request at the head of the queue, of which nothing is received, whatever the sending of the
-- requests answers: in a world in which more than 10 seconds go by between the cycles, cloudMeshCycle
-- gives it up within 2884 cycles, with no access out of range. It clears the entry of the request and
-- no other one, and is ready for the next request, with no retry counted.
pub request_given_up :
    (idx : ℕ) (e : Entry) (env : ℕ → Gateway → GatewayAnswers) (s : Gateway)
    → IsUnanswered idx e s
    → ((k : ℕ) (t : Gateway) → IsLate idx (env k t) t)
    → (n : ℕ) × (t : Gateway) × (n ≤ 2884) × (run env 0 n s ≡ some t) × IsDiscarded idx s t
unfolding GivesUp
request_given_up idx e env s v late =
    run-GivesUp idx e env late 2884 0 s v (omega (arith, small s.request.state))
  where
    small : (state : RequestState) → phase state ≤ 3
    small at_idle = omega arith
    small at_send_req = omega arith
    small at_wait_resp = omega arith
    small at_wait_ack = omega arith
    small at_retry_delay = omega arith
