-- ===== src/MeshUpdate/Cycle/Restart.antt =====
-- When meshUpdateCycle of mesh_update.c restarts the device into the update.
use edge_pdl.Prelude.{
  Option, none, some, ◌>>=◌, Bool, true, false, if◌then◌else◌, not, ◌==◌, ◌≡◌, ◌≢◌, refl, ap, ◌∙◌,
  sym, arith,
}
use edge_pdl.MeshUpdate.{
  Update, UpdateState, update_idle, get_info, wait_info, download_file, send_result, wait_response,
  update_retry_delay, update_started, UpdateResult, unknown, internal_error, update_info_error,
  download_error, hash_mismatch_error,
}
use edge_pdl.MeshUpdate.Cycle.{
  CycleAnswers, Cycled, is_started, idle_cycle, get_info_cycle, wait_info_cycle, download_cycle,
  send_result_cycle, wait_response_cycle, retry_cycle, cycle_at, cycle, end_download,
  prepare_info_payload,
}

-- A step that is not a fault and does not restart the device.
abbrev IsCalm : Option Cycled → Type 0
IsCalm x = (r : Cycled) → x ≡ some r → r.restart ≡ false

IsCalm-some : (c : Cycled) → c.restart ≡ false → IsCalm (some c)
IsCalm-some c e r same = ap restart_of (sym same) ∙ e
  where
    restart_of : Option Cycled → Bool
    restart_of none = false
    restart_of (some c) = c.restart

IsCalm-bind {ℓ} :
    {A : Type ℓ} (x : Option A) (f : A → Option Cycled)
    → ((y : A) → IsCalm (f y))
    → IsCalm (x >>= f)
IsCalm-bind none f h r e = cc
IsCalm-bind (some y) f h r e = h y r e

IsCalm-if : (b : Bool) (x y : Option Cycled) → IsCalm x → IsCalm y → IsCalm (if b then x else y)
IsCalm-if true x y h k = h
IsCalm-if false x y h k = k

restart_if :
    (b : Bool) (c d : Cycled)
    → c.restart ≡ false
    → d.restart ≡ false
    → (if b then c else d).restart ≡ false
restart_if true c d h k = h
restart_if false c d h k = k

idle-IsCalm : (a : CycleAnswers) (s : Update) → IsCalm (idle_cycle a s)
unfolding idle_cycle
idle-IsCalm a s = IsCalm-if (not s.requested) _ _ (IsCalm-some _ refl) (
    IsCalm-if (a.parent == 0) _ _ (IsCalm-some _ refl) (
      IsCalm-bind (prepare_info_payload a.download.header s) _
        (λ p. IsCalm-some _ (restart_if p.0 _ _ refl refl))))

get_info-IsCalm : (a : CycleAnswers) (s : Update) → IsCalm (get_info_cycle a s)
unfolding get_info_cycle
get_info-IsCalm a s = IsCalm-bind _ _ (λ p. IsCalm-some _ refl)

wait_info-IsCalm : (a : CycleAnswers) (s : Update) → (wait_info_cycle a s).restart ≡ false
unfolding wait_info_cycle
wait_info-IsCalm a s = ground arith

download-IsCalm : (a : CycleAnswers) (s : Update) → IsCalm (download_cycle a s)
unfolding download_cycle
download-IsCalm a s =
    IsCalm-bind _ _ (λ p. IsCalm-bind (end_download a p.0 p.2) _ (λ q. IsCalm-some _ refl))

send_result-IsCalm : (a : CycleAnswers) (s : Update) → IsCalm (send_result_cycle a s)
unfolding send_result_cycle
send_result-IsCalm a s = IsCalm-bind _ _ (λ p. IsCalm-some _ refl)

retry-IsCalm : (s : Update) → (retry_cycle s).restart ≡ false
unfolding retry_cycle
retry-IsCalm s = ground arith

if_restart :
    (b : Bool) (c d : Cycled)
    → d.restart ≡ false
    → (if b then c else d).restart ≡ true
    → (b ≡ true) × (c.restart ≡ true)
if_restart true c d h e = (refl, e)
if_restart false c d h e = cc

started_lem : (result : UpdateResult) → is_started result ≡ true → result ≡ update_started
unfolding is_started
started_lem update_started e = refl
started_lem unknown e = cc
started_lem internal_error e = cc
started_lem update_info_error e = cc
started_lem download_error e = cc
started_lem hash_mismatch_error e = cc

wait_response_lem :
    (a : CycleAnswers) (s : Update)
    → (wait_response_cycle a s).restart ≡ true
    → (s.ack_received ≡ true) × (s.ack_status ≡ true) × (s.result ≡ update_started)
unfolding wait_response_cycle
wait_response_lem a s e =
    (ground (arith, e), ground (arith, e), started_lem s.result (ground (arith, e)))

restart_clash :
    {A : Type 0} (x : Option Cycled) (r : Cycled) → IsCalm x → x ≡ some r → r.restart ≡ true → A
restart_clash x r h e restarts = absurd (clash (sym (h r e) ∙ restarts))
  where
    clash : false ≢ true
    clash e = cc

by_state :
    (state : UpdateState) (a : CycleAnswers) (s : Update) (r : Cycled)
    → cycle_at state a s ≡ some r
    → r.restart ≡ true
    → (state ≡ wait_response)
      × (s.ack_received ≡ true)
      × (s.ack_status ≡ true)
      × (s.result ≡ update_started)
unfolding cycle_at
by_state update_idle a s r e t = restart_clash _ r (idle-IsCalm a s) e t
by_state get_info a s r e t = restart_clash _ r (get_info-IsCalm a s) e t
by_state wait_info a s r e t = restart_clash _ r (IsCalm-some _ (wait_info-IsCalm a s)) e t
by_state download_file a s r e t = restart_clash _ r (download-IsCalm a s) e t
by_state send_result a s r e t = restart_clash _ r (send_result-IsCalm a s) e t
by_state update_retry_delay a s r e t = restart_clash _ r (IsCalm-some _ (retry-IsCalm s)) e t
by_state wait_response a s r e t =
    let (received, status, started) = wait_response_lem a s (restarted (sym e)) in
    (refl, received, status, started)
  where
    restart_of : Option Cycled → Bool
    restart_of none = false
    restart_of (some c) = c.restart

    restarted : some r ≡ some (wait_response_cycle a s) → (wait_response_cycle a s).restart ≡ true
    restarted e = sym (ap restart_of e) ∙ t

-- meshUpdateCycle asks for the restart of the device only where it waits for the acknowledgement of
-- a result, the parent has acknowledged it, and the result is that the update started.
pub restart_acknowledged :
    (a : CycleAnswers) (s : Update) (r : Cycled)
    → cycle a s ≡ some r
    → r.restart ≡ true
    → (s.state ≡ wait_response)
      × (s.ack_received ≡ true)
      × (s.ack_status ≡ true)
      × (s.result ≡ update_started)
unfolding cycle
restart_acknowledged a s r e t = by_state s.state a s r e t
