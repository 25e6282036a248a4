-- ===== src/EdgePayload/Monitor/Bytes.antt =====
-- The bytes of a monitor payload, and edgePayloadMonitor2Buf of edge_payload.c.
use edge_pdl.Prelude.{ℕ, zero, suc, ◌+◌, ◌*◌, ◌%◌, ◌≤◌, bit_or, some}
use edge_pdl.Prelude.{
  List, [], ◌∷◌, ◌++◌, length, length-append, append_assoc, ◌≡◌, refl, sym, ap, ap₂, ◌∙◌, arith,
}
use edge_pdl.Bits.{bit_or_fields, bit_and_five, bit_and_top_three}
use edge_pdl.Buffer.{Writer, put_all, put_all-nil, put_all_then}
use edge_pdl.EdgePayload.Header.{with_header_lem, header_bytes, length-header_bytes}
use edge_pdl.EdgePayload.Header.{encoded, le_bytes16, le_bytes32}
use edge_pdl.EdgePayload.Monitor.{Param, Phase, Monitor, phases_len, params_loop, params32_loop}
use edge_pdl.EdgePayload.Monitor.{phase_tag, phases_loop, monitor_to_buf}

-- The tag byte holds three digits of the phase index and five of the number of parameters.
pub phase_tag_lem :
    (ph : Phase) → phase_tag ph ≡ ph.phase_index % 8 * 32 + (ph.param_count + ph.param32_count) % 32
unfolding phase_tag
phase_tag_lem ph = omega (
  arith,
  ap₂ bit_or (bit_and_top_three ph.phase_index)
      (bit_and_five ((ph.param_count + ph.param32_count) % 256)),
  bit_or_fields 5 (ph.phase_index % 8) ((ph.param_count + ph.param32_count) % 256 % 32)
      (omega arith),
)

abbrev pub params_bytes : ℕ → List Param → List ℕ
params_bytes zero params = []
params_bytes (suc n) [] = []
params_bytes (suc n) (q ∷ params) = ((q.id % 256) ∷ le_bytes16 q.value) ++ params_bytes n params

abbrev pub params32_bytes : ℕ → List Param → List ℕ
params32_bytes zero params = []
params32_bytes (suc n) [] = []
params32_bytes (suc n) (q ∷ params) = ((q.id % 256) ∷ le_bytes32 q.value) ++ params32_bytes n params

-- The tag byte of the format: three digits of the index of the phase above five of the number of its
-- parameters.
abbrev pub tag_byte : Phase → ℕ
tag_byte ph = ph.phase_index % 8 * 32 + (ph.param_count + ph.param32_count) % 32

abbrev pub phase_bytes : Phase → List ℕ
phase_bytes ph =
    tag_byte ph
    ∷ (params_bytes ph.param_count ph.params ++ params32_bytes ph.param32_count ph.params32)

abbrev pub phases_bytes : ℕ → List Phase → List ℕ
phases_bytes zero phases = []
phases_bytes (suc n) [] = []
phases_bytes (suc n) (ph ∷ phases) = phase_bytes ph ++ phases_bytes n phases

abbrev pub monitor_bytes : Monitor → List ℕ
monitor_bytes p = header_bytes p.header ++ phases_bytes p.phase_count p.phases

-- The counts of a phase fit its arrays.
pub record IsPhase (ph : Phase) : Type 0 where
  pub params_fit : ph.param_count ≤ length ph.params
  pub params32_fit : ph.param32_count ≤ length ph.params32

abbrev pub PhasesFit : ℕ → List Phase → Type 0
PhasesFit zero phases = Unit
PhasesFit (suc n) [] = ⊥
PhasesFit (suc n) (ph ∷ phases) = IsPhase ph × PhasesFit n phases

length-params_bytes :
    (n : ℕ) (params : List Param) → n ≤ length params → length (params_bytes n params) ≡ 3 * n
length-params_bytes zero params h = refl
length-params_bytes (suc n) [] h = elim h [ ]
length-params_bytes (suc n) (q ∷ params) h =
    omega (arith, length-params_bytes n params (omega arith))

length-params32_bytes :
    (n : ℕ) (params : List Param) → n ≤ length params → length (params32_bytes n params) ≡ 5 * n
length-params32_bytes zero params h = refl
length-params32_bytes (suc n) [] h = elim h [ ]
length-params32_bytes (suc n) (q ∷ params) h =
    omega (arith, length-params32_bytes n params (omega arith))

params_loop-put_all :
    (n : ℕ) (params : List Param) (w : Writer)
    → n ≤ length params
    → params_loop n params w ≡ put_all (params_bytes n params) w
unfolding params_loop
params_loop-put_all zero params w h = sym (put_all-nil w)
params_loop-put_all (suc n) [] w h = elim h [ ]
params_loop-put_all (suc n) (q ∷ params) w h =
    put_all_then ((q.id % 256) ∷ le_bytes16 q.value) (params_bytes n params) (params_loop n params)
      w (λ v. params_loop-put_all n params v (omega arith))

params32_loop-put_all :
    (n : ℕ) (params : List Param) (w : Writer)
    → n ≤ length params
    → params32_loop n params w ≡ put_all (params32_bytes n params) w
unfolding params32_loop
params32_loop-put_all zero params w h = sym (put_all-nil w)
params32_loop-put_all (suc n) [] w h = elim h [ ]
params32_loop-put_all (suc n) (q ∷ params) w h =
    put_all_then ((q.id % 256) ∷ le_bytes32 q.value) (params32_bytes n params)
      (params32_loop n params) w (λ v. params32_loop-put_all n params v (omega arith))

phases_loop-put_all :
    (n : ℕ) (phases : List Phase) (w : Writer)
    → PhasesFit n phases
    → phases_loop n phases w ≡ put_all (phases_bytes n phases) w
unfolding phases_loop
phases_loop-put_all zero phases w h = sym (put_all-nil w)
phases_loop-put_all (suc n) [] w h = elim h [ ]
phases_loop-put_all (suc n) (ph ∷ phases) w (v, h) =
    rw (phase_tag_lem ph) (
      put_all_then (tag_byte ph ∷ []) (params ++ (params32 ++ rest)) _ w (λ w₁.
        rw (params_loop-put_all ph.param_count ph.params w₁ v.params_fit) (
          put_all_then params (params32 ++ rest) _ w₁ (λ w₂.
            rw (params32_loop-put_all ph.param32_count ph.params32 w₂ v.params32_fit) (
              put_all_then params32 rest (phases_loop n phases) w₂
                (λ w₃. phases_loop-put_all n phases w₃ h))))))
    ∙ ap (λ t. put_all (tag_byte ph ∷ t) w) (sym (append_assoc params params32 rest))
  where
    params : List ℕ
    params = params_bytes ph.param_count ph.params

    params32 : List ℕ
    params32 = params32_bytes ph.param32_count ph.params32

    rest : List ℕ
    rest = phases_bytes n phases

phases_len-length :
    (n : ℕ) (phases : List Phase)
    → PhasesFit n phases
    → phases_len n phases ≡ some (length (phases_bytes n phases))
unfolding phases_len
phases_len-length zero phases h = refl
phases_len-length (suc n) [] h = elim h [ ]
phases_len-length (suc n) (ph ∷ phases) (v, h) = rw (phases_len-length n phases h) (
    ap some (
      omega (
        arith,
        length-append (phase_bytes ph) (phases_bytes n phases),
        length-append (params_bytes ph.param_count ph.params)
            (params32_bytes ph.param32_count ph.params32),
        length-params_bytes ph.param_count ph.params v.params_fit,
        length-params32_bytes ph.param32_count ph.params32 v.params32_fit,
      )))

-- The arrays of the payload hold what its counts and lengths say.
pub record IsMonitor (p : Monitor) : Type 0 where
  pub id_fits : p.header.dev_id.len ≤ length p.header.dev_id.id
  pub phases_fit : PhasesFit p.phase_count p.phases

-- Where the payload's counts and lengths fit its arrays and the buffer's length is right, the
-- monitor encoder makes no access out of range: it writes the header and for each phase its tag
-- byte and its parameters where they fit the buffer, and else leaves the buffer as it was and
-- reports no length. The tag byte holds the index of the phase modulo 8 and the number of its
-- parameters modulo 32, while all the parameters follow.
pub monitor_to_buf_lem :
    (buf : List ℕ) (buf_len : ℕ) (p : Monitor)
    → buf_len ≤ length buf
    → IsMonitor p
    → monitor_to_buf buf buf_len p ≡ some (encoded buf buf_len (monitor_bytes p))
unfolding monitor_to_buf
monitor_to_buf_lem buf buf_len p room v =
    rw (phases_len-length p.phase_count p.phases v.phases_fit) (
      with_header_lem buf buf_len p.header room v.id_fits (phases_bytes p.phase_count p.phases) _ _
        (λ w. phases_loop-put_all p.phase_count p.phases w v.phases_fit)
        (omega (
          arith,
          length-header_bytes p.header v.id_fits,
          length-append (header_bytes p.header) (phases_bytes p.phase_count p.phases),
        )))
