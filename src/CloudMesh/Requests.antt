-- ===== src/CloudMesh/Requests.antt =====
-- meshCloudHandleRequest of cloud_mesh.c on the array of requests.
use edge_pdl.Prelude.{ℕ, ◌+◌, ◌≤◌, some, true, false, ◌||◌, not}
use edge_pdl.Prelude.{
  ltb, ◌==◌, List, [], ◌∷◌, ◌++◌, length, length-append, drop, All, ◌≡◌, ap, ◌∙◌, arith,
}
use edge_pdl.Buffer.{put_all_lem, read_bytes, read_bytes_all}
use edge_pdl.MeshPayload.{Header}
use edge_pdl.MeshRoute.Live.{get_elem?-append, set-append}
use edge_pdl.CloudMesh.{
  Entry, Intake, is_duplicate, is_place, find_place, append_data, store_request, take_request,
}

-- The entry is no place for a request with this header.
abbrev pub IsTaken : ℕ → Header → Entry → Type 0
IsTaken id_from hdr e = is_place id_from hdr e ≡ false

find_place_lem :
    (id_from : ℕ) (hdr : Header) (xs ys : List Entry) (e : Entry) (k : ℕ)
    → All (IsTaken id_from hdr) xs
    → is_place id_from hdr e ≡ true
    → find_place id_from hdr (xs ++ e ∷ ys) k ≡ some (k + length xs)
unfolding find_place
find_place_lem id_from hdr [] ys e k taken free = rw free (ap some (omega arith))
find_place_lem id_from hdr (x ∷ xs) ys e k (taken_x, taken) free =
    rw (taken_x, find_place_lem id_from hdr xs ys e (k + 1) taken free) (ap some (omega arith))

-- An entry with data, and the same with those of a payload behind them.
abbrev pub holding : Header → ℕ → ℕ → List ℕ → List ℕ → ℕ → Entry
holding hdr child_id updated content free idx = record {
  hdr = hdr;
  child_id = child_id;
  updated = updated;
  buf = content ++ free;
  len = length content;
  idx = idx;
}

module _ (id_from : ℕ) (hdr : Header) (old new free rest : List ℕ) (e : Entry)
    (len_eq : hdr.len ≡ length new) (e_buf : e.buf ≡ old ++ free) (e_len : e.len ≡ length old)
    (room : length new ≤ length free) (small : length old + length new ≤ 320) where
  append_data_lem :
      (now idx : ℕ)
      → append_data id_from (record { hdr = hdr; content = new ++ rest }) now idx e
        ≡ some (holding hdr id_from now (old ++ new) (drop (length new) free) idx)
  unfolding append_data
  append_data_lem now idx =
      rw (read, e_buf, e_len, put_all_lem new old free room)
        (ap
          (λ n. some (record (holding hdr id_from now (old ++ new) (drop (length new) free) idx) {
            len = n;
          }))
          (omega (arith, len_eq, small, length-append old new)))
    where
      read : read_bytes hdr.len (new ++ rest) ≡ some new
      read = ap (λ n. read_bytes n (new ++ rest)) len_eq ∙ read_bytes_all new rest

  -- A request that is no duplicate and finds its place.
  pub take_request_lem :
      (a : Intake) (xs ys : List Entry)
      → is_duplicate id_from hdr (xs ++ e ∷ ys) ≡ false
      → All (IsTaken id_from hdr) xs
      → is_place id_from hdr e ≡ true
      → (not (hdr.idx == 0) || a.queued) ≡ true
      → take_request id_from (record { hdr = hdr; content = new ++ rest }) a (xs ++ e ∷ ys)
        ≡ some (
          true,
          xs ++ holding hdr id_from a.now (old ++ new) (drop (length new) free) (length xs) ∷ ys,
        )
  unfolding take_request store_request
  take_request_lem a xs ys fresh taken free_e accepted =
      rw
        (fresh, placed, get_elem?-append xs ys e, fits, append_data_lem a.now (length xs), accepted)
        (ap (λ t. some (true, t)) (set-append xs ys e _))
    where
      placed : find_place id_from hdr (xs ++ e ∷ ys) 0 ≡ some (length xs)
      placed = find_place_lem id_from hdr xs ys e 0 taken free_e ∙ ap some (omega arith)

      fits : ltb 320 (e.len + hdr.len) ≡ false
      fits = ground (arith, e_len, len_eq, small)
