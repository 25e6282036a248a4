-- ===== src/EdgePayload/Decode.antt =====
-- A receiver of the payloads of edge_payload.c: an independent description of the format.
use edge_pdl.Prelude.{ℕ, zero, suc, ◌+◌, ◌*◌, ◌%◌, ◌^◌, ◌≤◌, ◌<◌, Option, none, some, ◌>>=◌}
use edge_pdl.Prelude.{
  List, [], ◌∷◌, ◌++◌, if◌then◌else◌, le→leb, length, take, drop, append_assoc, ◌≡◌, refl, ap, ap₂,
  ◌∙◌, arith,
}
use edge_pdl.EdgePayload.Header.{filled, Encoded, ComHeader, header_bytes, le_bytes16, le_bytes32}
use edge_pdl.EdgePayload.Items.{Item, items_bytes, ItemsFit}
use edge_pdl.EdgePayload.Status.{StatusPayload, status_bytes, status_to_buf, status_to_buf_lem}
use edge_pdl.EdgePayload.UpdateGet.{
  UpdateGet, update_get_bytes, update_get_to_buf, update_get_to_buf_lem,
}

-- The first `n` bytes and the rest.
split_at : ℕ → List ℕ → Option (List ℕ × List ℕ)
split_at zero xs = some ([], xs)
split_at (suc n) [] = none
split_at (suc n) (x ∷ xs) = split_at n xs >>= λ (ys, rest). some (x ∷ ys, rest)

get_word16 : List ℕ → Option (ℕ × List ℕ)
get_word16 (a ∷ b ∷ rest) = some (a + 256 * b, rest)
get_word16 _ = none

get_word32 : List ℕ → Option (ℕ × List ℕ)
get_word32 (a ∷ b ∷ c ∷ d ∷ rest) = some (a + 256 * (b + 256 * (c + 256 * d)), rest)
get_word32 _ = none

pub decode_header : List ℕ → Option (ComHeader × List ℕ)
decode_header (version ∷ dev ∷ len ∷ rest) = do
  (id, rest) ← split_at len rest
  (timestamp, rest) ← get_word32 rest
  some (
    record {
      protocol_ver = version;
      dev_type = dev;
      dev_id = record { len = len; id = id };
      timestamp = timestamp;
    },
    rest,
  )
decode_header _ = none

decode_items : ℕ → List ℕ → Option (List Item × List ℕ)
decode_items zero xs = some ([], xs)
decode_items (suc n) (id ∷ len ∷ xs) = do
  (value, xs) ← split_at len xs
  (items, xs) ← decode_items n xs
  some (record { id = id; len = len; value = value } ∷ items, xs)
decode_items (suc n) _ = none

pub decode_status : List ℕ → Option (StatusPayload × List ℕ)
decode_status xs = decode_header xs >>= decode_tags
  where
    decode_tags : ComHeader × List ℕ → Option (StatusPayload × List ℕ)
    decode_tags (header, n ∷ rest) = do
      (tags, rest) ← decode_items n rest
      some (record { header = header; tag_count = n; tags = tags }, rest)
    decode_tags (header, []) = none

pub decode_update_get : List ℕ → Option (UpdateGet × List ℕ)
decode_update_get xs = do
  (header, xs) ← decode_header xs
  (offset, xs) ← get_word32 xs
  (len, xs) ← get_word16 xs
  some (record { header = header; chunk_offset = offset; chunk_length = len }, xs)

-- What the receiver gets of a header, and of entries: the arrays without what was not meant.
abbrev pub sent_header : ComHeader → ComHeader
sent_header h = record h {
  dev_id = record { len = h.dev_id.len; id = take h.dev_id.len h.dev_id.id };
}

abbrev pub sent_items : ℕ → List Item → List Item
sent_items zero items = []
sent_items (suc n) [] = []
sent_items (suc n) (it ∷ items) = record it { value = take it.len it.value } ∷ sent_items n items

-- The fields of a header have their types' widths, and the id fits its array.
pub record IsHeader (h : ComHeader) : Type 0 where
  pub protocol_ver_lt : h.protocol_ver < 256
  pub dev_type_lt : h.dev_type < 256
  pub id_fits : h.dev_id.len ≤ length h.dev_id.id
  pub timestamp_lt : h.timestamp < 2 ^ 32

abbrev pub IdsFit : List Item → Type 0
IdsFit [] = Unit
IdsFit (it ∷ items) = (it.id < 256) × IdsFit items

split_at-append :
    (n : ℕ) (xs rest : List ℕ)
    → n ≤ length xs
    → split_at n (take n xs ++ rest) ≡ some (take n xs, rest)
unfolding split_at
split_at-append zero xs rest h = refl
split_at-append (suc n) [] rest h = elim h [ ]
split_at-append (suc n) (x ∷ xs) rest h = rw (split_at-append n xs rest (omega arith))

get_word32-le_bytes32 :
    (x : ℕ) (rest : List ℕ) → x < 2 ^ 32 → get_word32 (le_bytes32 x ++ rest) ≡ some (x, rest)
unfolding get_word32
get_word32-le_bytes32 x rest h = ap (λ y. some (y, rest)) (omega (arith, h))

get_word16-le_bytes16 :
    (x : ℕ) (rest : List ℕ) → x < 2 ^ 16 → get_word16 (le_bytes16 x ++ rest) ≡ some (x, rest)
unfolding get_word16
get_word16-le_bytes16 x rest h = ap (λ y. some (y, rest)) (omega (arith, h))

decode_header-header_bytes :
    (h : ComHeader) (rest : List ℕ)
    → IsHeader h
    → decode_header (header_bytes h ++ rest) ≡ some (sent_header h, rest)
unfolding decode_header
decode_header-header_bytes h rest v =
    rw
      (
        append_assoc (take h.dev_id.len h.dev_id.id) (le_bytes32 h.timestamp) rest,
        split_at-append h.dev_id.len h.dev_id.id (le_bytes32 h.timestamp ++ rest) v.id_fits,
        get_word32-le_bytes32 h.timestamp rest v.timestamp_lt,
      )
      (ap₂ (λ a b. some (record (sent_header h) { protocol_ver = a; dev_type = b }, rest))
        (small v.protocol_ver_lt) (small v.dev_type_lt))
  where
    small : {x : ℕ} → x < 256 → x % 256 ≡ x
    small h = omega (arith, h)

decode_items-items_bytes :
    (n : ℕ) (items : List Item) (rest : List ℕ)
    → ItemsFit n items
    → IdsFit items
    → decode_items n (items_bytes n items ++ rest) ≡ some (sent_items n items, rest)
unfolding decode_items
decode_items-items_bytes zero items rest h ids = refl
decode_items-items_bytes (suc n) [] rest h ids = elim h [ ]
decode_items-items_bytes (suc n) (it ∷ items) rest (len, h) (id, ids) =
    rw
      (
        append_assoc (take it.len it.value) (items_bytes n items) rest,
        split_at-append it.len it.value (items_bytes n items ++ rest) len,
        decode_items-items_bytes n items rest h ids,
      )
      (ap
        (λ a. some (
          record { id = a; len = it.len; value = take it.len it.value } ∷ sent_items n items,
          rest,
        ))
        small)
  where
    small : it.id % 256 ≡ it.id
    small = omega (arith, id)

abbrev pub sent_status : StatusPayload → StatusPayload
sent_status p = record p { header = sent_header p.header; tags = sent_items p.tag_count p.tags }

pub decode_status-status_bytes :
    (p : StatusPayload) (rest : List ℕ)
    → IsHeader p.header
    → ItemsFit p.tag_count p.tags
    → IdsFit p.tags
    → decode_status (status_bytes p ++ rest) ≡ some (sent_status p, rest)
unfolding decode_status
decode_status-status_bytes p rest v fits ids = rw (
  append_assoc (header_bytes p.header) (p.tag_count ∷ items_bytes p.tag_count p.tags) rest,
  decode_header-header_bytes p.header (p.tag_count ∷ (items_bytes p.tag_count p.tags ++ rest)) v,
  decode_items-items_bytes p.tag_count p.tags rest fits ids,
)

pub decode_update_get-update_get_bytes :
    (p : UpdateGet) (rest : List ℕ)
    → IsHeader p.header
    → p.chunk_offset < 2 ^ 32
    → p.chunk_length < 2 ^ 16
    → decode_update_get (update_get_bytes p ++ rest)
      ≡ some (record p { header = sent_header p.header }, rest)
unfolding decode_update_get
decode_update_get-update_get_bytes p rest v offset len = rw (
  append_assoc (header_bytes p.header) (le_bytes32 p.chunk_offset ++ le_bytes16 p.chunk_length)
      rest,
  decode_header-header_bytes p.header
      (le_bytes32 p.chunk_offset ++ (le_bytes16 p.chunk_length ++ rest)) v,
  get_word32-le_bytes32 p.chunk_offset (le_bytes16 p.chunk_length ++ rest) offset,
  get_word16-le_bytes16 p.chunk_length rest len,
)

-- A payload whose fields have their types' widths and fit their arrays, encoded into a buffer that
-- it fits: a receiver that reads the buffer gets the payload back.
pub status_roundtrip :
    (buf : List ℕ) (buf_len : ℕ) (p : StatusPayload)
    → buf_len ≤ length buf
    → IsHeader p.header
    → ItemsFit p.tag_count p.tags
    → IdsFit p.tags
    → length (status_bytes p) ≤ buf_len
    → (e : Encoded) × (status_to_buf buf buf_len p ≡ some e)
      × (e.res_len ≡ some (length (status_bytes p)))
      × (decode_status e.buf ≡ some (sent_status p, drop (length (status_bytes p)) buf))
status_roundtrip buf buf_len p room v fits ids enough = (
  filled (status_bytes p) buf,
  status_to_buf_lem buf buf_len p room (record { id_fits = v.id_fits; tags_fit = fits })
      ∙ ap
          (λ b.
            some (if b then filled (status_bytes p) buf else record { buf = buf; res_len = none }))
          (le→leb _ _ enough),
  refl,
  decode_status-status_bytes p (drop (length (status_bytes p)) buf) v fits ids,
)

-- The same of the payload that asks for a piece of an update.
pub update_get_roundtrip :
    (buf : List ℕ) (buf_len : ℕ) (p : UpdateGet)
    → buf_len ≤ length buf
    → IsHeader p.header
    → p.chunk_offset < 2 ^ 32
    → p.chunk_length < 2 ^ 16
    → length (update_get_bytes p) ≤ buf_len
    → (e : Encoded) × (update_get_to_buf buf buf_len p ≡ some e)
      × (e.res_len ≡ some (length (update_get_bytes p)))
      × (decode_update_get e.buf
          ≡ some
              (record p { header = sent_header p.header }, drop (length (update_get_bytes p)) buf))
update_get_roundtrip buf buf_len p room v offset len enough = (
  filled (update_get_bytes p) buf,
  update_get_to_buf_lem buf buf_len p room v.id_fits
      ∙ ap
          (λ b.
            some
              (if b then filled (update_get_bytes p) buf else record { buf = buf; res_len = none }))
          (le→leb _ _ enough),
  refl,
  decode_update_get-update_get_bytes p (drop (length (update_get_bytes p)) buf) v offset len,
)
