-- ===== src/EdgePayload/Status.antt =====
-- edge_payload.c: edgePayloadInitStatus, edgePayloadAddStatusTag and edgePayloadStatus2Buf.
use edge_pdl.Prelude.{
  ℕ, ◌+◌, ◌≤◌, Option, some, ◌>>=◌, Bool, true, false, ◌&&◌, if◌then◌else◌, ltb, leb,
}
use edge_pdl.Prelude.{List, [], ◌∷◌, ◌++◌, length, length-append, set, replicate, ◌≡◌, arith}
use edge_pdl.Buffer.{put_all, put_all_then}
use edge_pdl.EdgePayload.Header.{ComHeader, Encoded, with_header, with_header_lem, header_len}
use edge_pdl.EdgePayload.Header.{header_bytes, length-header_bytes, encoded}
use edge_pdl.EdgePayload.Items.{
  Item, items_len, items_loop, items_bytes, ItemsFit, items_len-length,
}
use edge_pdl.EdgePayload.Items.{items_loop-put_all}

-- K_PAYLOAD_MAX_STATUS_TAG_COUNT, EP_STATUS_TAG_MIN and EP_STATUS_TAG_MAX
abbrev pub max_status_tag_count : ℕ
max_status_tag_count = 3

abbrev pub status_tag_min : ℕ
status_tag_min = 0x70

abbrev pub status_tag_max : ℕ
status_tag_max = 0x85

-- `ep_status_payload_st`
pub record StatusPayload : Type 0 where
  pub header : ComHeader
  pub tag_count : ℕ
  pub tags : List Item

-- edgePayloadInitStatus
unfoldable pub init_status : ComHeader → StatusPayload
init_status header = record {
  header = header;
  tag_count = 0;
  tags = replicate max_status_tag_count (record { id = 0; len = 0; value = [] });
}

-- edgePayloadAddStatusTag
unfoldable pub add_status_tag : StatusPayload → ℕ → List ℕ → ℕ → StatusPayload × Bool
add_status_tag p tag_id value len =
    let tag_index = p.tag_count in
    if ltb tag_index max_status_tag_count
    then if leb status_tag_min tag_id && leb tag_id status_tag_max
      then (
        record p {
          tags = set p.tags tag_index (record { id = tag_id; len = len; value = value });
          tag_count = p.tag_count + 1;
        },
        true,
      )
      else (p, false)
    else (p, false)

-- edgePayloadStatus2Buf; `none` is an access out of range.
pub status_to_buf : List ℕ → ℕ → StatusPayload → Option Encoded
status_to_buf buf buf_len p = items_len p.tag_count p.tags >>= λ tags_len.
    with_header buf buf_len (header_len p.header + 1 + tags_len) p.header
      (λ w. put_all (p.tag_count ∷ []) w >>= items_loop p.tag_count p.tags)

-- The arrays of the payload hold what its counts and lengths say.
pub record IsStatus (p : StatusPayload) : Type 0 where
  pub id_fits : p.header.dev_id.len ≤ length p.header.dev_id.id
  pub tags_fit : ItemsFit p.tag_count p.tags

abbrev pub status_bytes : StatusPayload → List ℕ
status_bytes p = header_bytes p.header ++ p.tag_count ∷ items_bytes p.tag_count p.tags

pub status_to_buf_lem :
    (buf : List ℕ) (buf_len : ℕ) (p : StatusPayload)
    → buf_len ≤ length buf
    → IsStatus p
    → status_to_buf buf buf_len p ≡ some (encoded buf buf_len (status_bytes p))
unfolding status_to_buf
status_to_buf_lem buf buf_len p room v = rw (items_len-length p.tag_count p.tags v.tags_fit) (
    with_header_lem buf buf_len p.header room v.id_fits
      (p.tag_count ∷ items_bytes p.tag_count p.tags) _ _
      (λ w.
        put_all_then (p.tag_count ∷ []) (items_bytes p.tag_count p.tags) _ w
          (λ v'. items_loop-put_all p.tag_count p.tags v' v.tags_fit))
      (omega (
        arith,
        length-header_bytes p.header v.id_fits,
        length-append (header_bytes p.header) (p.tag_count ∷ items_bytes p.tag_count p.tags),
      )))
