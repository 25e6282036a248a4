-- ===== src/EdgePayload/Event.antt =====
-- edge_payload.c: edgePayloadInitEvent, edgePayloadAddEventContent and edgePayloadEvent2Buf.
use edge_pdl.Prelude.{ℕ, ◌+◌, ◌≤◌, Option, some, ◌>>=◌, Bool, true, false, if◌then◌else◌, ltb, List}
use edge_pdl.Prelude.{[], ◌∷◌, ◌++◌, length, length-append, set, replicate, ◌≡◌, arith}
use edge_pdl.Buffer.{put_all, put_all_then}
use edge_pdl.EdgePayload.Header.{ComHeader, Encoded, with_header, with_header_lem, header_len}
use edge_pdl.EdgePayload.Header.{header_bytes, length-header_bytes, encoded}
use edge_pdl.EdgePayload.Items.{
  Item, items_len, items_loop, items_bytes, ItemsFit, items_len-length,
}
use edge_pdl.EdgePayload.Items.{items_loop-put_all}

-- K_PAYLOAD_MAX_EVENTS_COUNT
abbrev pub max_events_count : ℕ
max_events_count = 3

-- `ep_event_payload_st`
pub record EventPayload : Type 0 where
  pub header : ComHeader
  pub event_count : ℕ
  pub events : List Item

-- edgePayloadInitEvent
pub init_event : ComHeader → EventPayload
init_event header = record {
  header = header;
  event_count = 0;
  events = replicate max_events_count (record { id = 0; len = 0; value = [] });
}

-- edgePayloadAddEventContent
pub add_event_content : EventPayload → ℕ → List ℕ → ℕ → EventPayload × Bool
add_event_content p event_type content len =
    let event_index = p.event_count in
    if ltb event_index max_events_count
    then (
      record p {
        events = set p.events event_index (record { id = event_type; len = len; value = content });
        event_count = p.event_count + 1;
      },
      true,
    )
    else (p, false)

-- edgePayloadEvent2Buf; `none` is an access out of range.
pub event_to_buf : List ℕ → ℕ → EventPayload → Option Encoded
event_to_buf buf buf_len p = items_len p.event_count p.events >>= λ events_len.
    with_header buf buf_len (header_len p.header + 1 + events_len) p.header
      (λ w. put_all (p.event_count ∷ []) w >>= items_loop p.event_count p.events)

-- The arrays of the payload hold what its counts and lengths say.
pub record IsEvent (p : EventPayload) : Type 0 where
  pub id_fits : p.header.dev_id.len ≤ length p.header.dev_id.id
  pub events_fit : ItemsFit p.event_count p.events

abbrev pub event_bytes : EventPayload → List ℕ
event_bytes p = header_bytes p.header ++ p.event_count ∷ items_bytes p.event_count p.events

-- Where the payload's counts and lengths fit its arrays and the buffer's length is right, the event
-- encoder makes no access out of range: it writes the header, the number of events and each event
-- with its length where they fit the buffer, and else leaves the buffer as it was and reports no
-- length.
pub event_to_buf_lem :
    (buf : List ℕ) (buf_len : ℕ) (p : EventPayload)
    → buf_len ≤ length buf
    → IsEvent p
    → event_to_buf buf buf_len p ≡ some (encoded buf buf_len (event_bytes p))
unfolding event_to_buf
event_to_buf_lem buf buf_len p room v = rw (items_len-length p.event_count p.events v.events_fit) (
    with_header_lem buf buf_len p.header room v.id_fits body _ _
      (λ w.
        put_all_then (p.event_count ∷ []) (items_bytes p.event_count p.events) _ w
          (λ u. items_loop-put_all p.event_count p.events u v.events_fit))
      (omega (
        arith,
        length-header_bytes p.header v.id_fits,
        length-append (header_bytes p.header) body,
      )))
  where
    body : List ℕ
    body = p.event_count ∷ items_bytes p.event_count p.events
