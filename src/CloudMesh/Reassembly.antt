-- ===== src/CloudMesh/Reassembly.antt =====
-- A report on its way from a child to its parent: the segments of sendReportData of mesh_cloud.c and
-- meshCloudHandleRequest of cloud_mesh.c, which gets them.
use edge_pdl.Prelude.{
  zero, suc, ◌+◌, Option, none, if◌then◌else◌, get_elem?, get_elem?-set_self, lt_of_get_elem?, set,
  ◌∙◌,
}
use edge_pdl.Prelude.{ℕ, ◌≤◌, ◌<◌, some, true, false, ◌&&◌}
use edge_pdl.Prelude.{
  ◌==◌, List, [], ◌∷◌, ◌++◌, length, drop, take, take-append, replicate, All, ◌≡◌, refl, sym, ap,
  arith,
}
use edge_pdl.MeshPayload.{Header, Payload}
use edge_pdl.MeshCloud.{
  ReportType, Outgoing, Cloud, mesh_send, endpoint_of, send_report_data, data_sent, end_report,
}
use edge_pdl.MeshCloud.Segments.{
  loaded, header_at, first_out, second_loaded, first_lem, second_lem, last_lem,
}
use edge_pdl.CloudMesh.{
  Entry, no_entry, Intake, is_duplicate, same_header, is_place, take_request, Layout, Child,
  Children, Parent, Reply, find_child, refresh, update_child, update_found_child, acknowledge,
  handle_request,
}
use edge_pdl.CloudMesh.Requests.{IsTaken, holding, take_request_lem}

-- The entry is that of another child.
abbrev pub IsOther : ℕ → Entry → Type 0
IsOther id_from e = (id_from == e.child_id) ≡ false

-- The entry holds data.
abbrev pub IsInUse : Entry → Type 0
IsInUse e = (e.len == 0) ≡ false

no_duplicate :
    (id_from : ℕ) (hdr : Header) (xs : List Entry)
    → All (IsOther id_from) xs
    → is_duplicate id_from hdr xs ≡ false
unfolding is_duplicate
no_duplicate id_from hdr [] h = refl
no_duplicate id_from hdr (x ∷ xs) (other, h) = rw (other, no_duplicate id_from hdr xs h) refl

no_duplicate_among :
    (id_from : ℕ) (hdr : Header) (xs ys : List Entry) (e : Entry)
    → All (IsOther id_from) xs
    → All (IsOther id_from) ys
    → (id_from == e.child_id && same_header e.hdr hdr) ≡ false
    → is_duplicate id_from hdr (xs ++ e ∷ ys) ≡ false
unfolding is_duplicate
no_duplicate_among id_from hdr [] ys e h k new = rw (new, no_duplicate id_from hdr ys k) refl
no_duplicate_among id_from hdr (x ∷ xs) ys e (other, h) k new =
    rw (other, no_duplicate_among id_from hdr xs ys e h k new) refl

first-IsTaken :
    (id_from : ℕ) (hdr : Header) (xs : List Entry)
    → hdr.idx ≡ 0
    → All IsInUse xs
    → All (IsTaken id_from hdr) xs
unfolding is_place
first-IsTaken id_from hdr [] e h = tt
first-IsTaken id_from hdr (x ∷ xs) e (used, h) =
    (rw (e, used) refl, first-IsTaken id_from hdr xs e h)

next-IsTaken :
    (id_from : ℕ) (hdr : Header) (xs : List Entry)
    → (hdr.idx == 0) ≡ false
    → All (IsOther id_from) xs
    → All (IsTaken id_from hdr) xs
unfolding is_place
next-IsTaken id_from hdr [] e h = tt
next-IsTaken id_from hdr (x ∷ xs) e (other, h) =
    (rw (e, other) refl, next-IsTaken id_from hdr xs e h)

module _ (id_from endpoint : ℕ) (a b : List ℕ) (i₁ i₂ : ℕ) (xs ys : List Entry)
    (child : 0 < id_from) (whole : length a ≡ 224) (fits : length b ≤ 96) (used : All IsInUse xs)
    (others : All (IsOther id_from) xs) (others_behind : All (IsOther id_from) ys) where
  abbrev sent : Header → ℕ → Header
  sent hdr id = record hdr { msg_id = id }

  abbrev first_hdr : Header
  first_hdr = sent (header_at endpoint 224 0 1) i₁

  abbrev next_hdr : Header
  next_hdr = sent (header_at endpoint (length b) 1 0) i₂

  free : is_place id_from first_hdr no_entry ≡ true
  unfolding is_place
  free = refl

  follows :
      (updated : ℕ) (old rest : List ℕ)
      → is_place id_from next_hdr (holding first_hdr id_from updated old rest (length xs)) ≡ true
  unfolding is_place
  follows updated old rest = ground arith

  other_header : (id_from == id_from && same_header first_hdr next_hdr) ≡ false
  unfolding same_header
  other_header = ground arith

  -- The first segment takes an empty entry.
  takes_first :
      (x : Intake) (r : List ℕ)
      → x.queued ≡ true
      → take_request id_from (record { hdr = first_hdr; content = a ++ r }) x (xs ++ no_entry ∷ ys)
        ≡ some (
          true,
          xs
              ++ holding first_hdr id_from x.now a (drop (length a) (replicate 320 0)) (length xs)
                ∷ ys,
        )
  takes_first x r accepted =
      take_request_lem id_from first_hdr [] a (replicate 320 0) r no_entry (sym whole) refl refl
        (omega (arith, whole)) (omega (arith, whole)) x xs ys
        (no_duplicate_among id_from first_hdr xs ys no_entry others others_behind
          (ground (arith, child)))
        (first-IsTaken id_from first_hdr xs refl used) free (rw accepted refl)

  -- The next one goes behind it.
  takes_next :
      (x : Intake) (r : List ℕ) (updated : ℕ)
      → take_request id_from
          (record { hdr = next_hdr; content = b ++ r })
          x
          (xs
            ++ holding first_hdr id_from updated a (drop (length a) (replicate 320 0)) (length xs)
              ∷ ys)
        ≡ some (
          true,
          xs
              ++ holding next_hdr id_from x.now
                  (a ++ b)
                  (drop (length b) (drop (length a) (replicate 320 0)))
                  (length xs)
                ∷ ys,
        )
  takes_next x r updated =
      take_request_lem id_from next_hdr a b (drop (length a) (replicate 320 0)) r _ refl refl refl
        (omega (arith, whole, fits, room)) (omega (arith, whole, fits)) x xs ys
        (no_duplicate_among id_from next_hdr xs ys _ others others_behind other_header)
        (next-IsTaken id_from next_hdr xs refl others)
        (follows updated a (drop (length a) (replicate 320 0))) refl
    where
      padding : List ℕ
      padding = replicate 320 0

      room : length (drop (length a) padding) ≡ 96
      room = ap (λ n. length (drop n padding)) whole

-- The refreshed child is found where it was.
find_child-refresh :
    (id now : ℕ) (nodes : List Child) (n k j : ℕ) (c : Child)
    → get_elem? nodes j ≡ some c
    → find_child id (set nodes j (refresh now c)) n k ≡ find_child id nodes n k
unfolding find_child
find_child-refresh id now nodes zero k j c e = refl
find_child-refresh id now [] (suc n) k j c e = refl
find_child-refresh id now (x ∷ nodes) (suc n) k zero c e =
    ap (λ b. if b then some k else find_child id nodes n (k + 1)) (ap (λ d. id == d) (same e))
  where
    id_of : Option Child → ℕ
    id_of none = 0
    id_of (some d) = d.id

    same : some x ≡ some c → c.id ≡ x.id
    same e = ap id_of (sym e)
find_child-refresh id now (x ∷ nodes) (suc n) k (suc j) c e =
    ap (λ t. if id == x.id then some k else t) (find_child-refresh id now nodes n (k + 1) j c e)

-- What the parent answers: "ACK" and a null byte.
abbrev pub ack : ℕ → Header → Reply
ack id_from hdr = record {
  dest = id_from;
  msg_id = hdr.msg_id;
  content = 65 ∷ 67 ∷ 75 ∷ 0 ∷ [];
  method = 0;
  endpoint = hdr.endpoint;
}

-- The parent with the time of a child refreshed, and other entries.
abbrev pub served : ℕ → ℕ → Child → List Entry → Parent → Parent
served idx now c entries s = record {
  children = record s.children { nodes = set s.children.nodes idx (refresh now c) };
  entries = entries;
}

-- Where the child is known and the cloud is available, meshCloudHandleRequest takes the request and
-- acknowledges it.
handle_lem :
    (layout : Layout) (id_from idx : ℕ) (p : Payload) (x : Intake) (c : Child)
    (entries : List Entry) (s : Parent)
    → find_child id_from s.children.nodes s.children.count 0 ≡ some idx
    → get_elem? s.children.nodes idx ≡ some c
    → x.available ≡ true
    → take_request id_from p x s.entries ≡ some (true, entries)
    → handle_request layout id_from p x s
      ≡ some (true, ack id_from p.hdr ∷ [], served idx x.times.refreshed c entries s)
unfolding handle_request update_child update_found_child acknowledge
handle_lem layout id_from idx p x c entries s known found available took =
    rw (known, found, took, available) refl

-- A report of 225 to 320 bytes, which sendReportData cuts behind 224. The child sends its first segment
-- and, after cbDataSent, the rest. The parent knows the child, it has an empty entry, the entries
-- before that are in use, and none is the child's. Where meshCloudHandleRequest gets the two segments
-- in turn, with the ids that meshCommsSend gave them, and each time the cloud is available, it
-- acknowledges both; the entry then holds the whole report and is complete, and the other entries are
-- as they were.
pub report_reassembled :
    (type : ReportType) (endpoint : ℕ) (a b rest r₁ r₂ : List ℕ) (epoch dest id_from i₁ i₂ : ℕ)
    (s : Cloud) (x₁ x₂ : Intake) (xs ys : List Entry) (layout : Layout) (kids : Children) (idx : ℕ)
    (c : Child)
    → endpoint_of type ≡ some endpoint
    → length a ≡ 224
    → 0 < length b
    → length b ≤ 96
    → 0 < i₁
    → 0 < i₂
    → 0 < id_from
    → x₁.queued ≡ true
    → x₁.available ≡ true
    → x₂.available ≡ true
    → find_child id_from kids.nodes kids.count 0 ≡ some idx
    → get_elem? kids.nodes idx ≡ some c
    → All IsInUse xs
    → All (IsOther id_from) xs
    → All (IsOther id_from) ys
    → (o₁ o₃ : Outgoing) × (s₂ : Cloud) × (h₁ h₂ : Header) × (send_report_data type dest i₁
          (loaded a b rest epoch)
        ≡ some (true, mesh_send dest h₁ a ∷ [], o₁))
      × (data_sent (record s { out = o₁ }) ≡ some ([], s₂))
      × (send_report_data type dest i₂ s₂.out ≡ some (true, mesh_send dest h₂ b ∷ [], o₃))
      × ((q₁ q₂ : Parent) × (e : Entry) × (handle_request layout id_from
              (record { hdr = record h₁ { msg_id = i₁ }; content = a ++ r₁ })
              x₁
              (record { children = kids; entries = xs ++ no_entry ∷ ys })
            ≡ some (true, ack id_from (record h₁ { msg_id = i₁ }) ∷ [], q₁))
          × (handle_request layout id_from
                (record { hdr = record h₂ { msg_id = i₂ }; content = b ++ r₂ })
                x₂
                q₁
              ≡ some (true, ack id_from (record h₂ { msg_id = i₂ }) ∷ [], q₂))
          × (q₂.entries ≡ xs ++ e ∷ ys)
          × (take (length (a ++ b)) e.buf ≡ a ++ b)
          × (e.len ≡ length (a ++ b))
          × (e.hdr.partial ≡ 0))
report_reassembled type endpoint a b rest r₁ r₂ epoch dest id_from i₁ i₂ s x₁ x₂ xs ys layout kids
      idx c known whole more fits p₁ p₂ child accepted up₁ up₂ served_child stands used others
      behind =
    (
      first_out endpoint a b rest epoch i₁,
      record (second_loaded endpoint a b rest epoch) {
        hdr = record (header_at endpoint (length b) 1 0) { msg_id = i₂ };
      },
      end_report (record s { out = second_loaded endpoint a b rest epoch }),
      header_at endpoint 224 0 1,
      header_at endpoint (length b) 1 0,
      first_lem type endpoint a b rest epoch dest known whole more small i₁ p₁,
      second_lem type endpoint a b rest epoch dest known whole more small s i₁,
      last_lem type endpoint a b rest epoch dest known whole more small i₂ p₂,
      (
        _,
        _,
        _,
        handle_lem layout id_from idx _ x₁ c _ _ served_child stands up₁ (
            takes_first id_from endpoint a b i₁ i₂ xs ys child whole fits used others behind x₁ r₁
              accepted),
        handle_lem layout id_from idx _ x₂ (refresh x₁.times.refreshed c) _ _
            (find_child-refresh id_from x₁.times.refreshed kids.nodes kids.count 0 idx c stands
              ∙ served_child)
            (get_elem?-set_self kids.nodes idx (refresh x₁.times.refreshed c)
              (lt_of_get_elem? kids.nodes idx c stands))
            up₂
            (takes_next id_from endpoint a b i₁ i₂ xs ys child whole fits used others behind x₂ r₂
              x₁.now),
        refl,
        take-append (a ++ b) _,
        refl,
        refl,
      ),
    )
  where
    small : length b ≤ 224
    small = omega (arith, fits)
