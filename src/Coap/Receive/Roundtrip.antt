-- ===== src/Coap/Receive/Roundtrip.antt =====
-- coapClientHandleMsg of coap_client.c on the packets of coapClientSendRequest.
use edge_pdl.Prelude.{
  ℕ, suc, ◌+◌, ◌-◌, ◌/◌, ◌%◌, ◌^◌, ◌≤◌, ◌<◌, none, some, true, false, Bool-cases, inl, inr, ◌&&◌,
  not,
}
use edge_pdl.Prelude.{
  if◌then◌else◌, ltb, ◌==◌, List, [], ◌∷◌, ◌++◌, length, get_elem?, set, take, drop, length-append,
  length-take, append_assoc, ltb→lt, lt→ltb, take-append, append-nil, ◌≡◌, refl, sym, ap, ap₂, ◌∙◌,
  arith,
}
use edge_pdl.Coap.{CoapHeader}
use edge_pdl.Coap.Send.Request.{path_bytes, payload_bytes, id_bytes, request_bytes}
use edge_pdl.Coap.Receive.{
  CoapOption, Packet, Head, extended, Parsed, take_option, ◌>>?◌, parse_option, Options,
  handle_options, handle_payload, read_header, handle_body, handle_msg,
}

get_elem?-append : (xs ys : List ℕ) (y : ℕ) → get_elem? (xs ++ y ∷ ys) (length xs) ≡ some y
get_elem?-append [] ys y = refl
get_elem?-append (x ∷ xs) ys y = get_elem?-append xs ys y

extended_plain :
    (msg : List ℕ) (buf_len nibble : ℕ) (h : Head)
    → nibble < 13
    → extended msg buf_len nibble h ≡ some (some (nibble, h))
unfolding extended
extended_plain msg buf_len nibble h small = ground (arith, small)

-- Where the path stands behind an option's header.
abbrev pub path_ptr : List ℕ → ℕ
path_ptr path = if ltb (length path) 13 then 5 else 6

-- The end of parseOption for the first option of a packet, if it is a path.
take_path :
    (room len p : ℕ) (head_len : ℕ)
    → len < 256
    → p + 1 + len ≤ 4 + room
    → take_option 0 4 room 11 (len, record { p = p; head_len = head_len })
      ≡ some (
          some (record {
            option = record { option = 11; len = len; ptr = p + 1 };
            buf = p + 1 + len;
            running_delta = 11;
          }))
unfolding take_option
take_path room len p head_len short fits = rw (has_room) (
    ap
      (λ n. some (
        some (record {
          option = record { option = 11; len = n; ptr = p + 1 };
          buf = p + 1 + len;
          running_delta = 11;
        })))
      (omega (arith, short)))
  where
    has_room : ltb (4 + room) (p + 1 + len) ≡ false
    has_room = ground (arith, fits)

parse_small :
    (a b c d : ℕ) (n room : ℕ) (mem : List ℕ)
    → n < 13
    → n + 1 ≤ room
    → parse_option (a ∷ b ∷ c ∷ d ∷ (0xb0 + n) ∷ mem) 0 4 room
      ≡ some (
          some (record {
            option = record { option = 11; len = n; ptr = 5 };
            buf = 5 + n;
            running_delta = 11;
          }))
unfolding parse_option ◌>>?◌
parse_small a b c d n room mem small fits =
    rw
      (
        has_room,
        high,
        low,
        extended_plain msg room 11 (record { p = 4; head_len = 1 }) (omega arith),
        extended_plain msg room (n) (record { p = 4; head_len = 1 }) small,
      )
      (take_path room (n) 4 1 (omega arith) (omega arith))
  where
    msg : List ℕ
    msg = a ∷ b ∷ c ∷ d ∷ (0xb0 + n) ∷ mem

    has_room : ltb room 1 ≡ false
    has_room = ground (arith, fits)

    high : (0xb0 + n) / 2 ^ 4 % 2 ^ 4 ≡ 11
    high = omega arith

    low : (0xb0 + n) % 2 ^ 4 ≡ n
    low = omega arith

parse_large :
    (a b c d : ℕ) (n room : ℕ) (mem : List ℕ)
    → 13 ≤ n
    → n < 256
    → n + 2 ≤ room
    → parse_option (a ∷ b ∷ c ∷ d ∷ 0xbd ∷ (n - 13) ∷ mem) 0 4 room
      ≡ some (
          some (record {
            option = record { option = 11; len = n; ptr = 6 };
            buf = 6 + n;
            running_delta = 11;
          }))
unfolding parse_option ◌>>?◌ extended
parse_large a b c d n room mem large short fits =
    rw (has_room 1 (omega arith), has_room 2 (omega arith), back)
      (take_path room n 5 2 (omega arith) (omega arith))
  where
    has_room : (k : ℕ) → k ≤ 2 → ltb room k ≡ false
    has_room k h = ground (arith, fits, h)

    back : n - 13 + 13 ≡ n
    back = omega arith

-- The path's option is parsed, and the parser stands behind it.
parse_path :
    (a b c d : ℕ) (path tail : List ℕ) (room : ℕ)
    → length path < 256
    → length (path_bytes path) ≤ room
    → parse_option (a ∷ b ∷ c ∷ d ∷ (path_bytes path ++ tail)) 0 4 room
      ≡ some (
          some (record {
            option = record { option = 11; len = length path; ptr = path_ptr path };
            buf = 4 + length (path_bytes path);
            running_delta = 11;
          }))
parse_path a b c d path tail room short fits = elim (Bool-cases (ltb (length path) 13)) [
  | inl small ↦ rw (small) (
      parse_small a b c d (length path) room (path ++ tail) (ltb→lt _ _ small)
        (ground (arith, small, fits))
      ∙ ap
          (λ n. some (
            some (record {
              option = record { option = 11; len = length path; ptr = 5 };
              buf = n;
              running_delta = 11;
            })))
          (omega arith))
  | inr large ↦ rw large (
      parse_large a b c d (length path) room (path ++ tail) (ground (arith, large)) short
        (ground (arith, large, fits))
      ∙ ap
          (λ n. some (
            some (record {
              option = record { option = 11; len = length path; ptr = 6 };
              buf = n;
              running_delta = 11;
            })))
          (omega arith))
]

-- Its first byte does not end the options.
first_byte :
    (path : List ℕ)
    → length path < 256
    → (b : ℕ) × (rest : List ℕ) × (path_bytes path ≡ b ∷ rest) × ((b == 0xff) ≡ false)
first_byte path short = elim (Bool-cases (ltb (length path) 13)) [
  | inl small ↦ rw small (0xb0 + length path, path, refl, ground (arith, small))
  | inr large ↦ rw large (0xbd, (length path - 13) ∷ path, refl, refl)
]

-- One turn of the loop over the options, and the turn that ends it.
options_step :
    (room end delta : ℕ) (msg : List ℕ) (s : Options) (b : ℕ) (r : Parsed)
    → get_elem? msg s.p ≡ some b
    → (not (b == 0xff) && ltb s.p end) ≡ true
    → parse_option msg delta s.p (end - s.p) ≡ some (some r)
    → handle_options (suc room) msg end delta s
      ≡ handle_options room msg end r.running_delta
          (record { options = set s.options s.count r.option; count = s.count + 1; p = r.buf })
unfolding handle_options ◌>>?◌
options_step room end delta msg s b r found goes_on parsed = rw (found, goes_on, parsed) refl

options_stop :
    (room end delta : ℕ) (msg : List ℕ) (s : Options) (b : ℕ)
    → get_elem? msg s.p ≡ some b
    → (not (b == 0xff) && ltb s.p end) ≡ false
    → handle_options (suc room) msg end delta s ≡ some (some s)
unfolding handle_options
options_stop room end delta msg s b found stops = rw (found, stops) refl

module _ (method msg_id : ℕ) (path : List ℕ) (t : ℕ) (more : List ℕ)
    (short : length path < 256) where
  abbrev pub memory : List ℕ
  memory = id_bytes method msg_id ++ (path_bytes path ++ t ∷ more)

  abbrev pub behind : ℕ
  behind = 4 + length (path_bytes path)

  at_path : (b : ℕ) × (get_elem? memory 4 ≡ some b) × ((b == 0xff) ≡ false)
  at_path = let (b, rest, eq, no_marker) = first_byte path short in (b, rw eq refl, no_marker)

  at_behind : get_elem? memory behind ≡ some t
  at_behind = rw (index) (get_elem?-append (id_bytes method msg_id ++ path_bytes path) more t)
    where
      index : 4 + length (path_bytes path) ≡ length (id_bytes method msg_id ++ path_bytes path)
      index = omega arith

  abbrev parsed : Parsed
  parsed = record {
    option = record { option = 11; len = length path; ptr = path_ptr path };
    buf = 4 + length (path_bytes path);
    running_delta = 11;
  }

  path_long : 0 < length (path_bytes path)
  path_long = let (b, rest, eq, no_marker) = first_byte path short in rw eq (omega arith)

  options_lem :
      (end : ℕ) (options : List CoapOption)
      → behind ≤ end
      → (not (t == 0xff) && ltb behind end) ≡ false
      → handle_options 4 memory end 0 (record { options = options; count = 0; p = 4 })
        ≡ some (
            some (record {
              options =
                  set options 0 (record { option = 11; len = length path; ptr = path_ptr path });
              count = 1;
              p = behind;
            }))
  options_lem end options fits stop =
      let (b, found, no_marker) = at_path in
      options_step 3 end 0 memory (record { options = options; count = 0; p = 4 }) b parsed found
        (rw no_marker (lt→ltb 4 end (omega (arith, fits, path_long))))
        (parse_path 0x40 (method % 256) (msg_id / 2 ^ 8 % 256) (msg_id % 256) path (t ∷ more)
          (end - 4) short (omega (arith, fits)))
      ∙ options_stop 2 end 11 memory _ t at_behind stop

  abbrev pub sent_header : CoapHeader
  sent_header = record {
    token_len = 0;
    type = 0;
    version = 1;
    code = method % 256;
    msg_id_h = msg_id / 2 ^ 8 % 256;
    msg_id_l = msg_id % 256;
  }

  handle_memory :
      (junk : Packet) (end : ℕ)
      → behind ≤ end
      → (not (t == 0xff) && ltb behind end) ≡ false
      → handle_msg junk memory end
        ≡ handle_payload memory end
            (record junk { header = sent_header; token = none })
            (record {
              options =
                  set junk.options 0
                    (record { option = 11; len = length path; ptr = path_ptr path });
              count = 1;
              p = behind;
            })
  unfolding handle_msg read_header handle_body ◌>>?◌
  handle_memory junk end fits stop =
      rw (no_less, more_than, options_lem end junk.options fits stop) refl
    where
      no_less : ltb end 4 ≡ false
      no_less = ground (arith, fits)

      more_than : ltb (4 + 0) end ≡ true
      more_than = lt→ltb 4 end (omega (arith, fits, path_long))

-- What the response handler gets of a request: its header, the path as the one option, and the
-- payload, as positions in the memory of the message.
abbrev pub received : Packet → ℕ → ℕ → List ℕ → ℕ → Packet
received junk method msg_id path n = record {
  header = record {
    token_len = 0;
    type = 0;
    version = 1;
    code = method % 256;
    msg_id_h = msg_id / 2 ^ 8 % 256;
    msg_id_l = msg_id % 256;
  };
  option_count = 1;
  options = set junk.options 0 (record { option = 11; len = length path; ptr = path_ptr path });
  token = none;
  payload = if ltb 0 n then some (5 + length (path_bytes path)) else none;
  payload_len = n;
}

handle_payload_found :
    (msg : List ℕ) (end : ℕ) (packet : Packet) (s : Options)
    → get_elem? msg s.p ≡ some 0xff
    → s.p + 1 < end
    → handle_payload msg end packet s
      ≡ some (
          some (record packet {
            options = s.options;
            option_count = s.count;
            payload = some (s.p + 1);
            payload_len = (end - (s.p + 1)) % 2 ^ 16;
          }))
unfolding handle_payload
handle_payload_found msg end packet s marker room = rw (lt→ltb _ _ room, marker) refl

handle_payload_skips :
    (msg : List ℕ) (end : ℕ) (packet : Packet) (s : Options)
    → ltb (s.p + 1) end ≡ false
    → handle_payload msg end packet s
      ≡ some (
          some (record packet {
            options = s.options;
            option_count = s.count;
            payload = none;
            payload_len = 0;
          }))
unfolding handle_payload
handle_payload_skips msg end packet s past = rw past refl

with_payload :
    (junk : Packet) (method msg_id n : ℕ) (path payload rest : List ℕ)
    → length path < 256
    → 0 < n
    → n < 2 ^ 16
    → n ≤ length payload
    → handle_msg junk
        (id_bytes method msg_id ++ (path_bytes path ++ 0xff ∷ (take n payload ++ rest)))
        (4 + length (path_bytes path) + 1 + n)
      ≡ some (some (received junk method msg_id path n))
with_payload junk method msg_id n path payload rest short positive wide fits =
    rw (lt→ltb 0 n positive) (
      handle_memory method msg_id path 0xff (take n payload ++ rest) short junk end (omega arith)
        refl
      ∙ handle_payload_found (memory method msg_id path 0xff (take n payload ++ rest) short) end _ _
          (at_behind method msg_id path 0xff (take n payload ++ rest) short) (omega arith)
      ∙ ap₂
          (λ a m. some (
            some
              (record (received junk method msg_id path n) { payload = some a; payload_len = m })))
          (omega arith) (omega arith))
  where
    end : ℕ
    end = 4 + length (path_bytes path) + 1 + n

without_payload :
    (junk : Packet) (method msg_id x : ℕ) (path more : List ℕ)
    → length path < 256
    → handle_msg junk
        (id_bytes method msg_id ++ (path_bytes path ++ x ∷ more))
        (4 + length (path_bytes path))
      ≡ some (some (received junk method msg_id path 0))
without_payload junk method msg_id x path more short =
    handle_memory method msg_id path x more short junk end (omega arith) (ground arith)
    ∙ handle_payload_skips (memory method msg_id path x more short) end _ _ (ground arith)
  where
    end : ℕ
    end = 4 + length (path_bytes path)

read_path :
    (a b c d : ℕ) (path tail : List ℕ)
    → take (length path) (drop (path_ptr path) (a ∷ b ∷ c ∷ d ∷ (path_bytes path ++ tail))) ≡ path
read_path a b c d path tail = elim (Bool-cases (ltb (length path) 13)) [
  | inl small ↦ rw small (take-append path tail)
  | inr large ↦ rw large (take-append path tail)
]

drop_past : (xs ys : List ℕ) (y : ℕ) → drop (suc (length xs)) (xs ++ y ∷ ys) ≡ ys
drop_past [] ys y = refl
drop_past (x ∷ xs) ys y = drop_past xs ys y

read_payload :
    (method msg_id n : ℕ) (path payload : List ℕ)
    → n ≤ length payload
    → take n (
        drop
          (5 + length (path_bytes path))
          (id_bytes method msg_id ++ (path_bytes path ++ 0xff ∷ take n payload)))
      ≡ take n payload
read_payload method msg_id n path payload fits =
    ap (λ i. take n (drop i (id_bytes method msg_id ++ (path_bytes path ++ 0xff ∷ take n payload))))
      index
    ∙ ap (λ t. take n t)
        (drop_past (id_bytes method msg_id ++ path_bytes path) (take n payload) 0xff)
    ∙ ap₂ (λ m t. take m t) (sym (length-take_le)) (sym (append-nil (take n payload)))
    ∙ take-append (take n payload) []
  where
    index : 5 + length (path_bytes path) ≡ suc (length (id_bytes method msg_id ++ path_bytes path))
    index = omega arith

    length-take_le : length (take n payload) ≡ n
    length-take_le = omega (arith, length-take n payload)

-- A request for a path shorter than 256 bytes, in memory that goes on by at least a byte: as a
-- message it hands the response handler its code, its id, the path and the payload, whatever the
-- bytes behind it are.
pub request_roundtrip :
    (junk : Packet) (method msg_id n x : ℕ) (path payload more : List ℕ)
    → length path < 256
    → n < 2 ^ 16
    → n ≤ length payload
    → (handle_msg junk
          (request_bytes method msg_id path payload n ++ x ∷ more)
          (length (request_bytes method msg_id path payload n))
        ≡ some (some (received junk method msg_id path n)))
      × (take (length path) (drop (path_ptr path) (request_bytes method msg_id path payload n))
          ≡ path)
      × (take n (drop (5 + length (path_bytes path)) (request_bytes method msg_id path payload n))
          ≡ take n payload)
request_roundtrip junk method msg_id n x path payload more short wide fits = (
  handled,
  read_path 0x40 (method % 256) (msg_id / 2 ^ 8 % 256) (msg_id % 256) path
      (payload_bytes payload n),
  elim (Bool-cases (ltb 0 n)) [
    | inl positive ↦ rw positive (read_payload method msg_id n path payload fits)
    | inr empty ↦ let zero_eq : n ≡ 0 = ground (arith, empty) in rw zero_eq refl
  ],
)
  where
    handled :
        handle_msg junk
          (request_bytes method msg_id path payload n ++ x ∷ more)
          (length (request_bytes method msg_id path payload n))
        ≡ some (some (received junk method msg_id path n))
    handled = elim (Bool-cases (ltb 0 n)) [
      | inl positive ↦ rw positive (
          ap₂ (λ mem end. handle_msg junk mem end)
            (ap (λ t. id_bytes method msg_id ++ t)
              (append_assoc (path_bytes path) (0xff ∷ take n payload) (x ∷ more)))
            (omega (
              arith,
              length-append (path_bytes path) (0xff ∷ take n payload),
              length-take n payload,
            ))
          ∙ with_payload junk method msg_id n path payload (x ∷ more) short (ltb→lt _ _ positive)
              wide fits
          ∙ ap
              (λ b. some (
                some (record (received junk method msg_id path n) {
                  payload = if b then some (5 + length (path_bytes path)) else none;
                })))
              positive)
      | inr empty ↦
          let zero_eq : n ≡ 0 = ground (arith, empty) in
          rw zero_eq (
            ap₂ (λ mem end. handle_msg junk mem end)
              (ap (λ t. id_bytes method msg_id ++ t) (append_assoc (path_bytes path) [] (x ∷ more)))
              (omega (arith, length-append (path_bytes path) []))
            ∙ without_payload junk method msg_id x path more short)
    ]
