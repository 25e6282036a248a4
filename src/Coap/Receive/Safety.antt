-- ===== src/Coap/Receive/Safety.antt =====
-- The reads of coapClientHandleMsg of coap_client.c, and the places of what it hands over.
use edge_pdl.Prelude.{
  ℕ, zero, suc, ◌+◌, ◌-◌, ◌/◌, ◌%◌, ◌^◌, ◌≤◌, ◌<◌, Option, none, some, Bool-cases, ◌&&◌, ◌||◌, not,
}
use edge_pdl.Prelude.{
  ltb, leb, ◌==◌, List, [], ◌∷◌, ◌++◌, length, length-set, get_elem?_of_lt, set, take, take-set,
  All, ltb→lt, leb→le, if◌then◌else◌, ◌⊎◌, inl, inr, ◌≡◌, refl, ap, ◌∙◌, arith,
}
use edge_pdl.Coap.{CoapHeader}
use edge_pdl.Coap.Receive.{
  CoapOption, Packet, Head, extended, Parsed, take_option, ◌>>?◌, parse_option, Options,
  handle_options, handle_payload, read_header, handle_body, handle_msg,
}

-- A function that makes no access out of range, and gives what is meant where it does not refuse.
abbrev pub Safe : {A : Type 0} → (A → Type 0) → Option (Option A) → Type 0
Safe P none = ⊥
Safe P (some none) = Unit
Safe P (some (some x)) = P x

after-Safe :
    {A B : Type 0} (P : A → Type 0) (Q : B → Type 0) (m : Option (Option A))
    (f : A → Option (Option B))
    → Safe P m
    → ((x : A) → P x → Safe Q (f x))
    → Safe Q (m >>? f)
unfolding ◌>>?◌
after-Safe P Q none f h k = h
after-Safe P Q (some none) f h k = tt
after-Safe P Q (some (some x)) f h k = k x h

-- How far the parser of an option has read.
record IsHead (buf buf_len : ℕ) (h : Head) : Type 0 where
  at_head : h.p + 1 ≡ buf + h.head_len
  head_fits : h.head_len ≤ buf_len

module _ (msg : List ℕ) (buf buf_len : ℕ) (inside : buf + buf_len ≤ length msg) where
  extended-Safe :
      (nibble : ℕ) (h : Head)
      → IsHead buf buf_len h
      → Safe (λ r. IsHead buf buf_len r.1) (extended msg buf_len nibble h)
  unfolding extended
  extended-Safe nibble h v = elim (Bool-cases (nibble == 13)) [
    | inl one ↦ rw one (elim (Bool-cases (ltb buf_len (h.head_len + 1))) [
      | inl short ↦ rw short tt
      | inr long ↦
          let (b, found) =
            get_elem?_of_lt msg (h.p + 1) (ground (arith, long, inside, v.at_head)) in
          rw (long, found)
            (record { at_head = omega (arith, v.at_head); head_fits = ground (arith, long) })
    ])
    | inr not_one ↦ rw not_one (elim (Bool-cases (nibble == 14)) [
      | inl two ↦ rw two (elim (Bool-cases (ltb buf_len (h.head_len + 2))) [
        | inl short ↦ rw short tt
        | inr long ↦
            let (b, found) =
              get_elem?_of_lt msg (h.p + 1) (ground (arith, long, inside, v.at_head)) in
            let (c, found') =
              get_elem?_of_lt msg (h.p + 2) (ground (arith, long, inside, v.at_head)) in
            rw (long, found, found')
              (record { at_head = omega (arith, v.at_head); head_fits = ground (arith, long) })
      ])
      | inr not_two ↦
          rw not_two
            (elim (Bool-cases (nibble == 15)) [ inl wrong ↦ rw wrong tt | inr plain ↦ rw plain v ])
    ])
  ]

  -- An option that is parsed ends where the parser stands, inside the message.
  abbrev ParsedInside : Parsed → Type 0
  ParsedInside r = (r.buf ≤ buf + buf_len) × (r.option.ptr + r.option.len ≤ r.buf)

  take_option-Safe :
      (running_delta delta : ℕ) (r : ℕ × Head)
      → Safe ParsedInside (take_option running_delta buf buf_len delta r)
  unfolding take_option
  take_option-Safe running_delta delta (len, h) =
      elim (Bool-cases (ltb (buf + buf_len) (h.p + 1 + len))) [
        | inl long ↦ rw long tt
        | inr fits ↦ rw fits (ground (arith, fits), omega arith)
      ]

  parse_option-Safe :
      (running_delta : ℕ) → Safe ParsedInside (parse_option msg running_delta buf buf_len)
  unfolding parse_option
  parse_option-Safe running_delta = elim (Bool-cases (ltb buf_len 1)) [
    | inl empty ↦ rw empty tt
    | inr some_bytes ↦
        let (b, found) = get_elem?_of_lt msg buf (ground (arith, some_bytes, inside)) in
        rw (some_bytes, found)
          (after-Safe _ ParsedInside _ _
            (extended-Safe (b / 2 ^ 4 % 2 ^ 4) (record { p = buf; head_len = 1 })
              (record { at_head = refl; head_fits = ground (arith, some_bytes) }))
            (λ r v.
              after-Safe _ ParsedInside _ _ (extended-Safe (b % 2 ^ 4) r.1 v)
                (λ r' v'. take_option-Safe running_delta r.0 r')))
  ]

-- An option, or a payload, inside a message of `end` bytes.
abbrev pub Inside : ℕ → CoapOption → Type 0
Inside end o = o.ptr + o.len ≤ end

-- The loop's invariant.
pub record IsOptions (end room : ℕ) (s : Options) : Type 0 where
  pub length_options : length s.options ≡ 4
  pub count_room : s.count + room ≤ 4
  pub p_le : s.p ≤ end
  pub options_inside : All (Inside end) (take s.count s.options)

All-snoc :
    {A : Type 0} (P : A → Type 0) (xs : List A) (x : A) → All P xs → P x → All P (xs ++ x ∷ [])
All-snoc P [] x h p = (p, tt)
All-snoc P (y ∷ xs) x h p = (h.0, All-snoc P xs x h.1 p)

next : (n : ℕ) → n + 1 ≡ suc n
next n = omega arith

add_option :
    (end room : ℕ) (s : Options) (r : Parsed)
    → IsOptions end (suc room) s
    → r.buf ≤ end
    → r.option.ptr + r.option.len ≤ r.buf
    → IsOptions end room
        (record { options = set s.options s.count r.option; count = s.count + 1; p = r.buf })
add_option end room s r v buf_le option_le = record {
  length_options = length-set s.options s.count r.option ∙ v.length_options;
  count_room = omega (arith, v.count_room);
  p_le = buf_le;
  options_inside = rw take_eq (
      All-snoc (Inside end) (take s.count s.options) r.option v.options_inside
        (omega (arith, buf_le, option_le)));
}
  where
    take_eq :
        take (s.count + 1) (set s.options s.count r.option)
        ≡ take s.count s.options ++ r.option ∷ []
    take_eq =
        ap (λ k. take k (set s.options s.count r.option)) (next s.count)
        ∙ take-set s.options s.count r.option (omega (arith, v.count_room, v.length_options))

handle_options-Safe :
    (msg : List ℕ) (end : ℕ)
    → end < length msg
    → (room delta : ℕ) (s : Options) → IsOptions end room s
    → Safe (λ s. IsOptions end 0 s) (handle_options room msg end delta s)
unfolding handle_options
handle_options-Safe msg end inside zero delta s v = v
handle_options-Safe msg end inside (suc room) delta s v =
    let (b, found) = get_elem?_of_lt msg s.p (omega (arith, v.p_le, inside)) in
    rw found (elim (Bool-cases (not (b == 0xff) && ltb s.p end)) [
      | inl goes_on ↦ rw goes_on (
          after-Safe _ (λ s. IsOptions end 0 s) _ _
            (parse_option-Safe msg s.p (end - s.p) (omega (arith, v.p_le, inside)) delta)
            (λ r inside_r.
              handle_options-Safe msg end inside room r.running_delta _
                (add_option end room s r v (omega (arith, v.p_le, inside_r.0)) inside_r.1)))
      | inr stops ↦ rw stops (record {
        length_options = v.length_options;
        count_room = omega (arith, v.count_room);
        p_le = v.p_le;
        options_inside = v.options_inside;
      })
    ])

-- A packet whose options and payload lie inside a message of `end` bytes.
abbrev pub PayloadInside : ℕ → Option ℕ → ℕ → Type 0
PayloadInside end none len = len ≡ 0
PayloadInside end (some p) len = p + len ≤ end

-- The token that the header tells of stands behind the header.
abbrev pub TokenAt : ℕ → Option ℕ → Type 0
TokenAt zero token = token ≡ none
TokenAt (suc n) token = token ≡ some 4

abbrev pub IsToken : ℕ → Option ℕ → Type 0
IsToken n token = (n ≤ 8) × TokenAt n token

pub record IsInside (end : ℕ) (q : Packet) : Type 0 where
  pub token_at : IsToken q.header.token_len q.token
  pub token_inside : 4 + q.header.token_len < end
  pub option_count_le : q.option_count ≤ 4
  pub options_inside : All (Inside end) (take q.option_count q.options)
  pub payload_inside : PayloadInside end q.payload q.payload_len

-- What the response handler gets: a packet inside the message, or where the message ends with the
-- token or before its end, a packet with the options and the payload that were on the stack.
abbrev pub Delivered : Packet → ℕ → Packet → Type 0
Delivered junk end q =
    IsInside end q
    ⊎ (end ≤ 4 + q.header.token_len)
      × IsToken q.header.token_len q.token
      × (q.options ≡ junk.options)
      × (q.option_count ≡ junk.option_count)
      × (q.payload ≡ junk.payload)
      × (q.payload_len ≡ junk.payload_len)

handle_payload-Safe :
    (msg : List ℕ) (end : ℕ) (packet : Packet) (s : Options)
    → end < length msg
    → IsToken packet.header.token_len packet.token
    → 4 + packet.header.token_len < end
    → IsOptions end 0 s
    → Safe (IsInside end) (handle_payload msg end packet s)
unfolding handle_payload
handle_payload-Safe msg end packet s inside token room_token v =
    elim (Bool-cases (ltb (s.p + 1) end)) [
      | inr none_left ↦ rw none_left (empty_payload)
      | inl room ↦
          let (b, found) = get_elem?_of_lt msg s.p (omega (arith, v.p_le, inside)) in
          rw (room, found)
            (elim (Bool-cases (b == 0xff)) [
              | inl marker ↦ rw marker (record {
                token_at = token;
                token_inside = room_token;
                option_count_le = omega (arith, v.count_room);
                options_inside = v.options_inside;
                payload_inside = ground (arith, room);
              })
              | inr other ↦ rw other empty_payload
            ])
    ]
  where
    empty_payload : IsInside end (record packet {
      options = s.options;
      option_count = s.count;
      payload = none;
      payload_len = 0;
    })
    empty_payload = record {
      token_at = token;
      token_inside = room_token;
      option_count_le = omega (arith, v.count_room);
      options_inside = v.options_inside;
      payload_inside = refl;
    }

Safe-inl : (P Q : Packet → Type 0) (m : Option (Option Packet)) → Safe P m → Safe (λ q. P q ⊎ Q q) m
Safe-inl P Q none h = h
Safe-inl P Q (some none) h = tt
Safe-inl P Q (some (some q)) h = inl h

token_lem : (n : ℕ) → n ≤ 8 → IsToken n (if n == 0 then none else some 4)
token_lem zero few = (few, refl)
token_lem (suc n) few = (few, ground arith)

handle_body-Safe :
    (junk : Packet) (msg : List ℕ) (end : ℕ) (h : CoapHeader)
    → end < length msg
    → length junk.options ≡ 4
    → Safe (Delivered junk end) (handle_body junk msg end h)
unfolding handle_body
handle_body-Safe junk msg end h inside four = elim (Bool-cases (leb h.token_len 8)) [
  | inr wrong ↦ rw wrong tt
  | inl token ↦ rw token (elim (Bool-cases (ltb (4 + h.token_len) end)) [
    | inr bare ↦ rw bare (
        inr
          (ground (arith, bare), token_lem h.token_len (leb→le _ _ token), refl, refl, refl, refl))
    | inl longer ↦ rw longer (
        Safe-inl (IsInside end) _ _ (
          after-Safe (λ s. IsOptions end 0 s) (IsInside end) _ _
            (handle_options-Safe msg end inside 4 0 _ (record {
              length_options = four;
              count_room = omega arith;
              p_le = omega (arith, ltb→lt _ _ longer);
              options_inside = tt;
            }))
            (λ s v.
              handle_payload-Safe msg end _ s inside (token_lem h.token_len (leb→le _ _ token))
                (ltb→lt _ _ longer) v)))
  ])
]

-- coapClientHandleMsg over memory that holds a header and goes on behind the message makes no read
-- out of range, and what it hands over has the token of the length in the header, of at most 8 bytes,
-- behind the header, or none where the length is 0. Where the message is longer than header and token,
-- the token, the at most four options and the payload lie inside it. Else, where the message ends with
-- the token or before the token's end, so that the token is handed over though it does not lie inside
-- the message, the packet has the options and the payload that the uninitialised packet had.
pub handle_msg_inside :
    (junk : Packet) (msg : List ℕ) (msg_len : ℕ)
    → 4 ≤ length msg
    → msg_len < length msg
    → length junk.options ≡ 4
    → Safe (Delivered junk msg_len) (handle_msg junk msg msg_len)
unfolding handle_msg read_header
handle_msg_inside junk msg msg_len long inside four =
    let (b, found) = get_elem?_of_lt msg 0 (omega (arith, long)) in
    let (code, found_code) = get_elem?_of_lt msg 1 (omega (arith, long)) in
    let (id_h, found_h) = get_elem?_of_lt msg 2 (omega (arith, long)) in
    let (id_l, found_l) = get_elem?_of_lt msg 3 (omega (arith, long)) in
    rw (found, found_code, found_h, found_l)
      (elim (Bool-cases (ltb msg_len 4 || not (b / 2 ^ 6 % 2 ^ 2 == 1))) [
        | inl refused ↦ rw refused tt
        | inr taken ↦ rw taken (handle_body-Safe junk msg msg_len _ inside four)
      ])
