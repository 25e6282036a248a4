-- ===== src/Coap/Send/Request.antt =====
-- The packet that coapClientSendRequest makes.
use edge_pdl.Prelude.{
  ℕ, ◌+◌, ◌-◌, ◌*◌, ◌/◌, ◌%◌, ◌^◌, ◌≤◌, ◌<◌, bit_or, none, some, true, false, Bool-cases, inl, inr,
}
use edge_pdl.Prelude.{
  if◌then◌else◌, ltb, leb, List, [], ◌∷◌, ◌++◌, length, take, drop, length-append, length-take,
  length-drop, append_assoc, ltb→lt, lt→ltb, le→leb, append-nil, ◌≡◌, refl, ap, ap₂, arith,
}
use edge_pdl.Bits.{bit_or_fields}
use edge_pdl.Buffer.{
  Writer, at, put_all, put_all_then, put_all_lem, read_bytes-take, read_bytes_all,
}
use edge_pdl.Coap.Send.{
  SendOption, Sender, option_delta, packet_add_option, extension, options_loop, add_payload,
  hand_over, send_payload, send_request, write_option,
}

-- The option of a path: its first byte, a second one where the path has 13 bytes or more, and it.
abbrev pub path_bytes : List ℕ → List ℕ
path_bytes path =
    if ltb (length path) 13 then (0xb0 + length path) ∷ path else 0xbd ∷ (length path - 13) ∷ path

abbrev pub payload_bytes : List ℕ → ℕ → List ℕ
payload_bytes payload n = if ltb 0 n then 0xff ∷ take n payload else []

-- A confirmable message without a token, of version 1.
abbrev pub id_bytes : ℕ → ℕ → List ℕ
id_bytes method msg_id = 0x40 ∷ (method % 256) ∷ (msg_id / 2 ^ 8 % 256) ∷ (msg_id % 256) ∷ []

abbrev pub request_bytes : ℕ → ℕ → List ℕ → List ℕ → ℕ → List ℕ
request_bytes method msg_id path payload n =
    id_bytes method msg_id ++ (path_bytes path ++ payload_bytes payload n)

abbrev uri_option : List ℕ → SendOption
uri_option path = record { option = 11; len = length path; ptr = path }

write_option-put_all :
    (o : SendOption) (delta len : ℕ) (delta_ext len_ext : List ℕ) (w : Writer)
    → o.len ≤ length o.ptr
    → write_option o delta len delta_ext len_ext w
      ≡ put_all
          ((bit_or (delta * 2 ^ 4) len % 256) ∷ (delta_ext ++ (len_ext ++ take o.len o.ptr)))
          w
unfolding write_option
write_option-put_all o delta len delta_ext len_ext w fits =
    put_all_then ((bit_or (delta * 2 ^ 4) len % 256) ∷ []) _ _ w λ w₁.
      put_all_then delta_ext (len_ext ++ take o.len o.ptr) _ w₁ λ w₂.
        put_all_then len_ext (take o.len o.ptr) _ w₂ λ w₃. rw (read_bytes-take o.len o.ptr fits)

take_all : (xs : List ℕ) → take (length xs) xs ≡ xs
take_all [] = refl
take_all (x ∷ xs) = ap (λ t. x ∷ t) (take_all xs)

tag_byte : (n : ℕ) → n < 16 → bit_or (11 * 2 ^ 4) n % 256 ≡ 0xb0 + n
tag_byte n h = omega (arith, bit_or_fields 4 11 n h)

option_delta_small : (n : ℕ) → n < 13 → option_delta n ≡ n
unfolding option_delta
option_delta_small n h = ground (arith, h)

option_delta_large : (n : ℕ) → 13 ≤ n → n < 256 → option_delta n ≡ 13
unfolding option_delta
option_delta_large n h short = ground (arith, h)

extension_none : (n value high : ℕ) → n < 13 → extension n value high ≡ []
unfolding extension
extension_none n value high h = ground (arith, h)

extension_one :
    (value high : ℕ) → 13 ≤ value → value < 256 → extension 13 value high ≡ (value - 13) ∷ []
unfolding extension
extension_one value high h short = ap (λ b. b ∷ []) (omega arith)

-- The option's writes are the path's bytes.
write_path :
    (path : List ℕ) (w : Writer)
    → length path < 256
    → write_option
        (uri_option path)
        11
        (option_delta (length path))
        []
        (extension (option_delta (length path)) (length path) (length path / 2 ^ 8))
        w
      ≡ put_all (path_bytes path) w
write_path path w short = elim (Bool-cases (ltb (length path) 13)) [
  | inl small ↦ rw (
    small,
    option_delta_small (length path) (ltb→lt _ _ small),
    extension_none (length path) (length path) (length path / 2 ^ 8) (ltb→lt _ _ small),
    write_option-put_all (uri_option path) 11 (length path) [] [] w (omega arith),
    take_all path,
    tag_byte (length path) (omega (arith, ltb→lt _ _ small)),
  )
  | inr large ↦ rw (
    large,
    option_delta_large (length path) (not_small large) short,
    extension_one (length path) (length path / 2 ^ 8) (not_small large) short,
    write_option-put_all (uri_option path) 11 13 [] ((length path - 13) ∷ []) w (omega arith),
    take_all path,
    tag_byte 13 (omega arith),
  )
]
  where
    not_small : ltb (length path) 13 ≡ false → 13 ≤ length path
    not_small e = ground (arith, e)

-- What the loop counts is what it writes.
length-path_bytes :
    (path : List ℕ)
    → length path < 256
    → length (extension (option_delta (length path)) (length path) (length path / 2 ^ 8))
        + (length path + 1)
      ≡ length (path_bytes path)
length-path_bytes path short = elim (Bool-cases (ltb (length path) 13)) [
  | inl small ↦
      rw
        (
          small,
          option_delta_small (length path) (ltb→lt _ _ small),
          extension_none (length path) (length path) (length path / 2 ^ 8) (ltb→lt _ _ small),
        )
        (omega arith)
  | inr large ↦
      rw
        (
          large,
          option_delta_large (length path) (not_small large) short,
          extension_one (length path) (length path / 2 ^ 8) (not_small large) short,
        )
        (omega arith)
]
  where
    not_small : ltb (length path) 13 ≡ false → 13 ≤ length path
    not_small e = ground (arith, e)

length-path_bytes_lt : (path : List ℕ) → length path < 256 → length (path_bytes path) < 258
length-path_bytes_lt path short = elim (Bool-cases (ltb (length path) 13)) [
  | inl small ↦ rw small (omega arith)
  | inr large ↦ rw large (omega arith)
]

-- The loop over the one option, from the end of what is `done`.
options_loop-one :
    (path done rest : List ℕ)
    → length path < 256
    → length done ≡ 4
    → 300 ≤ length rest
    → options_loop (uri_option path ∷ []) 0 (record { out = at done rest; packet_size = 4 })
      ≡ some (
          some (record {
            out = at (done ++ path_bytes path) (drop (length (path_bytes path)) rest);
            packet_size = length (done ++ path_bytes path);
          }))
unfolding options_loop
options_loop-one path done rest short four room =
    rw
      (
        option_delta_small 11 (omega arith),
        extension_none 11 11 0 (omega arith),
        has_room,
        write_path path (at done rest) short,
        put_all_lem (path_bytes path) done rest (omega (arith, length-path_bytes_lt path short)),
      )
      (ap
        (λ n. some (
          some (record {
            out = at (done ++ path_bytes path) (drop (length (path_bytes path)) rest);
            packet_size = n;
          })))
        (omega (
          arith,
          four,
          length-append done (path_bytes path),
          length-path_bytes path short,
          length-path_bytes_lt path short,
        )))
  where
    has_room : leb 512 (4 + 5 + length path) ≡ false
    has_room = ground (arith, short)

-- The payload behind what is `done`.
add_payload_lem :
    (payload done rest : List ℕ) (n : ℕ)
    → n ≤ length payload
    → length done + 1 + n < 512
    → length done + length rest ≡ 512
    → ltb 0 n ≡ true
    → add_payload payload n (record { out = at done rest; packet_size = length done })
      ≡ some (
          some (record {
            out = at (done ++ 0xff ∷ take n payload) (drop (length (take n payload)) (drop 1 rest));
            packet_size = length (done ++ 0xff ∷ take n payload);
          }))
unfolding add_payload
add_payload_lem payload done rest n fits enough size positive =
    rw
      (
        positive,
        has_room,
        put_all_lem (0xff ∷ []) done rest (omega arith),
        read_bytes-take n payload fits,
        put_all_lem (take n payload) (done ++ 0xff ∷ []) (drop 1 rest)
            (omega (arith, length-take n payload, length-drop 1 rest)),
      )
      (ap₂
        (λ bytes m. some (
          some (record {
            out = at bytes (drop (length (take n payload)) (drop 1 rest));
            packet_size = m;
          })))
        (append_assoc done (0xff ∷ []) (take n payload))
        (omega (arith, length-append done (0xff ∷ take n payload), length-take n payload)))
  where
    has_room : leb 512 (length done + 1 + n) ≡ false
    has_room = ground (arith, enough)

add_payload_skips :
    (payload : List ℕ) (n : ℕ) (s : Sender)
    → ltb 0 n ≡ false
    → add_payload payload n s ≡ some (some s)
unfolding add_payload
add_payload_skips payload n s empty = rw empty refl

add_payload_refused :
    (payload : List ℕ) (n : ℕ) (s : Sender)
    → ltb 0 n ≡ true
    → 512 ≤ s.packet_size + 1 + n
    → add_payload payload n s ≡ some none
unfolding add_payload
add_payload_refused payload n s positive long =
    rw (positive, le→leb 512 (s.packet_size + 1 + n) long) refl

-- What is behind the options, and the packet that is handed over.
send_payload_lem :
    (payload done rest : List ℕ) (n : ℕ)
    → n ≤ length payload
    → length done < 300
    → length done + length rest ≡ 512
    → send_payload true payload n (some (record { out = at done rest; packet_size = length done }))
      ≡ some (
          if ltb (length (done ++ payload_bytes payload n)) 512
          then record { packet = some (done ++ payload_bytes payload n); result = true }
          else record { packet = none; result = false })
unfolding send_payload hand_over
send_payload_lem payload done rest n fits short size = elim (Bool-cases (ltb 0 n)) [
  | inr empty ↦
      rw
        (
          empty,
          append-nil done,
          lt→ltb (length done) 512 (omega (arith, short)),
          add_payload_skips payload n _ empty,
          read_bytes_all done rest,
        )
        refl
  | inl positive ↦ elim (Bool-cases (ltb (length (done ++ 0xff ∷ take n payload)) 512)) [
    | inl enough ↦
        rw
          (
            positive,
            enough,
            add_payload_lem payload done rest n fits (omega (arith, length_eq, ltb→lt _ _ enough))
                size positive,
            read_bytes_all (done ++ 0xff ∷ take n payload)
                (drop (length (take n payload)) (drop 1 rest)),
          )
          refl
    | inr full ↦
        rw
          (
            positive,
            full,
            add_payload_refused payload n (record { out = at done rest; packet_size = length done })
                positive (too_long full),
          )
          refl
  ]
]
  where
    length_eq : length (done ++ 0xff ∷ take n payload) ≡ length done + 1 + n
    length_eq = omega (arith, length-append done (0xff ∷ take n payload), length-take n payload)

    too_long : ltb (length (done ++ 0xff ∷ take n payload)) 512 ≡ false → 512 ≤ length done + 1 + n
    too_long e = rw (← length_eq) (ground (arith, e))

-- coapClientSendRequest over a buffer of its size, for a path shorter than 256 bytes, makes no
-- access out of range. Where the whole packet is shorter than 512 bytes it is what the send handler
-- gets; else the handler is not called and the result is false.
pub send_request_lem :
    (buffer path payload : List ℕ) (method msg_id n : ℕ)
    → length buffer ≡ 512
    → length path < 256
    → n ≤ length payload
    → send_request buffer true method msg_id path payload n
      ≡ some (
          if ltb (length (request_bytes method msg_id path payload n)) 512
          then record { packet = some (request_bytes method msg_id path payload n); result = true }
          else record { packet = none; result = false })
unfolding send_request packet_add_option
send_request_lem buffer path payload method msg_id n size short fits =
    rw
      (
        put_all_lem (id_bytes method msg_id) [] buffer (omega (arith, size)),
        same_len,
        options_loop-one path (id_bytes method msg_id) (drop 4 buffer) short refl
            (omega (arith, length-drop 4 buffer, size)),
      )
      (send_payload_lem payload (id_bytes method msg_id ++ path_bytes path)
        (drop (length (path_bytes path)) (drop 4 buffer)) n fits
        (omega (arith, length-path_bytes_lt path short))
        (omega (
          arith,
          length-path_bytes_lt path short,
          size,
          length-drop 4 buffer,
          length-drop (length (path_bytes path)) (drop 4 buffer),
        )))
  where
    same_len : length path % 256 ≡ length path
    same_len = omega (arith, short)
