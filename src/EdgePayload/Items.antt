-- ===== src/EdgePayload/Items.antt =====
-- edge_payload.c: the tags of a status payload and the events of an event payload. Both are an
-- array of entries with an id, a length byte and a pointer to the value, counted and written by
-- the same two loops.
use edge_pdl.Prelude.{ℕ, zero, suc, ◌+◌, ◌%◌, ◌≤◌, Option, none, some, ◌>>=◌}
use edge_pdl.Prelude.{
  List, [], ◌∷◌, ◌++◌, length, length-append, length-take, take, ◌≡◌, refl, sym, ap, arith,
}
use edge_pdl.Buffer.{Writer, put_all, put_all-nil, put_all_then, read_bytes, read_bytes-take}

-- `ep_status_tag_st` and `ep_event_content_st`; `value` is the memory at the pointer.
pub record Item : Type 0 where
  pub id : ℕ
  pub len : ℕ
  pub value : List ℕ

-- The loop that counts the bytes; `none` is an entry past the end of the array.
pub items_len : ℕ → List Item → Option ℕ
items_len zero items = some 0
items_len (suc n) [] = none
items_len (suc n) (it ∷ items) = items_len n items >>= λ sum. some (1 + 1 + it.len + sum)

-- The loop that writes them.
pub items_loop : ℕ → List Item → Writer → Option Writer
items_loop zero items w = some w
items_loop (suc n) [] w = none
items_loop (suc n) (it ∷ items) w = do
  w ← put_all ((it.id % 256) ∷ it.len ∷ []) w
  bytes ← read_bytes it.len it.value
  w ← put_all bytes w
  items_loop n items w

abbrev pub item_bytes : Item → List ℕ
item_bytes it = (it.id % 256) ∷ it.len ∷ take it.len it.value

abbrev pub items_bytes : ℕ → List Item → List ℕ
items_bytes zero items = []
items_bytes (suc n) [] = []
items_bytes (suc n) (it ∷ items) = item_bytes it ++ items_bytes n items

-- The array has `n` entries, and the memory of each value is as long as its length says.
abbrev pub ItemsFit : ℕ → List Item → Type 0
ItemsFit zero items = Unit
ItemsFit (suc n) [] = ⊥
ItemsFit (suc n) (it ∷ items) = (it.len ≤ length it.value) × ItemsFit n items

pub items_len-length :
    (n : ℕ) (items : List Item)
    → ItemsFit n items
    → items_len n items ≡ some (length (items_bytes n items))
unfolding items_len
items_len-length zero items h = refl
items_len-length (suc n) [] h = elim h [ ]
items_len-length (suc n) (it ∷ items) (len, h) = rw (items_len-length n items h) (
    ap some (
      omega (
        arith,
        length-append (take it.len it.value) (items_bytes n items),
        length-take it.len it.value,
      )))

pub items_loop-put_all :
    (n : ℕ) (items : List Item) (w : Writer)
    → ItemsFit n items
    → items_loop n items w ≡ put_all (items_bytes n items) w
unfolding items_loop
items_loop-put_all zero items w h = sym (put_all-nil w)
items_loop-put_all (suc n) [] w h = elim h [ ]
items_loop-put_all (suc n) (it ∷ items) w (len, h) =
    put_all_then ((it.id % 256) ∷ it.len ∷ []) (take it.len it.value ++ items_bytes n items) _ w
      λ v. rw (read_bytes-take it.len it.value len) (
        put_all_then (take it.len it.value) (items_bytes n items) (items_loop n items) v
          (λ u. items_loop-put_all n items u h))
