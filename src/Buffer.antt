-- ===== src/Buffer.antt =====
-- A C buffer that is filled from its start through a moving pointer: `*pui8_end++ = byte` and
-- `memcpy(pui8_end, bytes, n); pui8_end += n`. A write past the end of the buffer is a fault.
use edge_pdl.Prelude.{
  ℕ, zero, suc, ◌+◌, ◌≤◌, Option, none, some, ◌>>=◌, >>=_cong, if◌then◌else◌, ltb, lt→ltb,
  Bool-cases, inl, inr, true, ◌<◌,
}
use edge_pdl.Prelude.{
  List, [], ◌∷◌, ◌++◌, append_assoc, append-nil, length, length-append, drop, take, set,
}
use edge_pdl.Prelude.{◌≡◌, refl, sym, ap, ◌∙◌, arith}

-- `end` is `pui8_end - pui8_buf`.
pub record Writer : Type 0 where
  pub buf : List ℕ
  pub end : ℕ

-- The bytes are written in turn; `none` is a write past the end of the buffer.
pub put_all : List ℕ → Writer → Option Writer
put_all [] w = some w
put_all (b ∷ bs) w =
    let rest = put_all bs (record { buf = set w.buf w.end b; end = w.end + 1 }) in
    if ltb w.end (length w.buf) then rest else none

-- `memcpy(dst, src, n)` reads `n` bytes of `src`; `none` is a read past its end.
pub read_bytes : ℕ → List ℕ → Option (List ℕ)
read_bytes zero src = some []
read_bytes (suc n) [] = none
read_bytes (suc n) (b ∷ src) = read_bytes n src >>= λ bs. some (b ∷ bs)

pub read_bytes-take : (n : ℕ) (xs : List ℕ) → n ≤ length xs → read_bytes n xs ≡ some (take n xs)
unfolding read_bytes
read_bytes-take zero xs h = refl
read_bytes-take (suc n) [] h = elim h [ ]
read_bytes-take (suc n) (x ∷ xs) h = rw (read_bytes-take n xs (omega arith))

pub read_bytes_all : (bs rest : List ℕ) → read_bytes (length bs) (bs ++ rest) ≡ some bs
unfolding read_bytes
read_bytes_all [] rest = refl
read_bytes_all (b ∷ bs) rest = rw (read_bytes_all bs rest)

-- The writer that has written `done` and has `rest` before it.
abbrev pub at : List ℕ → List ℕ → Writer
at done rest = record { buf = done ++ rest; end = length done }

set-append :
    (done rest : List ℕ) (x b : ℕ) → set (done ++ x ∷ rest) (length done) b ≡ done ++ b ∷ rest
set-append [] rest x b = refl
set-append (d ∷ done) rest x b = ap (λ t. d ∷ t) (set-append done rest x b)

pub put_all-append :
    (bs cs : List ℕ) (w : Writer) → (put_all bs w >>= put_all cs) ≡ put_all (bs ++ cs) w
unfolding put_all
put_all-append [] cs w = refl
put_all-append (b ∷ bs) cs w = elim (Bool-cases (ltb w.end (length w.buf))) [
  | inl room ↦
      rw (room) (put_all-append bs cs (record { buf = set w.buf w.end b; end = w.end + 1 }))
  | inr full ↦ rw full
]

pub put_all-nil : (w : Writer) → put_all [] w ≡ some w
unfolding put_all
put_all-nil w = refl

-- Writes that are followed by what comes to writes.
pub put_all_then :
    (bs cs : List ℕ) (run : Writer → Option Writer) (w : Writer)
    → ((v : Writer) → run v ≡ put_all cs v)
    → (put_all bs w >>= run) ≡ put_all (bs ++ cs) w
put_all_then bs cs run w same =
    >>=_cong (put_all bs w) run (put_all cs) same ∙ put_all-append bs cs w

-- One byte written where there is room for it.
write_next :
    (done rest : List ℕ) (x b : ℕ)
    → ◌≡◌ {A = Writer}
        (record { buf = set (done ++ x ∷ rest) (length done) b; end = length done + 1 })
        (at (done ++ b ∷ []) rest)
write_next done rest x b = λ i. record { buf = contents i; end = moved i }
  where
    contents : set (done ++ x ∷ rest) (length done) b ≡ (done ++ b ∷ []) ++ rest
    contents = set-append done rest x b ∙ sym (append_assoc done (b ∷ []) rest)

    moved : length done + 1 ≡ length (done ++ b ∷ [])
    moved = omega (arith, length-append done (b ∷ []))

has_room : (done rest : List ℕ) (x : ℕ) → ltb (length done) (length (done ++ x ∷ rest)) ≡ true
has_room done rest x = lt→ltb _ _ (omega (arith, length-append done (x ∷ rest)))

-- Where there is room, the bytes replace as many of what was there, and nothing else changes.
pub put_all_lem :
    (bs done rest : List ℕ)
    → length bs ≤ length rest
    → put_all bs (at done rest) ≡ some (at (done ++ bs) (drop (length bs) rest))
unfolding put_all
put_all_lem [] done rest h = rw (append-nil done)
put_all_lem (b ∷ bs) done [] h = absurd (omega arith)
put_all_lem (b ∷ bs) done (x ∷ rest) h =
    rw (has_room done rest x, write_next done rest x b)
      (put_all_lem bs (done ++ b ∷ []) rest (omega arith)
        ∙ ap (λ t. some (at t (drop (length bs) rest))) (append_assoc done (b ∷ []) bs))

-- Where there is not, the writer faults.
pub put_all_fault :
    (bs done rest : List ℕ) → length rest < length bs → put_all bs (at done rest) ≡ none
unfolding put_all
put_all_fault [] done rest h = elim h [ ]
put_all_fault (b ∷ bs) done [] h = rw (append-nil done) (ground arith)
put_all_fault (b ∷ bs) done (x ∷ rest) h =
    rw (has_room done rest x, write_next done rest x b)
      (put_all_fault bs (done ++ b ∷ []) rest (omega arith))
