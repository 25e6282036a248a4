-- ===== src/SystemFlags.antt =====
-- src/general/lib/system_flags/system_flags.c: two words of status flags. The lock makes each
-- function one step on the pair of words.
mod Tests
use edge_pdl.Prelude.{ℕ, zero, suc, ◌-◌, ◌^◌, ◌<◌, bit_and, bit_or, min}
use edge_pdl.Prelude.{Bool, true, false, if◌then◌else◌, ◌==◌, ◌≡◌, refl, ap, ◌∙◌, arith}
use edge_pdl.Bits.{bit, bit-lt, bit-bit_and, bit-bit_or, bit-complement, bit_or-lt, bit_and-lt}

-- `u32_system_flags` and `u32_comms_flags`
pub record Flags : Type 0 where
  pub system : ℕ
  pub comms : ℕ

-- `~mask` of a `uint32_t`
abbrev pub complement : ℕ → ℕ
complement mask = 2 ^ 32 - 1 - mask

-- `|= mask` or `&= ~mask`
abbrev pub assign : ℕ → Bool → ℕ → ℕ
assign mask b_set word = if b_set then bit_or word mask else bit_and word (complement mask)

-- systemFlagsInit
pub init : Flags → Flags
init s = record { system = 0; comms = 0 }

-- getSystemFlags
pub get_system_flags : Flags → ℕ
get_system_flags s = s.system

-- setSystemFlags
pub set_system_flags : ℕ → Bool → Flags → Flags
set_system_flags mask b_set s = record s { system = assign mask b_set s.system }

-- getCommsFlags
pub get_comms_flags : Flags → ℕ
get_comms_flags s = s.comms

-- setCommsFlags
pub set_comms_flags : ℕ → Bool → Flags → Flags
set_comms_flags mask b_set s = record s { comms = assign mask b_set s.comms }

-- Both words are `uint32_t`.
pub record IsWords (s : Flags) : Type 0 where
  pub system_fits : s.system < 2 ^ 32
  pub comms_fits : s.comms < 2 ^ 32

abbrev digit : Bool → ℕ
digit b = if b then 1 else 0

bit-assign :
    (k mask : ℕ) (b_set : Bool) (word : ℕ)
    → k < 32
    → mask < 2 ^ 32
    → bit k (assign mask b_set word) ≡ (if bit k mask == 1 then digit b_set else bit k word)
bit-assign k mask true word p q =
    ground (arith, bit-bit_or k word mask, bit-lt k word, bit-lt k mask)
bit-assign k mask false word p q = ground (
  arith,
  bit-bit_and k word (complement mask),
  bit-lt k word,
  bit-lt k mask,
  bit-complement k 32 mask p q,
)

assign-lt :
    (mask : ℕ) (b_set : Bool) (word : ℕ)
    → mask < 2 ^ 32
    → word < 2 ^ 32
    → assign mask b_set word < 2 ^ 32
assign-lt mask true word p q = bit_or-lt 32 word mask q p
assign-lt mask false word p q = bit_and-lt 32 word (complement mask) q

-- The `set` functions set or clear exactly the flags of the mask, leave every other flag of the
-- word and the whole other word as they were, and keep both words 32 bits wide.
pub set_flags_lem :
    (s : Flags) (mask : ℕ) (b_set : Bool) (k : ℕ)
    → IsWords s
    → mask < 2 ^ 32
    → k < 32
    → let t = set_system_flags mask b_set s in
      let u = set_comms_flags mask b_set s in
      (bit k (get_system_flags t)
        ≡ (if bit k mask == 1 then digit b_set else bit k (get_system_flags s)))
      × (get_comms_flags t ≡ get_comms_flags s)
      × (bit k (get_comms_flags u)
          ≡ (if bit k mask == 1 then digit b_set else bit k (get_comms_flags s)))
      × (get_system_flags u ≡ get_system_flags s)
      × IsWords t
      × IsWords u
unfolding set_system_flags set_comms_flags get_system_flags get_comms_flags
set_flags_lem s mask b_set k v p q = (
  bit-assign k mask b_set s.system q p,
  refl,
  bit-assign k mask b_set s.comms q p,
  refl,
  record { system_fits = assign-lt mask b_set s.system p v.system_fits; comms_fits = v.comms_fits },
  record { system_fits = v.system_fits; comms_fits = assign-lt mask b_set s.comms p v.comms_fits },
)
