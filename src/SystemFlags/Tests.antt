-- ===== src/SystemFlags/Tests.antt =====
-- src/general/lib/system_flags/system_flags.c at concrete words.
use edge_pdl.Prelude.{false, ◌≡◌, refl, arith}
use edge_pdl.Bits.{bit}
use edge_pdl.SystemFlags.{Flags, IsWords, init, get_system_flags, set_system_flags, get_comms_flags}
use edge_pdl.SystemFlags.{set_comms_flags, set_flags_lem}

abbrev some_set : Flags
some_set = record { system = 0x0f; comms = 0xf0 }

clear_two : get_system_flags (set_system_flags 0x06 false some_set) ≡ 0x09
unfolding get_system_flags set_system_flags
clear_two = refl

init_clears : get_comms_flags (init some_set) ≡ 0
unfolding get_comms_flags init
init_clears = refl

set_flags_example :
    let t = set_system_flags 0x06 false some_set in
    let u = set_comms_flags 0x06 false some_set in
    (bit 1 (get_system_flags t) ≡ 0)
    × (get_comms_flags t ≡ get_comms_flags some_set)
    × (bit 1 (get_comms_flags u) ≡ 0)
    × (get_system_flags u ≡ get_system_flags some_set)
    × IsWords t
    × IsWords u
set_flags_example = set_flags_lem some_set 0x06 false 1 (omega arith) (omega arith) (omega arith)
