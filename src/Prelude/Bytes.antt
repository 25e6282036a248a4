-- ===== src/Prelude/Bytes.antt =====
-- The test that a buffer holds bytes, for buffers that are written out.
use Prim.Native.Nat.{ℕ}
use mathlib.Core.Path.{◌≡◌}
use mathlib.Core.Bool.{Bool, true, ◌&&◌}
use mathlib.Core.List.{List, [], ◌∷◌}
use native.Mathlib.Omega.{arith}
use edge_pdl.Prelude.Tests.{ltb}
use edge_pdl.Prelude.Lists.{AllBytes}

abbrev pub all_bytes : List ℕ → Bool
all_bytes [] = true
all_bytes (b ∷ bs) = ltb b 256 && all_bytes bs

pub all_bytes-AllBytes : (bs : List ℕ) → all_bytes bs ≡ true → AllBytes bs
all_bytes-AllBytes [] h = tt
all_bytes-AllBytes (b ∷ bs) h = (ground (arith, h), all_bytes-AllBytes bs (ground (arith, h)))
