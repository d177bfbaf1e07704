-- ===== src/Bredr/SyncWord.antt =====
-- The sync word of an access code, `bredr_gen_syncword` of
-- src/core/protocol/bredr/bredr_codec.c.
pub mod Lap
use supertooth.Base.{
  ℕ, zero, suc, ◌+◌, bit_and, bit_xor, [], ◌∷◌, List, at, ◌==◌, if◌then◌else◌, ◌>>>◌,
}

-- `s_sw_matrix`.
abbrev pub sw_matrix : List ℕ
sw_matrix =
    0xfe000002a0d1c014 ∷ 0x01000003f0b9201f ∷ 0x008000033ae40edb ∷ 0x004000035fca99b9
    ∷ 0x002000036d5dd208 ∷ 0x00100001b6aee904 ∷ 0x00080000db577482 ∷ 0x000400006dabba41
    ∷ 0x00020002f46d43f4 ∷ 0x000100017a36a1fa ∷ 0x00008000bd1b50fd ∷ 0x000040029c3536aa
    ∷ 0x000020014e1a9b55 ∷ 0x0000100265b5d37e ∷ 0x0000080132dae9bf ∷ 0x000004025bd5ea0b
    ∷ 0x00000203ef526bd1 ∷ 0x000001033511ab3c ∷ 0x000000819a88d59e ∷ 0x00000040cd446acf
    ∷ 0x00000022a41aabb3 ∷ 0x0000001390b5cb0d ∷ 0x0000000b0ae27b52 ∷ 0x0000000585713da9 ∷ []

abbrev pub default_cw : ℕ
default_cw = 0xb0000002c7820e7e

-- The loop at row `i`, with `left` rounds to go.
unfoldable pub syncword_loop : ℕ → ℕ → ℕ → ℕ → ℕ
syncword_loop zero i lap codeword = codeword
syncword_loop (suc left) i lap codeword =
    syncword_loop left (i + 1) lap
      (if bit_and lap (0x800000 >>> i) == 0 then codeword else bit_xor codeword (at sw_matrix i))

unfoldable pub gen_syncword : ℕ → ℕ
unfolding syncword_loop
gen_syncword lap = syncword_loop 24 0 lap default_cw
