-- ===== src/Bredr/Decode/Laws.antt =====
-- What the result of `bredr_decode_frame` says.
use native.Mathlib.Decide.{ℕ_discrete}
use supertooth.Base.{ℕ, ◌≡◌, arith, Bytes}
use supertooth.Bredr.Types.{BredrFrame}
use supertooth.Bredr.Hec.{hec_ok_for_clk6}
use supertooth.Bredr.Hec.Checks.{decode_header-hec_ok_for_clk6, hec_ok_for_clk6-flag}
use supertooth.Bredr.Decode.{decode_bredr_frame}

-- A frame is decoded beyond its header exactly if the header check holds, whatever the local array
-- holds: the value that `bredr_decode_frame` returns is that of `bredr_hec_ok_for_clk6`.
pub decode_bredr_frame-hec_ok_for_clk6 :
    (frame : BredrFrame) (uap clk1_6 : ℕ) (decoded : Bytes)
    → (decode_bredr_frame frame uap clk1_6 decoded).0 ≡ hec_ok_for_clk6 frame uap clk1_6
unfolding decode_bredr_frame hec_ok_for_clk6
decode_bredr_frame-hec_ok_for_clk6 frame uap clk1_6 decoded = elim (ℕ_discrete frame.has_header 0) [
  | yes gone ↦ ground (arith, gone)
  | no there ↦ ground (
    arith,
    decode_header-hec_ok_for_clk6 frame uap clk1_6 there,
    hec_ok_for_clk6-flag frame uap clk1_6,
  )
]
