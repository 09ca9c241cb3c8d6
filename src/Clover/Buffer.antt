-- ===== src/Clover/Buffer.antt =====
-- `Solver::BVC` of a buffer and `Solver::BVCToBytes` of vp/src/symex/clover/solver.cpp: the bytes of a
-- concolic value, little endian. A buffer is the list of its bytes.
pub mod Numbers
pub mod Restored
use coverage_vp.Base.{ℕ, zero, suc, ◌+◌, ◌*◌, ltb, if◌then◌else◌, List, [], ◌∷◌, Option, none, some}
use coverage_vp.Clover.Expr.{Builder, BinOp}
use coverage_vp.Clover.Value.{
  ConcolicValue, u8, bvc, binary_operator, zext, extract, get_width, get_value,
}

module _ (b : Builder) where
  -- The body of the loop of `BVC`; `none` is the null pointer.
  abbrev pub with_byte : ConcolicValue b → Option (ConcolicValue b) → ConcolicValue b
  with_byte byte none = byte
  with_byte byte (some result) = binary_operator b BinOp.op_concat byte result

  unfoldable pub bvc_loop : List ℕ → Option (ConcolicValue b) → Option (ConcolicValue b)
  bvc_loop [] result = result
  bvc_loop (x ∷ buf) result = bvc_loop buf (some (with_byte (bvc b none (u8 x)) result))

  unfoldable pub bvc_buffer : List ℕ → Option (ConcolicValue b)
  bvc_buffer buf = bvc_loop buf none

  -- The loop of `BVCToBytes`, with the rounds left; `none` is the failed assertion of `getValue`.
  unfoldable pub bytes_loop : ConcolicValue b → ℕ → ℕ → Option (List ℕ)
  bytes_loop value zero i = some []
  bytes_loop value (suc left) i =
      let rest = bytes_loop value left (i + 1) in
      elim (get_value b (extract b value (i * 8) 8)) [
        | none ↦ none
        | some byte ↦ elim rest [ none ↦ none | some bytes ↦ some (byte ∷ bytes) ]
      ]

  unfoldable pub bvc_to_bytes : ConcolicValue b → ℕ → Option (List ℕ)
  bvc_to_bytes value buflen =
      let wide =
        if ltb (get_width b value) (buflen * 8) then zext b value (buflen * 8) else value in
      bytes_loop wide buflen 0
