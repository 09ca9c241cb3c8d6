-- ===== src/Clover/Memory.antt =====
-- vp/src/symex/clover/memory.cpp: byte memory of concolic values. The hash table is a function of the
-- 32-bit address; `none` is an address that was never written. Bytes are little endian.
pub mod Stored
pub mod Loaded
use coverage_vp.Base.{
  ℕ, zero, suc, ◌+◌, ◌*◌, ◌%◌, ◌^◌, ltb, ◌==◌, if◌then◌else◌, Option, none, some,
}
use coverage_vp.Clover.Expr.{Builder, BinOp}
use coverage_vp.Clover.Value.{
  ConcolicValue, u8, bvc, binary_operator, zext, extract, get_width, get_value,
}

abbrev pub Memory : Builder → Type 0
Memory b = ℕ → Option (ConcolicValue b)

-- An address and an offset, in `uint32_t`.
abbrev pub address : ℕ → ℕ → ℕ
address addr off = (addr + off) % 2 ^ 32

module _ (b : Builder) where
  pub reset : Memory b → Memory b
  reset mem addr = none

  abbrev pub update : Memory b → ℕ → ConcolicValue b → Memory b
  update mem a v i = if i == a then some v else mem i

  -- A byte that was never written reads as zero.
  abbrev pub byte_at : Memory b → ℕ → ConcolicValue b
  byte_at mem a = elim (mem a) [ none ↦ bvc b none (u8 0) | some byte ↦ byte ]

  abbrev pub prepend : ConcolicValue b → Option (ConcolicValue b) → ConcolicValue b
  prepend byte none = byte
  prepend byte (some result) = binary_operator b BinOp.op_concat byte result

  -- The loop of `load`, with the rounds left; the result starts as the null pointer.
  pub load_loop : Memory b → ℕ → ℕ → ℕ → Option (ConcolicValue b) → Option (ConcolicValue b)
  load_loop mem addr zero off result = result
  load_loop mem addr (suc left) off result =
      load_loop mem addr left (off + 1) (some (prepend (byte_at mem (address addr off)) result))

  pub load : Memory b → ℕ → ℕ → Option (ConcolicValue b)
  load mem addr bytesize = load_loop mem addr bytesize 0 none

  -- The loop of `store`.
  pub store_loop : Memory b → ℕ → ConcolicValue b → ℕ → ℕ → Memory b
  store_loop mem addr value zero off = mem
  store_loop mem addr value (suc left) off =
      store_loop (update mem (address addr off) (extract b value (off * 8) 8)) addr value left
        (off + 1)

  abbrev pub widened : ConcolicValue b → ℕ → ConcolicValue b
  widened value bytesize =
      if ltb (get_width b value) (bytesize * 8) then zext b value (bytesize * 8) else value

  pub store : Memory b → ℕ → ConcolicValue b → ℕ → Memory b
  store mem addr value bytesize = store_loop mem addr (widened value bytesize) bytesize 0

  -- The overloads on a concolic address go by its concrete part; `none` is the failed assertion of
  -- `getValue`.
  pub load_at : Memory b → ConcolicValue b → ℕ → Option (Option (ConcolicValue b))
  load_at mem addr bytesize = elim (get_value b addr) [
    | none ↦ none
    | some base ↦ some (load mem base bytesize)
  ]

  pub store_at : Memory b → ConcolicValue b → ConcolicValue b → ℕ → Option (Memory b)
  store_at mem addr value bytesize = elim (get_value b addr) [
    | none ↦ none
    | some base ↦ some (store mem base value bytesize)
  ]
