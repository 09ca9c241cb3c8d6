-- ===== src/Rv32/RegFile.antt =====
-- `RegFile` of vp/src/core/rv32/iss.cpp: the registers x0 to x31, each a concolic word.
use coverage_vp.Base.{ℕ, ltb, leb, ◌==◌, if◌then◌else◌, Option, none, some}
use coverage_vp.Clover.Expr.{Builder}
use coverage_vp.Clover.Value.{ConcolicValue, IntValue, bvc, extract, zext, get_width}

module _ (b : Builder) where
  abbrev pub RegFile : Type 0
  RegFile = ℕ → ConcolicValue b

  abbrev pub with_register : RegFile → ℕ → ConcolicValue b → RegFile
  with_register regs index value i = if i == index then value else regs i

  unfoldable pub initial : RegFile
  initial i = bvc b none (IntValue.u32 0)

  -- `none` is the failed assertion on the index. The last branch is `assert("invalid register width")`,
  -- which never fails, so a wider value is dropped.
  unfoldable pub write : RegFile → ℕ → ConcolicValue b → Option RegFile
  write regs index value =
      if leb index 31
      then some (
          if ltb (get_width b value) 32
          then with_register regs index (zext b value 32)
          else if get_width b value == 32
          then with_register regs index value
          else regs)
      else none

  -- `none` is the exception `std::out_of_range`.
  unfoldable pub read : RegFile → ℕ → Option (ConcolicValue b)
  read regs index = if leb index 31 then some (regs index) else none

  -- The operand of a shift by a register, for an index that is one.
  unfoldable pub shift_amount : RegFile → ℕ → ConcolicValue b
  shift_amount regs index = zext b (extract b (regs index) 0 5) 32
