-- ===== src/Rv32/Exec/Isa.antt =====
-- The computational instructions of the RV32I base, as the RISC-V manual defines them on plain words:
-- the description that vp/src/core/rv32/iss.cpp is compared with.
use Prim.Native.Nat.{bit_xor}
use coverage_vp.Base.{
  ℕ, ◌+◌, ◌-◌, ◌*◌, ◌/◌, ◌%◌, ◌^◌, bit_and, bit_or, Bool, true, false, ltb, not, if◌then◌else◌,
  Option, none, some,
}
use coverage_vp.Rv32.Word.{u32, field}
use coverage_vp.Rv32.Instr.Immediate.{sext}
use coverage_vp.Rv32.Instr.Pattern.{Mapping}

abbrev pub flag : Bool → ℕ
flag true = 1
flag false = 0

abbrev pub negative : ℕ → Bool
negative x = not (ltb x (2 ^ 31))

-- The order of the numbers that words stand for in two's complement.
abbrev pub signed_less : ℕ → ℕ → Bool
signed_less x y =
    if negative x
    then (if negative y then ltb x y else true)
    else if negative y
    then false
    else ltb x y

-- Copies of the sign bit are shifted in.
abbrev pub shift_arithmetic : ℕ → ℕ → ℕ
shift_arithmetic x s = if negative x then 2 ^ 32 - 1 - (2 ^ 32 - 1 - x) / 2 ^ s else x / 2 ^ s

-- From the instruction's address, its word, and the registers' contents: what it puts in its
-- destination.
unfoldable pub isa : Mapping → ℕ → ℕ → (ℕ → ℕ) → Option ℕ
isa Mapping.addi w pc x = some (u32 (x (field w 15 5) + sext 12 (field w 20 12)))
isa Mapping.slti w pc x = some (flag (signed_less (x (field w 15 5)) (sext 12 (field w 20 12))))
isa Mapping.sltiu w pc x = some (flag (ltb (x (field w 15 5)) (sext 12 (field w 20 12))))
isa Mapping.xori w pc x = some (u32 (bit_xor (x (field w 15 5)) (sext 12 (field w 20 12))))
isa Mapping.ori w pc x = some (u32 (bit_or (x (field w 15 5)) (sext 12 (field w 20 12))))
isa Mapping.andi w pc x = some (u32 (bit_and (x (field w 15 5)) (sext 12 (field w 20 12))))
isa Mapping.add w pc x = some (u32 (x (field w 15 5) + x (field w 20 5)))
isa Mapping.sub w pc x = some (u32 (x (field w 15 5) + 2 ^ 32 - x (field w 20 5)))
isa Mapping.sll w pc x = some (u32 (x (field w 15 5) * 2 ^ (x (field w 20 5) % 32)))
isa Mapping.slt w pc x = some (flag (signed_less (x (field w 15 5)) (x (field w 20 5))))
isa Mapping.sltu w pc x = some (flag (ltb (x (field w 15 5)) (x (field w 20 5))))
isa Mapping.srl w pc x = some (u32 (x (field w 15 5) / 2 ^ (x (field w 20 5) % 32)))
isa Mapping.sra w pc x = some (u32 (shift_arithmetic (x (field w 15 5)) (x (field w 20 5) % 32)))
isa Mapping.xor w pc x = some (u32 (bit_xor (x (field w 15 5)) (x (field w 20 5))))
isa Mapping.or w pc x = some (u32 (bit_or (x (field w 15 5)) (x (field w 20 5))))
isa Mapping.and w pc x = some (u32 (bit_and (x (field w 15 5)) (x (field w 20 5))))
isa Mapping.slli w pc x = some (u32 (x (field w 15 5) * 2 ^ field w 20 5))
isa Mapping.srli w pc x = some (u32 (x (field w 15 5) / 2 ^ field w 20 5))
isa Mapping.srai w pc x = some (u32 (shift_arithmetic (x (field w 15 5)) (field w 20 5)))
isa Mapping.lui w pc x = some (field w 12 20 * 2 ^ 12)
isa Mapping.auipc w pc x = some (u32 (pc + field w 12 20 * 2 ^ 12))
isa m w pc x = none
