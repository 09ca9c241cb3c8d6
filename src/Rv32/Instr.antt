-- ===== src/Rv32/Instr.antt =====
-- `Instruction` of vp/src/core/common/instr.h: the fields and the immediates of an instruction word. A
-- word is the number of its 32 bits; `>>` of the `int32_t` shifts copies of the sign bit in.
pub mod Pattern
pub mod Immediate
pub mod Registers
pub mod Format
use coverage_vp.Base.{ℕ, ◌+◌, ◌-◌, ◌*◌, ◌/◌, ◌%◌, ◌^◌, bit_and, bit_or, Bool, ltb, if◌then◌else◌}
use coverage_vp.Rv32.Word.{u32, is_set, nonzero}

-- `>>` of an `int32_t`.
abbrev pub shift_right : ℕ → ℕ → ℕ
shift_right w n = if is_set w 31 then w / 2 ^ n + (2 ^ 32 - 2 ^ (32 - n)) else w / 2 ^ n

-- `BIT_RANGE`.
abbrev pub bit_range : ℕ → ℕ → ℕ → ℕ
bit_range w upper lower = bit_and w ((2 ^ (upper - lower + 1) - 1) * 2 ^ lower)

-- `BIT_SLICE`.
abbrev pub bit_slice : ℕ → ℕ → ℕ → ℕ
bit_slice w upper lower = shift_right (bit_range w upper lower) lower

-- `BIT_SINGLE`.
abbrev pub bit_single : ℕ → ℕ → ℕ
bit_single w pos = bit_and w (2 ^ pos)

unfoldable pub quadrant : ℕ → ℕ
quadrant w = bit_and w 3

unfoldable pub is_compressed : ℕ → Bool
is_compressed w = ltb (quadrant w) 3

unfoldable pub csr : ℕ → ℕ
csr w = bit_range w 31 20 / 2 ^ 20

unfoldable pub zimm : ℕ → ℕ
zimm w = bit_slice w 19 15

unfoldable pub shamt : ℕ → ℕ
shamt w = bit_slice w 25 20

unfoldable pub shamt_w : ℕ → ℕ
shamt_w w = bit_slice w 24 20

unfoldable pub funct2 : ℕ → ℕ
funct2 w = bit_slice w 26 25

unfoldable pub funct3 : ℕ → ℕ
funct3 w = bit_slice w 14 12

unfoldable pub funct12 : ℕ → ℕ
funct12 w = bit_range w 31 20 / 2 ^ 20

unfoldable pub funct7 : ℕ → ℕ
funct7 w = bit_range w 31 25 / 2 ^ 25

unfoldable pub funct6 : ℕ → ℕ
funct6 w = bit_range w 31 26 / 2 ^ 26

unfoldable pub funct5 : ℕ → ℕ
funct5 w = bit_range w 31 27 / 2 ^ 27

unfoldable pub frm : ℕ → ℕ
frm w = bit_slice w 14 12

unfoldable pub fence_succ : ℕ → ℕ
fence_succ w = bit_slice w 23 20

unfoldable pub fence_pred : ℕ → ℕ
fence_pred w = bit_slice w 27 24

unfoldable pub fence_fm : ℕ → ℕ
fence_fm w = bit_slice w 31 28

unfoldable pub aq : ℕ → Bool
aq w = nonzero (bit_single w 26)

unfoldable pub rl : ℕ → Bool
rl w = nonzero (bit_single w 25)

unfoldable pub opcode : ℕ → ℕ
opcode w = bit_range w 6 0

unfoldable pub j_imm : ℕ → ℕ
j_imm w =
    bit_or
      (bit_or (bit_or (shift_right (bit_single w 31) 11) (bit_range w 19 12))
        (shift_right (bit_single w 20) 9))
      (shift_right (bit_range w 30 21) 20)

unfoldable pub i_imm : ℕ → ℕ
i_imm w = bit_slice w 31 20

unfoldable pub s_imm : ℕ → ℕ
s_imm w = bit_or (shift_right (bit_range w 31 25) 20) (shift_right (bit_range w 11 7) 7)

unfoldable pub b_imm : ℕ → ℕ
b_imm w =
    bit_or
      (bit_or (bit_or (shift_right (bit_single w 31) 19) (u32 (bit_single w 7 * 2 ^ 4)))
        (shift_right (bit_range w 30 25) 20))
      (shift_right (bit_range w 11 8) 7)

unfoldable pub u_imm : ℕ → ℕ
u_imm w = bit_range w 31 12

unfoldable pub rs1 : ℕ → ℕ
rs1 w = bit_slice w 19 15

unfoldable pub rs2 : ℕ → ℕ
rs2 w = bit_slice w 24 20

unfoldable pub rs3 : ℕ → ℕ
rs3 w = bit_range w 31 27 / 2 ^ 27

unfoldable pub rd : ℕ → ℕ
rd w = bit_slice w 11 7
