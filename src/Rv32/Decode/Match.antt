-- ===== src/Rv32/Decode/Match.antt =====
-- How the decoder of vp/src/core/common/instr.cpp compares a word with the constants of an instruction.
use coverage_vp.Base.{ℕ, bit_and, Bool, true, false, ◌==◌, if◌then◌else◌}
use coverage_vp.Rv32.Instr.Pattern.{Mapping, Pattern, pattern}

pub data Architecture : Type 0 where
  rv32 rv64 rv128 : Architecture

abbrev pub is_rv32 : Architecture → Bool
is_rv32 Architecture.rv32 = true
is_rv32 Architecture.rv64 = false
is_rv32 Architecture.rv128 = false

-- `MATCH_AND_RETURN_INSTR2`.
unfoldable pub match_and_return_instr2 : ℕ → Pattern → Mapping → Mapping
match_and_return_instr2 w p result =
    if bit_and w p.mask == p.encoding then result else Mapping.undef

-- `MATCH_AND_RETURN_INSTR`.
unfoldable pub match_and_return_instr : ℕ → Mapping → Mapping
match_and_return_instr w m = match_and_return_instr2 w (pattern m) m
