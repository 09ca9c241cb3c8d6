-- ===== src/Rv32/Compressed/Expanded.antt =====
-- The word that `expand_compressed` of vp/src/core/common/instr.cpp puts in the place of a compressed
-- instruction, and the mapping that it returns with it.
use coverage_vp.Base.{
  arith, ℕ, ◌*◌, ◌/◌, ◌^◌, ◌%◌, ◌≤◌, ◌≡◌, ◌≢◌, refl, Bool, true, false, ltb, ◌&&◌, if◌then◌else◌,
  bit_and,
}
use coverage_vp.Base.Fields.{bit_and-bit_or, cleared}
use coverage_vp.Base.Ranges.{bit_and_range}
use coverage_vp.Rv32.Instr.Pattern.{Mapping, pattern}
use coverage_vp.Rv32.Decode.Match.{Architecture, is_rv32}
use coverage_vp.Rv32.Decode.Fits.{Fits, pattern_on}
use coverage_vp.Rv32.Compressed.Fields.{c_rd, c_rd_small, c_rs2_small, c_rs2, c_imm, c_uimm}
use coverage_vp.Rv32.Compressed.Offset.{
  c_addi4spn_nzuimm, c_lw_uimm, c_ld_uimm, c_sw_uimm, c_sd_uimm, c_jal_imm, c_addi16sp_nzimm,
  c_lui_nzimm, c_j_imm, c_branch_imm, c_lwsp_uimm, c_swsp_uimm, c_ldsp_uimm, c_sdsp_uimm,
}
use coverage_vp.Rv32.Compressed.Factory.{
  make_add, make_addi, make_addw, make_and, make_andi, make_beq, make_bne, make_ebreak, make_fld,
  make_flw, make_fsd, make_fsw, make_jalr, make_ld, make_lw, make_or, make_sd, make_slli, make_srai,
  make_srli, make_sub, make_subw, make_sw, make_xor,
}
use coverage_vp.Rv32.Compressed.Decode.{
  Opcode, c_illegal, c_lq, c_lqsp, c_sq, c_sqsp, c_reserved, c_nop, c_add, c_mv, c_and, c_or, c_xor,
  c_sub, c_addw, c_subw, c_lw, c_ld, c_flw, c_fld, c_sw, c_sd, c_fsw, c_fsd, c_addi4spn, c_addi,
  c_jal, c_addiw, c_li, c_addi16sp, c_lui, c_slli, c_srli, c_srai, c_andi, c_j, c_beqz, c_bnez,
  c_lwsp, c_ldsp, c_flwsp, c_fldsp, c_swsp, c_sdsp, c_fswsp, c_fsdsp, c_ebreak, c_jr, c_jalr,
}
use coverage_vp.Rv32.Compressed.Expand.{expand_compressed}
use coverage_vp.Rv32.Compressed.Words.{
  r_format-Fits, i_format-Fits, s_format-Fits, shift_format-Fits, b_format-Fits, make_lui-Fits,
  make_jal-Fits,
}

-- The mapping is no instruction, or the word fits its pattern.
pub data Agrees (arch : Architecture) : Mapping × ℕ → Type 0 where
  no_word : {w : ℕ} → Agrees arch (Mapping.undef, w)
  agrees : {m : Mapping} {w : ℕ} → Fits arch w m → Agrees arch (m, w)

module _ (arch : Architecture) where
  guarded :
      (w : ℕ) (t : Bool) (x : Mapping × ℕ)
      → (t ≡ false → Agrees arch x)
      → Agrees arch (if t then (Mapping.undef, w) else x)
  guarded w true x p = no_word
  guarded w false x p = p refl

  make_addw-Fits : (rd rs1 rs2 : ℕ) → Fits arch (make_addw rd rs1 rs2) Mapping.addw
  unfolding make_addw pattern_on pattern
  make_addw-Fits rd rs1 rs2 = record {
    bits = simp (
      bit_and-bit_or,
      cleared rd 0x1f 7 0xfe00707f refl,
      cleared rs1 0x1f 15 0xfe00707f refl,
      cleared rs2 0x1f 20 0xfe00707f refl,
    );
  }

  make_subw-Fits : (rd rs1 rs2 : ℕ) → Fits arch (make_subw rd rs1 rs2) Mapping.subw
  unfolding make_subw pattern_on pattern
  make_subw-Fits rd rs1 rs2 = record {
    bits = simp (
      bit_and-bit_or,
      cleared rd 0x1f 7 0xfe00707f refl,
      cleared rs1 0x1f 15 0xfe00707f refl,
      cleared rs2 0x1f 20 0xfe00707f refl,
    );
  }

  amount_of_six : (n : ℕ) → bit_and n 63 ≡ n % 64
  amount_of_six n =
      let e : bit_and n 63 ≡ n / 2 ^ 0 % 2 ^ 6 * 2 ^ 0 = bit_and_range 0 6 n in omega (arith, e)

  amount_of_five : (n : ℕ) → bit_and n 31 ≡ n % 32
  amount_of_five n =
      let e : bit_and n 31 ≡ n / 2 ^ 0 % 2 ^ 5 * 2 ^ 0 = bit_and_range 0 5 n in omega (arith, e)

  short_amount : (n : ℕ) → n ≤ 31 → bit_and n 63 ≡ bit_and n 31
  short_amount n h = rw (amount_of_six n, amount_of_five n) (omega arith)

-- A shift whose amount has passed the test for RV32.
abbrev Allowed : Architecture → ℕ → Type 0
Allowed arch n = (is_rv32 arch && ltb 31 n) ≡ false

slli-Fits :
    (arch : Architecture) (rd rs n : ℕ)
    → Allowed arch n
    → Fits arch (make_slli rd rs n) Mapping.slli
unfolding make_slli pattern_on pattern
slli-Fits Architecture.rv32 rd rs n h =
    shift_format-Fits Architecture.rv32 Mapping.slli 1 0 rd rs n 31
      (short_amount Architecture.rv32 n (ground arith)) refl refl refl refl
slli-Fits Architecture.rv64 rd rs n h =
    shift_format-Fits Architecture.rv64 Mapping.slli 1 0 rd rs n 63 refl refl refl refl refl
slli-Fits Architecture.rv128 rd rs n h =
    shift_format-Fits Architecture.rv128 Mapping.slli 1 0 rd rs n 63 refl refl refl refl refl

srli-Fits :
    (arch : Architecture) (rd rs n : ℕ)
    → Allowed arch n
    → Fits arch (make_srli rd rs n) Mapping.srli
unfolding make_srli pattern_on pattern
srli-Fits Architecture.rv32 rd rs n h =
    shift_format-Fits Architecture.rv32 Mapping.srli 5 0 rd rs n 31
      (short_amount Architecture.rv32 n (ground arith)) refl refl refl refl
srli-Fits Architecture.rv64 rd rs n h =
    shift_format-Fits Architecture.rv64 Mapping.srli 5 0 rd rs n 63 refl refl refl refl refl
srli-Fits Architecture.rv128 rd rs n h =
    shift_format-Fits Architecture.rv128 Mapping.srli 5 0 rd rs n 63 refl refl refl refl refl

srai-Fits :
    (arch : Architecture) (rd rs n : ℕ)
    → Allowed arch n
    → Fits arch (make_srai rd rs n) Mapping.srai
unfolding make_srai pattern_on pattern
srai-Fits Architecture.rv32 rd rs n h =
    shift_format-Fits Architecture.rv32 Mapping.srai 5 32 rd rs n 31
      (short_amount Architecture.rv32 n (ground arith)) refl refl refl refl
srai-Fits Architecture.rv64 rd rs n h =
    shift_format-Fits Architecture.rv64 Mapping.srai 5 32 rd rs n 63 refl refl refl refl refl
srai-Fits Architecture.rv128 rd rs n h =
    shift_format-Fits Architecture.rv128 Mapping.srai 5 32 rd rs n 63 refl refl refl refl refl

module _ (arch : Architecture) (w : ℕ) where
  pub expanded : (op : Opcode) → op ≢ c_addiw → Agrees arch (expand_compressed op arch w)
  unfolding expand_compressed pattern_on pattern make_add make_addi make_and make_andi make_beq
      make_bne make_ebreak make_fld make_flw make_fsd make_fsw make_jalr make_ld make_lw make_or
      make_sd make_sub make_sw make_xor
  expanded c_illegal n = no_word
  expanded c_lq n = no_word
  expanded c_lqsp n = no_word
  expanded c_sq n = no_word
  expanded c_sqsp n = no_word
  expanded c_reserved n = no_word
  expanded c_nop n = agrees (r_format-Fits arch Mapping.add 51 0 0 0 0 0 refl refl refl refl)
  expanded c_add n =
      agrees (r_format-Fits arch Mapping.add 51 0 0 (c_rd w) (c_rd w) (c_rs2 w) refl refl refl refl)
  expanded c_mv n =
      agrees (r_format-Fits arch Mapping.add 51 0 0 (c_rd w) 0 (c_rs2 w) refl refl refl refl)
  expanded c_and n = agrees (
      r_format-Fits arch Mapping.and 51 7 0 (c_rd_small w) (c_rd_small w) (c_rs2_small w) refl refl
        refl refl)
  expanded c_or n = agrees (
      r_format-Fits arch Mapping.or 51 6 0 (c_rd_small w) (c_rd_small w) (c_rs2_small w) refl refl
        refl refl)
  expanded c_xor n = agrees (
      r_format-Fits arch Mapping.xor 51 4 0 (c_rd_small w) (c_rd_small w) (c_rs2_small w) refl refl
        refl refl)
  expanded c_sub n = agrees (
      r_format-Fits arch Mapping.sub 51 0 32 (c_rd_small w) (c_rd_small w) (c_rs2_small w) refl refl
        refl refl)
  expanded c_addw n = agrees (make_addw-Fits arch (c_rd_small w) (c_rd_small w) (c_rs2_small w))
  expanded c_subw n = agrees (make_subw-Fits arch (c_rd_small w) (c_rd_small w) (c_rs2_small w))
  expanded c_lw n = agrees (
      i_format-Fits arch Mapping.lw 3 2 (c_rs2_small w) (c_rd_small w) (c_lw_uimm w) refl refl refl
        refl)
  expanded c_ld n = agrees (
      i_format-Fits arch Mapping.ld 3 3 (c_rs2_small w) (c_rd_small w) (c_ld_uimm w) refl refl refl
        refl)
  expanded c_flw n = agrees (
      i_format-Fits arch Mapping.flw 7 2 (c_rs2_small w) (c_rd_small w) (c_lw_uimm w) refl refl refl
        refl)
  expanded c_fld n = agrees (
      i_format-Fits arch Mapping.fld 7 3 (c_rs2_small w) (c_rd_small w) (c_ld_uimm w) refl refl refl
        refl)
  expanded c_sw n = agrees (
      s_format-Fits arch Mapping.sw 35 2 (c_rd_small w) (c_rs2_small w) (c_sw_uimm w) refl refl refl
        refl refl)
  expanded c_sd n = agrees (
      s_format-Fits arch Mapping.sd 35 3 (c_rd_small w) (c_rs2_small w) (c_sd_uimm w) refl refl refl
        refl refl)
  expanded c_fsw n = agrees (
      s_format-Fits arch Mapping.fsw 39 2 (c_rd_small w) (c_rs2_small w) (c_sw_uimm w) refl refl
        refl refl refl)
  expanded c_fsd n = agrees (
      s_format-Fits arch Mapping.fsd 39 3 (c_rd_small w) (c_rs2_small w) (c_sd_uimm w) refl refl
        refl refl refl)
  expanded c_addi4spn n = guarded arch w _ _ (λ t. agrees (
      i_format-Fits arch Mapping.addi 19 0 (c_rs2_small w) 2 (c_addi4spn_nzuimm w) refl refl refl
        refl))
  expanded c_addi n =
      agrees (i_format-Fits arch Mapping.addi 19 0 (c_rd w) (c_rd w) (c_imm w) refl refl refl refl)
  expanded c_jal n = agrees (make_jal-Fits arch 1 (c_jal_imm w))
  expanded c_addiw n = absurd (n refl)
  expanded c_li n =
      agrees (i_format-Fits arch Mapping.addi 19 0 (c_rd w) 0 (c_imm w) refl refl refl refl)
  expanded c_addi16sp n = guarded arch w _ _ (λ t.
      agrees (i_format-Fits arch Mapping.addi 19 0 2 2 (c_addi16sp_nzimm w) refl refl refl refl))
  expanded c_lui n = guarded arch w _ _ (λ t. agrees (make_lui-Fits arch (c_rd w) (c_lui_nzimm w)))
  expanded c_slli n =
      guarded arch w _ _ (λ t. agrees (slli-Fits arch (c_rd w) (c_rd w) (c_uimm w) t))
  expanded c_srli n =
      guarded arch w _ _ (λ t. agrees (srli-Fits arch (c_rd_small w) (c_rd_small w) (c_uimm w) t))
  expanded c_srai n =
      guarded arch w _ _ (λ t. agrees (srai-Fits arch (c_rd_small w) (c_rd_small w) (c_uimm w) t))
  expanded c_andi n = agrees (
      i_format-Fits arch Mapping.andi 19 7 (c_rd_small w) (c_rd_small w) (c_imm w) refl refl refl
        refl)
  expanded c_j n = agrees (make_jal-Fits arch 0 (c_j_imm w))
  expanded c_beqz n = agrees (
      b_format-Fits arch Mapping.beq 0 (c_rd_small w) 0 (c_branch_imm w) refl refl refl refl refl
        refl refl)
  expanded c_bnez n = agrees (
      b_format-Fits arch Mapping.bne 1 (c_rd_small w) 0 (c_branch_imm w) refl refl refl refl refl
        refl refl)
  expanded c_lwsp n = guarded arch w _ _ (λ t.
      agrees (i_format-Fits arch Mapping.lw 3 2 (c_rd w) 2 (c_lwsp_uimm w) refl refl refl refl))
  expanded c_ldsp n = guarded arch w _ _ (λ t.
      agrees (i_format-Fits arch Mapping.ld 3 3 (c_rd w) 2 (c_ldsp_uimm w) refl refl refl refl))
  expanded c_flwsp n =
      agrees (i_format-Fits arch Mapping.flw 7 2 (c_rd w) 2 (c_lwsp_uimm w) refl refl refl refl)
  expanded c_fldsp n =
      agrees (i_format-Fits arch Mapping.fld 7 3 (c_rd w) 2 (c_ldsp_uimm w) refl refl refl refl)
  expanded c_swsp n =
      agrees
        (s_format-Fits arch Mapping.sw 35 2 2 (c_rs2 w) (c_swsp_uimm w) refl refl refl refl refl)
  expanded c_sdsp n =
      agrees
        (s_format-Fits arch Mapping.sd 35 3 2 (c_rs2 w) (c_sdsp_uimm w) refl refl refl refl refl)
  expanded c_fswsp n =
      agrees
        (s_format-Fits arch Mapping.fsw 39 2 2 (c_rs2 w) (c_swsp_uimm w) refl refl refl refl refl)
  expanded c_fsdsp n =
      agrees
        (s_format-Fits arch Mapping.fsd 39 3 2 (c_rs2 w) (c_sdsp_uimm w) refl refl refl refl refl)
  expanded c_ebreak n = agrees (record { bits = refl })
  expanded c_jr n =
      guarded arch w _ _
        (λ t. agrees (i_format-Fits arch Mapping.jalr 103 0 0 (c_rd w) 0 refl refl refl refl))
  expanded c_jalr n =
      agrees (i_format-Fits arch Mapping.jalr 103 0 1 (c_rd w) 0 refl refl refl refl)
