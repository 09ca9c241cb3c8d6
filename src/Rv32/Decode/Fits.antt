-- ===== src/Rv32/Decode/Fits.antt =====
-- The words that the patterns of vp/src/core/common/instr.cpp give to an instruction, and the decoder.
use coverage_vp.Base.{
  ℕ, ◌≡◌, ◌≢◌, ◌≢◌, ◌≢◌, ◌≢◌, ◌≢◌, inl, inr, refl, bit_and, Bool, true, false, ◌==◌, if◌then◌else◌,
  ==_iff, Bool-cases,
}
use coverage_vp.Rv32.Instr.Pattern.{
  Mapping, Pattern, pattern, slli_32_pattern, srli_32_pattern, srai_32_pattern,
}
use coverage_vp.Rv32.Decode.Match.{
  Architecture, is_rv32, match_and_return_instr, match_and_return_instr2,
}
use coverage_vp.Rv32.Decode.Integer.{
  decode_branch, decode_load, decode_store, decode_imm, decode_arithmetic, decode_fence,
}
use coverage_vp.Rv32.Decode.Wide.{decode_imm_w, decode_arithmetic_w}
use coverage_vp.Rv32.Decode.System.{decode_system, decode_amo}
use coverage_vp.Rv32.Decode.Float.{
  decode_fmadd, decode_float, decode_float_load, decode_float_store, decode_fmsub, decode_fnmsub,
  decode_fnmadd,
}
use coverage_vp.Rv32.Decode.Normal.{decode_normal}

-- The pattern of an instruction: the shifts by a constant have other ones on RV32.
unfoldable pub pattern_on : Architecture → Mapping → Pattern
pattern_on arch Mapping.slli = if is_rv32 arch then slli_32_pattern else pattern Mapping.slli
pattern_on arch Mapping.srli = if is_rv32 arch then srli_32_pattern else pattern Mapping.srli
pattern_on arch Mapping.srai = if is_rv32 arch then srai_32_pattern else pattern Mapping.srai
pattern_on arch m = pattern m

pub record Fits (arch : Architecture) (w : ℕ) (m : Mapping) : Type 0 where
  pub bits : bit_and w (pattern_on arch m).mask ≡ (pattern_on arch m).encoding

module _ (arch : Architecture) (w : ℕ) where
  -- The word decodes to no instruction, or to one whose pattern it fits.
  pub data Sound : Mapping → Type 0 where
    no_instruction : Sound Mapping.undef
    fits : {m : Mapping} → Fits arch w m → Sound m

  if-Sound : (b : Bool) (x y : Mapping) → Sound x → Sound y → Sound (if b then x else y)
  if-Sound true x y p q = p
  if-Sound false x y p q = q

  match2-Sound :
      (p : Pattern) (m : Mapping) → pattern_on arch m ≡ p → Sound (match_and_return_instr2 w p m)
  unfolding match_and_return_instr2
  match2-Sound p m e = elim (Bool-cases (bit_and w p.mask == p.encoding)) [
    | inl t ↦ rw t (fits (record { bits = rw e ((==_iff (bit_and w p.mask) p.encoding).0 t) }))
    | inr f ↦ rw f no_instruction
  ]

  match-Sound : (m : Mapping) → pattern_on arch m ≡ pattern m → Sound (match_and_return_instr w m)
  unfolding match_and_return_instr
  match-Sound m e = match2-Sound (pattern m) m e

  branch-Sound : Sound (decode_branch w)
  unfolding decode_branch pattern_on
  branch-Sound = search (if-Sound, match-Sound, no_instruction) depth 60 fits 4000

  load-Sound : Sound (decode_load w)
  unfolding decode_load pattern_on
  load-Sound = search (if-Sound, match-Sound, no_instruction) depth 60 fits 4000

  store-Sound : Sound (decode_store w)
  unfolding decode_store pattern_on
  store-Sound = search (if-Sound, match-Sound, no_instruction) depth 60 fits 4000

  imm_w-Sound : Sound (decode_imm_w w)
  unfolding decode_imm_w pattern_on
  imm_w-Sound = search (if-Sound, match-Sound, no_instruction) depth 60 fits 4000

  arithmetic-Sound : Sound (decode_arithmetic w)
  unfolding decode_arithmetic pattern_on
  arithmetic-Sound = search (if-Sound, match-Sound, no_instruction) depth 60 fits 4000

  arithmetic_w-Sound : Sound (decode_arithmetic_w w)
  unfolding decode_arithmetic_w pattern_on
  arithmetic_w-Sound = search (if-Sound, match-Sound, no_instruction) depth 60 fits 4000

  fence-Sound : Sound (decode_fence w)
  unfolding decode_fence pattern_on
  fence-Sound = search (if-Sound, match-Sound, no_instruction) depth 60 fits 4000

  system-Sound : Sound (decode_system w)
  unfolding decode_system pattern_on
  system-Sound = search (if-Sound, match-Sound, no_instruction) depth 60 fits 4000

  amo-Sound : Sound (decode_amo w)
  unfolding decode_amo pattern_on
  amo-Sound = search (if-Sound, match-Sound, no_instruction) depth 60 fits 4000

  fmadd-Sound : Sound (decode_fmadd w)
  unfolding decode_fmadd pattern_on
  fmadd-Sound = search (if-Sound, match-Sound, no_instruction) depth 60 fits 4000

  float-Sound : Sound (decode_float w)
  unfolding decode_float pattern_on
  float-Sound = search (if-Sound, match-Sound, no_instruction) depth 60 fits 4000

  float_load-Sound : Sound (decode_float_load w)
  unfolding decode_float_load pattern_on
  float_load-Sound = search (if-Sound, match-Sound, no_instruction) depth 60 fits 4000

  float_store-Sound : Sound (decode_float_store w)
  unfolding decode_float_store pattern_on
  float_store-Sound = search (if-Sound, match-Sound, no_instruction) depth 60 fits 4000

  fmsub-Sound : Sound (decode_fmsub w)
  unfolding decode_fmsub pattern_on
  fmsub-Sound = search (if-Sound, match-Sound, no_instruction) depth 60 fits 4000

  fnmsub-Sound : Sound (decode_fnmsub w)
  unfolding decode_fnmsub pattern_on
  fnmsub-Sound = search (if-Sound, match-Sound, no_instruction) depth 60 fits 4000

  fnmadd-Sound : Sound (decode_fnmadd w)
  unfolding decode_fnmadd pattern_on
  fnmadd-Sound = search (if-Sound, match-Sound, no_instruction) depth 60 fits 4000

imm-Sound : (arch : Architecture) (w : ℕ) → Sound arch w (decode_imm arch w)
unfolding decode_imm pattern_on
imm-Sound Architecture.rv32 w =
    search
      (
        if-Sound Architecture.rv32 w,
        match-Sound Architecture.rv32 w,
        match2-Sound Architecture.rv32 w,
        no_instruction,
      )
      depth 60 fits 4000
imm-Sound Architecture.rv64 w =
    search (if-Sound Architecture.rv64 w, match-Sound Architecture.rv64 w, no_instruction) depth 60
      fits 4000
imm-Sound Architecture.rv128 w =
    search (if-Sound Architecture.rv128 w, match-Sound Architecture.rv128 w, no_instruction) depth
      60 fits 4000

pub decode_normal-Sound : (arch : Architecture) (w : ℕ) → Sound arch w (decode_normal arch w)
unfolding decode_normal pattern_on
decode_normal-Sound arch w =
    search
      (
        if-Sound arch w,
        match-Sound arch w,
        no_instruction,
        imm-Sound arch w,
        branch-Sound arch w,
        load-Sound arch w,
        store-Sound arch w,
        imm_w-Sound arch w,
        arithmetic-Sound arch w,
        arithmetic_w-Sound arch w,
        fence-Sound arch w,
        system-Sound arch w,
        amo-Sound arch w,
        fmadd-Sound arch w,
        float-Sound arch w,
        float_load-Sound arch w,
        float_store-Sound arch w,
        fmsub-Sound arch w,
        fnmsub-Sound arch w,
        fnmadd-Sound arch w,
      )
      depth 60 fits 4000

-- The last step, with the result named.
pub Sound-Fits :
    (arch : Architecture) (w : ℕ) (m : Mapping) → Sound arch w m → m ≢ Mapping.undef → Fits arch w m
Sound-Fits arch w m no_instruction h = absurd (h refl)
Sound-Fits arch w m (fits e) h = e
