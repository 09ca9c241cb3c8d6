-- ===== src/Rv32/Decode/Decoded.antt =====
-- What the decoder of vp/src/core/common/instr.cpp returns for each word.
use coverage_vp.Base.{ℕ, ◌≡◌, ◌≢◌, ◌↔◌, subst}
use coverage_vp.Rv32.Instr.Pattern.{Mapping}
use coverage_vp.Rv32.Decode.Match.{Architecture}
use coverage_vp.Rv32.Decode.Normal.{decode_normal}
use coverage_vp.Rv32.Decode.Fits.{Fits, Sound, decode_normal-Sound, Sound-Fits}
use coverage_vp.Rv32.Decode.Complete.{complete}

-- On each architecture, a word decodes to an instruction if and only if its bits under the mask of
-- that instruction are those of the instruction's encoding, for all 161 instructions. The constant
-- shifts have on RV32 masks of their own.
pub decode_normal_iff :
    (arch : Architecture) (w : ℕ) (m : Mapping)
    → m ≢ Mapping.undef
    → (decode_normal arch w ≡ m) ↔ Fits arch w m
decode_normal_iff arch w m h = (
  (λ e. Sound-Fits arch w m (subst (Sound arch w) e (decode_normal-Sound arch w)) h),
  complete arch w m,
)
