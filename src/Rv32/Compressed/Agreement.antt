-- ===== src/Rv32/Compressed/Agreement.antt =====
-- Compressed instructions and the words that replace them (vp/src/core/common/instr.cpp): whether the
-- decoder reads the new word as the mapping that came with it.
use coverage_vp.Base.{
  arith, ap, ℕ, ◌≡◌, ◌≢◌, refl, sym, subst, Option, none, some, Bool, true, false, ◌==◌,
  if◌then◌else◌,
}
use coverage_vp.Rv32.Instr.{quadrant}
use coverage_vp.Rv32.Instr.Pattern.{Mapping, pattern}
use coverage_vp.Rv32.Decode.Match.{Architecture}
use coverage_vp.Rv32.Decode.Normal.{decode_normal}
use coverage_vp.Rv32.Decode.Fits.{pattern_on}
use coverage_vp.Rv32.Decode.Complete.{complete}
use coverage_vp.Rv32.Compressed.Fields.{c_rd, c_imm}
use coverage_vp.Rv32.Compressed.Factory.{make_addi}
use coverage_vp.Rv32.Compressed.Decode.{
  Opcode, c_addiw, quadrant_zero, small_arithmetic, quadrant_one, quadrant_two, decode_compressed,
}
use coverage_vp.Rv32.Compressed.Expand.{expand_compressed, decode_and_expand_compressed}
use coverage_vp.Rv32.Compressed.Words.{i_format-Fits}
use coverage_vp.Rv32.Compressed.Expanded.{Agrees, no_word, agrees, expanded}

-- Not C.ADDIW.
record Other (op : Opcode) : Type 0 where
  distinct : op ≢ c_addiw

if-Other : (t : Bool) (x y : Opcode) → Other x → Other y → Other (if t then x else y)
if-Other true x y p q = p
if-Other false x y p q = q

abbrev Named : Opcode → Type 0
Named c_addiw = ⊥
Named op = Unit {0}

named : (op : Opcode) → Named op → Other op
named op h = record { distinct = λ e. subst Named e h }

quadrant_zero-Other : (w : ℕ) → Other (quadrant_zero Architecture.rv32 w)
unfolding quadrant_zero
quadrant_zero-Other w = search (if-Other, named, tt) depth 60 fits 4000

small_arithmetic-Other : (w : ℕ) → Other (small_arithmetic w)
unfolding small_arithmetic
small_arithmetic-Other w = search (if-Other, named, tt) depth 60 fits 4000

quadrant_one-Other : (w : ℕ) → Other (quadrant_one Architecture.rv32 w)
unfolding quadrant_one
quadrant_one-Other w = search (if-Other, small_arithmetic-Other, named, tt) depth 60 fits 4000

quadrant_two-Other : (w : ℕ) → Other (quadrant_two Architecture.rv32 w)
unfolding quadrant_two
quadrant_two-Other w = search (if-Other, named, tt) depth 60 fits 4000

-- What the decoder returns, where it returns anything.
abbrev AllOther : Option Opcode → Type 0
AllOther none = Unit {0}
AllOther (some op) = Other op

if-AllOther :
    (t : Bool) (x y : Option Opcode) → AllOther x → AllOther y → AllOther (if t then x else y)
if-AllOther true x y p q = p
if-AllOther false x y p q = q

illegal-Other : Other Opcode.c_illegal
illegal-Other = named Opcode.c_illegal tt

decode_compressed-AllOther : (w : ℕ) → AllOther (decode_compressed Architecture.rv32 w)
unfolding decode_compressed
decode_compressed-AllOther w = if-AllOther (quadrant w == 0) _ _ (quadrant_zero-Other w) (
    if-AllOther (quadrant w == 1) _ _ (quadrant_one-Other w) (
      if-AllOther (quadrant w == 2) _ _ (quadrant_two-Other w)
        (if-AllOther (quadrant w == 3) none _ tt illegal-Other)))

module _ (w v : ℕ) (m : Mapping) where
  Agrees-decode_normal :
      (x : Mapping × ℕ)
      → Agrees Architecture.rv32 x
      → x ≡ (m, v)
      → m ≢ Mapping.undef
      → decode_normal Architecture.rv32 v ≡ m
  Agrees-decode_normal x no_word e n = absurd (n (sym (ap (λ p. p.0) e)))
  Agrees-decode_normal x (agrees {m = k} {w = u} f) e n =
      let word : u ≡ v = ap (λ p. p.1) e in
      let mapping : k ≡ m = ap (λ p. p.0) e in
      rw (sym word, sym mapping) (complete Architecture.rv32 u k f)

  expansion :
      (o : Option Opcode)
      → AllOther o
      → elim o [ none ↦ none | some op ↦ some (expand_compressed op Architecture.rv32 w) ]
        ≡ some (m, v)
      → m ≢ Mapping.undef
      → decode_normal Architecture.rv32 v ≡ m
  expansion none a e = absurd cc
  expansion (some op) a e =
      let x = expand_compressed op Architecture.rv32 w in
      let same : x ≡ (m, v) = cc in
      Agrees-decode_normal x (expanded Architecture.rv32 w op a.distinct) same

  -- On RV32, the word that replaces a compressed instruction decodes to the instruction that the
  -- expansion names, unless that is no instruction.
  pub decode_and_expand_compressed-decode_normal :
      decode_and_expand_compressed Architecture.rv32 w ≡ some (m, v)
      → m ≢ Mapping.undef
      → decode_normal Architecture.rv32 v ≡ m
  unfolding decode_and_expand_compressed
  decode_and_expand_compressed-decode_normal e n =
      expansion (decode_compressed Architecture.rv32 w) (decode_compressed-AllOther w) e n

equality_false : (n : ℕ) → n ≢ 0 → (n == 0) ≡ false
equality_false n h = ground arith

-- On the other architectures C.ADDIW with a destination is expanded to the mapping ADDIW, but to a word
-- that decodes to ADDI.
pub c_addiw-decode_normal :
    (arch : Architecture) (w : ℕ)
    → decode_compressed arch w ≡ some c_addiw
    → c_rd w ≢ 0
    → (v : ℕ) × (decode_and_expand_compressed arch w ≡ some (Mapping.addiw, v))
      × (decode_normal arch v ≡ Mapping.addi)
unfolding decode_and_expand_compressed expand_compressed make_addi pattern_on pattern
c_addiw-decode_normal arch w e n =
    let word = make_addi (c_rd w) (c_rd w) (c_imm w) in
    let fits =
      i_format-Fits arch Mapping.addi 19 0 (c_rd w) (c_rd w) (c_imm w) refl refl refl refl in
    (
      word,
      rw (decode_and_expand_compressed, e, equality_false (c_rd w) n) refl,
      complete arch word Mapping.addi fits,
    )
