-- ===== src/Rv32/Access/Masked.antt =====
-- How `set_csr_value` (vp/src/core/rv32/iss.cpp) ends at each kind of address.
use coverage_vp.Base.{
  ℕ, ◌^◌, ◌<◌, ◌≡◌, refl, false, ◌&&◌, ◌||◌, ◌==◌, none, some, arith, if-elim, Option-cases, inl,
  inr,
}
use coverage_vp.Rv32.Word.{is_set, set_field}
use coverage_vp.Rv32.Csr.{CsrTable, Register, write_register, register_mapping, default_write32}
use coverage_vp.Rv32.Csr.Registers.{InBounds}
use coverage_vp.Rv32.Hart.{Hart, Outcome, ok, trap, thrown}
use coverage_vp.Rv32.Access.{
  write_mask, is_hpmcounter, is_debug_register, set_csr_value, write_masked, with_csrs,
}

pub write_mask_fits :
    (c : CsrTable) (addr : ℕ) (r : Register) (m : ℕ)
    → write_mask c addr ≡ some (r, m)
    → (m < 2 ^ 32) × InBounds c r
unfolding write_mask
write_mask_fits c addr r m h = ground arith

-- A predicate on the hart holds after a call that returns; a trap leaves the hart as it was.
abbrev pub Leaves : (Hart → Type 0) → Hart → Outcome Hart (Unit {0}) → Type 0
Leaves P h (ok _ t) = P t
Leaves P h (trap e t) = t ≡ h
Leaves P h thrown = ⊥

-- To show what every write leaves, it is enough to look at its four kinds.
module _ (P : Hart → Type 0) (word addr value : ℕ) (h : Hart) (kept : P h)
    (float : (f : ℕ) → P (record h { csrs = record (h.csrs) { fcsr = f } }))
    (through : (r : Register) (m : ℕ)
      → write_mask h.csrs addr ≡ some (r, m)
      → P (record h { csrs = write_masked h.csrs r m value }))
    (plain : (r : Register)
      → write_mask h.csrs addr ≡ none
      → (addr == 0x301) ≡ false
      → register_mapping addr ≡ some r
      → P (record h { csrs = write_register h.csrs r value })) where
  default-Leaves :
      write_mask h.csrs addr ≡ none
      → (addr == 0x301) ≡ false
      → Leaves P h (elim (default_write32 h.csrs addr value) [
        | none ↦ trap (record { reason = 2; mtval = word }) h
        | some c ↦ with_csrs h c
      ])
  unfolding default_write32
  default-Leaves n i = elim (Option-cases (register_mapping addr)) [
    | inl missing ↦ rw (missing, default_write32) refl
    | inr (r, there) ↦ rw (there, default_write32) (plain r n i there)
  ]

  pub set_csr_value-Leaves : Leaves P h (set_csr_value word addr value h)
  unfolding set_csr_value
  set_csr_value-Leaves =
      if-elim (Leaves P h) (addr == 0x301 || is_hpmcounter addr) _ _ (λ _. kept)
        λ e.
          if-elim (Leaves P h) (addr == 0x180 && is_set h.csrs.mstatus 20) _ _ (λ _. refl)
            λ _.
              if-elim (Leaves P h) (addr == 0x1) _ _ (λ _. float (set_field h.csrs.fcsr 0 5 value))
                λ _.
                  if-elim (Leaves P h) (addr == 0x2) _ _
                    (λ _. float (set_field h.csrs.fcsr 5 3 value))
                    λ _.
                      if-elim (Leaves P h) (addr == 0x7a0 || is_debug_register addr) _ _ (λ _. kept)
                        λ _. elim (Option-cases (write_mask h.csrs addr)) [
                          | inl n ↦ rw n (default-Leaves n (ground arith))
                          | inr ((r, m), s) ↦ rw s (through r m s)
                        ]
