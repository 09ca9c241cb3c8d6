-- ===== src/Rv32/Access/Legal.antt =====
-- Which fields every CSR write keeps within their legal values (`set_csr_value` of vp/src/core/rv32/iss.cpp), and what it does not.
use coverage_vp.Base.{
  ℕ, ◌/◌, ◌%◌, ◌^◌, ◌<◌, ◌≡◌, ◌≢◌, refl, sym, false, ◌==◌, ◌⊎◌, none, some, arith, inl, inr, subst,
}
use coverage_vp.Base.Bits.{masked, masked-lt, masked_bit, masked_below, masked_bit_written}
use coverage_vp.Rv32.Word.{field}
use coverage_vp.Rv32.Csr.{
  CsrTable, csr_table, Register, read_register, write_register, register_mapping, mie_reg, misa_reg,
  sedeleg_reg, mtvec_reg, stvec_reg, utvec_reg,
}
use coverage_vp.Rv32.Csr.Registers.{InBounds, read-write_self, read-write_ne}
use coverage_vp.Rv32.Hart.{Hart, ok, machine_mode}
use coverage_vp.Rv32.Trap.{return_from_trap_handler}
use coverage_vp.Rv32.Trap.Pending.{Known}
use coverage_vp.Rv32.Access.{
  write_mask, set_csr_value, write_masked, mie_mask, sie_mask, uie_mask, mtvec_mask, sedeleg_mask,
  mstatus_mask, is_hpmcounter,
}
use coverage_vp.Rv32.Access.Masked.{Leaves, set_csr_value-Leaves, write_mask_fits}
use coverage_vp.Rv32.Access.Levels.{Register-discrete}

-- Five registers keep to what their masks allow: only known interrupts are enabled, no vector mode is a
-- reserved one, and an environment call from supervisor mode is not delegated to user mode. Nothing is said
-- of the other registers; `mpp` of `mstatus` can hold its reserved value.
pub record IsRestricted (c : CsrTable) : Type 0 where
  pub known : Known c.mie
  pub machine_vector : c.mtvec / 2 % 2 ≡ 0
  pub supervisor_vector : c.stvec / 2 % 2 ≡ 0
  pub user_vector : c.utvec / 2 % 2 ≡ 0
  pub own_ecall : c.sedeleg / 2 ^ 9 % 2 ≡ 0

pub csr_table-IsRestricted : IsRestricted csr_table
unfolding csr_table
csr_table-IsRestricted = record {
  known = omega arith;
  machine_vector = refl;
  supervisor_vector = refl;
  user_vector = refl;
  own_ecall = refl;
}

-- The masks that a write to one of these registers goes through.
abbrev LegalTarget : Register → ℕ → Type 0
LegalTarget mie_reg m = (m ≡ mie_mask) ⊎ (m ≡ sie_mask) ⊎ (m ≡ uie_mask)
LegalTarget mtvec_reg m = m ≡ mtvec_mask
LegalTarget stvec_reg m = m ≡ mtvec_mask
LegalTarget utvec_reg m = m ≡ mtvec_mask
LegalTarget sedeleg_reg m = m ≡ sedeleg_mask
LegalTarget misa_reg m = ⊥
LegalTarget _ m = Unit {0}

write_mask-LegalTarget :
    (c : CsrTable) (addr : ℕ) (r : Register) (m : ℕ)
    → write_mask c addr ≡ some (r, m)
    → LegalTarget r m
unfolding write_mask
write_mask-LegalTarget c addr r m h = ground arith

abbrev IsPlain : Register → Type 0
IsPlain r =
    (r ≢ mie_reg)
    × (r ≢ mtvec_reg)
    × (r ≢ stvec_reg)
    × (r ≢ utvec_reg)
    × (r ≢ sedeleg_reg)
    × (r ≢ misa_reg)

register_mapping-IsPlain :
    (c : CsrTable) (addr : ℕ) (r : Register)
    → write_mask c addr ≡ none
    → (addr == 0x301) ≡ false
    → register_mapping addr ≡ some r
    → IsPlain r
unfolding write_mask register_mapping
register_mapping-IsPlain c addr r n i h = ground arith

-- A property of one register's word under a masked write to any.
keeps :
    (Q : ℕ → Type 0) (c : CsrTable) (r s : Register) (m v : ℕ)
    → m < 2 ^ 32
    → InBounds c r
    → LegalTarget r m
    → Q (read_register c s)
    → ((x : ℕ) → LegalTarget s m → Q x → Q (masked 32 m x v))
    → Q (read_register (write_masked c r m v) s)
keeps Q c r s m v l b t q new =
    let small = masked-lt 32 m (read_register c r) v l in
    elim (Register-discrete r s) [
      | yes e ↦
          subst (λ s. Q (read_register (write_masked c r m v) s)) e
            (rw (read-write_self c r (masked 32 m (read_register c r) v) small b) (
              new (read_register c r) (subst (λ r. LegalTarget r m) e t)
                (subst (λ s. Q (read_register c s)) (sym e) q)))
      | no n ↦ rw (read-write_ne c r s (masked 32 m (read_register c r) v) small n) q
    ]

enables_Known : (m x v : ℕ) → LegalTarget mie_reg m → Known x → Known (masked 32 m x v)
enables_Known m x v t k = (
  masked_below 12 32 m x v (below t) k.0,
  masked_bit 2 32 m x v (bit_2 t) k.1,
  masked_bit 6 32 m x v (bit_6 t) k.2,
  masked_bit 10 32 m x v (bit_10 t) k.3,
)
  where
    below : LegalTarget mie_reg m → m < 2 ^ 12
    below (inl e) = omega arith
    below (inr (inl e)) = omega arith
    below (inr (inr e)) = omega arith

    bit_2 : LegalTarget mie_reg m → m / 2 ^ 2 % 2 ≡ 0
    bit_2 (inl e) = omega arith
    bit_2 (inr (inl e)) = omega arith
    bit_2 (inr (inr e)) = omega arith

    bit_6 : LegalTarget mie_reg m → m / 2 ^ 6 % 2 ≡ 0
    bit_6 (inl e) = omega arith
    bit_6 (inr (inl e)) = omega arith
    bit_6 (inr (inr e)) = omega arith

    bit_10 : LegalTarget mie_reg m → m / 2 ^ 10 % 2 ≡ 0
    bit_10 (inl e) = omega arith
    bit_10 (inr (inl e)) = omega arith
    bit_10 (inr (inr e)) = omega arith

vector_legal : (m x v : ℕ) → m ≡ mtvec_mask → x / 2 ^ 1 % 2 ≡ 0 → masked 32 m x v / 2 ^ 1 % 2 ≡ 0
vector_legal m x v e h = masked_bit 1 32 m x v (omega arith) h

through-IsRestricted :
    (c : CsrTable) (r : Register) (m v : ℕ)
    → m < 2 ^ 32
    → InBounds c r
    → LegalTarget r m
    → IsRestricted c
    → IsRestricted (write_masked c r m v) × ((write_masked c r m v).misa ≡ c.misa)
unfolding read_register
through-IsRestricted c r m v l b t h = (
  record {
    known = keeps Known c r mie_reg m v l b t h.known (λ x t k. enables_Known m x v t k);
    machine_vector =
        keeps (λ n. n / 2 % 2 ≡ 0) c r mtvec_reg m v l b t h.machine_vector
          (λ x t q. vector_legal m x v t q);
    supervisor_vector =
        keeps (λ n. n / 2 % 2 ≡ 0) c r stvec_reg m v l b t h.supervisor_vector
          (λ x t q. vector_legal m x v t q);
    user_vector =
        keeps (λ n. n / 2 % 2 ≡ 0) c r utvec_reg m v l b t h.user_vector
          (λ x t q. vector_legal m x v t q);
    own_ecall =
        keeps (λ n. n / 2 ^ 9 % 2 ≡ 0) c r sedeleg_reg m v l b t h.own_ecall
          (λ x t q. masked_bit 9 32 m x v (omega arith) q);
  },
  keeps (λ n. n ≡ c.misa) c r misa_reg m v l b t refl (λ x t q. absurd t),
)

plain-IsRestricted :
    (c : CsrTable) (r : Register) (v : ℕ)
    → v < 2 ^ 32
    → IsPlain r
    → IsRestricted c
    → IsRestricted (write_register c r v) × ((write_register c r v).misa ≡ c.misa)
unfolding read_register
plain-IsRestricted c r v l (not_mie, not_mtvec, not_stvec, not_utvec, not_sedeleg, not_misa) h = (
  record {
    known = subst Known (sym (read-write_ne c r mie_reg v l not_mie)) h.known;
    machine_vector =
        subst (λ n. n / 2 % 2 ≡ 0) (sym (read-write_ne c r mtvec_reg v l not_mtvec))
          h.machine_vector;
    supervisor_vector =
        subst (λ n. n / 2 % 2 ≡ 0) (sym (read-write_ne c r stvec_reg v l not_stvec))
          h.supervisor_vector;
    user_vector =
        subst (λ n. n / 2 % 2 ≡ 0) (sym (read-write_ne c r utvec_reg v l not_utvec)) h.user_vector;
    own_ecall =
        subst (λ n. n / 2 ^ 9 % 2 ≡ 0) (sym (read-write_ne c r sedeleg_reg v l not_sedeleg))
          h.own_ecall;
  },
  read-write_ne c r misa_reg v l not_misa,
)

-- A CSR write of a 32-bit value keeps `mie` to the known interrupts, `mtvec`, `stvec` and `utvec` to the modes
-- that are not reserved, bit 9 of `sedeleg` at zero, and `misa` as it was; a trap leaves the hart as it was.
pub set_csr_value-IsRestricted :
    (word addr value : ℕ) (h : Hart)
    → value < 2 ^ 32
    → IsRestricted h.csrs
    → Leaves
        (λ t. IsRestricted t.csrs × (t.csrs.misa ≡ h.csrs.misa))
        h
        (set_csr_value word addr value h)
set_csr_value-IsRestricted word addr value h v legal =
    set_csr_value-Leaves (λ t. IsRestricted t.csrs × (t.csrs.misa ≡ h.csrs.misa)) word addr value h
      (legal, refl)
      (λ f. (
        record {
          known = legal.known;
          machine_vector = legal.machine_vector;
          supervisor_vector = legal.supervisor_vector;
          user_vector = legal.user_vector;
          own_ecall = legal.own_ecall;
        },
        refl,
      ))
      (λ r m s.
        let (small, inside) = write_mask_fits h.csrs addr r m s in
        through-IsRestricted h.csrs r m value small inside
          (write_mask-LegalTarget h.csrs addr r m s) legal)
      (λ r n i s.
        plain-IsRestricted h.csrs r value v (register_mapping-IsPlain h.csrs addr r n i s) legal)

mpp_written : (x v : ℕ) → field (masked 32 mstatus_mask x v) 11 2 ≡ field v 11 2
mpp_written x v = omega (
  arith,
  masked_bit_written 11 32 mstatus_mask x v refl refl,
  masked_bit_written 12 32 mstatus_mask x v refl refl,
)

-- `mret` after a write to `mstatus` enters the level that the write put into `mpp`, whatever number
-- it is: 2 too, which is no privilege level of the simulator.
pub mret_enters_mpp :
    (word value : ℕ) (h : Hart)
    → (t : Hart) × (set_csr_value word 0x300 value h ≡ ok tt t)
      × ((u : Hart) × (return_from_trap_handler machine_mode t ≡ some u)
          × (u.prv ≡ field value 11 2))
unfolding set_csr_value write_mask return_from_trap_handler read_register write_register
    is_hpmcounter
mret_enters_mpp word value h =
    let c = h.csrs in
    (
      record h { csrs = record c { mstatus = masked 32 mstatus_mask c.mstatus value } },
      refl,
      (_, refl, mpp_written c.mstatus value),
    )
