-- ===== src/Rv32/Access/Rights.antt =====
-- Who may read a counter, and what a read gives (`get_csr_value` of vp/src/core/rv32/iss.cpp).
use coverage_vp.Base.{
  ℕ, ◌%◌, ◌^◌, ◌≤◌, ◌≡◌, ◌↔◌, refl, sym, subst, ap, ◌∙◌, bit_and, Bool, true, false, not, ◌==◌, ◌⊎◌,
  if◌then◌else◌, none, some, arith, inl, inr, ◌&&◌, ◌||◌, if-elim, Option-cases,
}
use coverage_vp.Base.Bits.{masked, masked-lt, masked_written}
use coverage_vp.Rv32.Word.{is_set}
use coverage_vp.Rv32.Csr.{
  CsrTable, Register, read_register, register_mapping, default_read32, low_half,
}
use coverage_vp.Rv32.Csr.Registers.{read-write_self}
use coverage_vp.Rv32.Hart.{
  Hart, Outcome, ok, trap, thrown, machine_mode, supervisor_mode, user_mode,
  has_supervisor_mode_extension, has_user_mode_extension,
}
use coverage_vp.Rv32.Access.{
  is_invalid_csr_access, validate_csr_counter_read_access_rights, read_counter, read_other,
  read_mask, get_csr_value, set_csr_value, write_mask, write_masked, is_counter, is_hpmcounter,
  is_debug_register, read_default, read_switch, is_float_register, is_read_only, level_of,
  raise_illegal_instruction,
}
use coverage_vp.Rv32.Access.Masked.{write_mask_fits}

-- The access is within the hart's rights.
abbrev pub Allowed : ℕ → Bool → Hart → Type 0
Allowed addr is_write h =
    (level_of addr ≤ h.prv)
    × (is_write ≡ true → is_read_only addr ≡ false)
    × (level_of addr ≡ supervisor_mode → has_supervisor_mode_extension h.csrs ≡ true)
    × (level_of addr ≡ user_mode → has_user_mode_extension h.csrs ≡ true)

Allowed-ok :
    (word addr : ℕ) (w : Bool) (h : Hart)
    → (is_float_register addr && not (is_set h.csrs.misa 5)) ≡ false
    → Allowed addr w h
    → is_invalid_csr_access word addr w h ≡ ok false h
unfolding is_invalid_csr_access
Allowed-ok word addr w h f a = ground arith

ok-Allowed :
    (word addr : ℕ) (w : Bool) (h : Hart)
    → is_invalid_csr_access word addr w h ≡ ok false h
    → Allowed addr w h
unfolding is_invalid_csr_access
ok-Allowed word addr w h e = ground arith

-- The enable bits of a counter for a mode.
abbrev pub counter_enabled : ℕ → Hart → Bool
counter_enabled addr h =
    if h.prv == user_mode
    then is_set h.csrs.mcounteren (addr % 2 ^ 5) && is_set h.csrs.scounteren (addr % 2 ^ 5)
    else if h.prv == supervisor_mode
    then is_set h.csrs.mcounteren (addr % 2 ^ 5)
    else true

pub get_csr_value-disabled :
    (mtime word addr : ℕ) (h : Hart)
    → is_counter addr ≡ true
    → counter_enabled addr h ≡ false
    → get_csr_value mtime word addr h ≡ raise_illegal_instruction word h
unfolding get_csr_value validate_csr_counter_read_access_rights
get_csr_value-disabled mtime word addr h c e = ground arith

-- Where no floating point register of a hart without them is accessed, an access is found valid
-- exactly if it is within the rights: the level is high enough, no read-only register is written,
-- and the level's extension is there.
pub is_invalid_csr_access-Allowed :
    (word addr : ℕ) (w : Bool) (h : Hart)
    → (is_float_register addr && not (is_set h.csrs.misa 5)) ≡ false
    → (is_invalid_csr_access word addr w h ≡ ok false h) ↔ Allowed addr w h
is_invalid_csr_access-Allowed word addr w h f =
    (ok-Allowed word addr w h, Allowed-ok word addr w h f)

-- A read changes the shadows of the clocks at most; a trap is an illegal instruction, and leaves all.
abbrev pub ReadsOnly : Hart → Outcome Hart ℕ → Type 0
ReadsOnly h (ok v t) =
    t ≡ record h { csrs = record (h.csrs) { time = t.csrs.time; cycle = t.csrs.cycle } }
ReadsOnly h (trap e t) = (e.reason ≡ 2) × (t ≡ h)
ReadsOnly h thrown = ⊥

validate-cases :
    (word addr : ℕ) (h : Hart)
    → (validate_csr_counter_read_access_rights word addr h ≡ ok tt h)
      ⊎ (validate_csr_counter_read_access_rights word addr h ≡ raise_illegal_instruction word h)
unfolding validate_csr_counter_read_access_rights
validate-cases word addr h = ground arith

read_counter_shadows :
    (mtime addr v : ℕ) (c : CsrTable) (h : Hart)
    → read_counter mtime addr h ≡ some (v, c)
    → c ≡ record (h.csrs) { time = c.time; cycle = c.cycle }
unfolding read_counter
read_counter_shadows mtime addr v c h e = ground arith

read_other-ReadsOnly : (word addr : ℕ) (h : Hart) → ReadsOnly h (read_other word addr h)
unfolding read_other
read_other-ReadsOnly word addr h =
    if-elim (ReadsOnly h) (is_hpmcounter addr) _ _ (λ _. refl)
      λ _.
        if-elim (ReadsOnly h) (addr == 0x180 && is_set h.csrs.mstatus 20) _ _ (λ _. (refl, refl))
          λ _.
            if-elim (ReadsOnly h) (addr == 0x1) _ _ (λ _. refl)
              λ _.
                if-elim (ReadsOnly h) (addr == 0x2) _ _ (λ _. refl)
                  λ _.
                    if-elim (ReadsOnly h) (addr == 0x7a0) _ _ (λ _. refl)
                      λ _.
                        if-elim (ReadsOnly h) (is_debug_register addr) _ _ (λ _. refl)
                          λ _. elim (Option-cases (read_mask addr)) [
                            | inr ((r, m), e) ↦ rw e refl
                            | inl n ↦ elim (Option-cases (default_read32 h.csrs addr)) [
                              | inl missing ↦ rw (n, missing, read_default) (refl, refl)
                              | inr (v, there) ↦ rw (n, there, read_default) refl
                            ]
                          ]

read_all : (mtime word addr : ℕ) (h : Hart) → ReadsOnly h (get_csr_value mtime word addr h)
unfolding get_csr_value
read_all mtime word addr h = elim (validate-cases word addr h) [
  | inr refused ↦ rw (refused, get_csr_value) (refl, refl)
  | inl passed ↦ elim (Option-cases (read_counter mtime addr h)) [
    | inl n ↦ rw (passed, n, get_csr_value, read_switch) (read_other-ReadsOnly word addr h)
    | inr ((v, c), e) ↦
        rw (passed, e, get_csr_value, read_switch)
          (ap (λ c. record h { csrs = c }) (read_counter_shadows mtime addr v c h e))
  ]
]

-- A CSR read changes nothing but the shadows of the time and the cycle counter; the only trap that
-- it raises is an illegal instruction, and then nothing changes. A counter that is not enabled for
-- the mode always raises it.
pub get_csr_value-ReadsOnly :
    (mtime word addr : ℕ) (h : Hart)
    → ReadsOnly h (get_csr_value mtime word addr h)
      × (is_counter addr ≡ true
          → counter_enabled addr h ≡ false
          → get_csr_value mtime word addr h ≡ raise_illegal_instruction word h)
get_csr_value-ReadsOnly mtime word addr h =
    (read_all mtime word addr h, get_csr_value-disabled mtime word addr h)

pub mcycle_read :
    (mtime word : ℕ) (h : Hart)
    → h.prv ≡ machine_mode
    → get_csr_value mtime word 0xb00 h
      ≡ ok
          (low_half h.cycle_counter)
          (record h { csrs = record (h.csrs) { cycle = h.cycle_counter } })
unfolding get_csr_value validate_csr_counter_read_access_rights read_counter read_other read_mask
    is_hpmcounter default_read32 register_mapping read_register
mcycle_read mtime word h m = ground arith

cycle_read :
    (mtime word : ℕ) (h : Hart)
    → h.prv ≡ machine_mode
    → get_csr_value mtime word 0xc00 h ≡ ok (low_half h.csrs.cycle) h
unfolding get_csr_value validate_csr_counter_read_access_rights read_counter read_other read_mask
    is_hpmcounter default_read32 register_mapping read_register
cycle_read mtime word h m = ground arith

-- In machine mode, after `mcycle` was read, `cycle` goes on to read as the count of that time, however far
-- the cycles have been counted since, while `mcycle` reads as the new count.
pub get_csr_value_stale_cycle :
    (mtime word v n : ℕ) (h t : Hart)
    → h.prv ≡ machine_mode
    → get_csr_value mtime word 0xb00 h ≡ ok v t
    → (get_csr_value mtime word 0xc00 (record t { cycle_counter = n })
        ≡ ok v (record t { cycle_counter = n }))
      × (get_csr_value mtime word 0xb00 (record t { cycle_counter = n })
          ≡ ok (low_half n) (record t { cycle_counter = n; csrs = record (t.csrs) { cycle = n } }))
get_csr_value_stale_cycle mtime word v n h t m e =
    let at : ok (low_half h.cycle_counter)
          (record h { csrs = record (h.csrs) { cycle = h.cycle_counter } })
        ≡ ok v t =
      sym (mcycle_read mtime word h m) ∙ e in
    let number : low_half h.cycle_counter ≡ v = cc in
    let left : record h { csrs = record (h.csrs) { cycle = h.cycle_counter } } ≡ t = cc in
    let level : t.prv ≡ machine_mode = subst (λ u. u.prv ≡ machine_mode) left m in
    let count : low_half t.csrs.cycle ≡ v = subst (λ u. low_half u.csrs.cycle ≡ v) left number in
    (
      cycle_read mtime word (record t { cycle_counter = n }) level
          ∙ ap (λ x. ok x (record t { cycle_counter = n })) count,
      mcycle_read mtime word (record t { cycle_counter = n }) level,
    )

mapped_apart :
    (c : CsrTable) (addr : ℕ) (r : Register) (m : ℕ)
    → read_mask addr ≡ some (r, m)
    → write_mask c addr ≡ some (r, m)
    → (is_counter addr ≡ false)
      × ((addr == 0x301 || is_hpmcounter addr) ≡ false)
      × (is_hpmcounter addr ≡ false)
      × ((addr == 0x180) ≡ false)
      × ((addr == 0x1) ≡ false)
      × ((addr == 0x2) ≡ false)
      × ((addr == 0x7a0) ≡ false)
      × (is_debug_register addr ≡ false)
unfolding read_mask write_mask is_hpmcounter
mapped_apart c addr r m e f = ground arith

mask_uncounted :
    (mtime addr : ℕ) (h : Hart) (r : Register) (m : ℕ)
    → read_mask addr ≡ some (r, m)
    → read_counter mtime addr h ≡ none
unfolding read_mask read_counter
mask_uncounted mtime addr h r m e = ground arith

-- Where an address reads and writes one register through one mask, a read after a write gives the
-- value that was written, cut to the mask.
pub get-set_csr_value :
    (mtime word addr value : ℕ) (h : Hart) (r : Register) (m : ℕ)
    → read_mask addr ≡ some (r, m)
    → write_mask h.csrs addr ≡ some (r, m)
    → (t : Hart) × (set_csr_value word addr value h ≡ ok tt t)
      × (get_csr_value mtime word addr t ≡ ok (bit_and value m) t)
unfolding set_csr_value get_csr_value validate_csr_counter_read_access_rights read_other
get-set_csr_value mtime word addr value h r m e f =
    let c = write_masked h.csrs r m value in
    let t = record h { csrs = c } in
    let (counter, misa, hpm, satp, fflags, frm, tselect, debug) =
      mapped_apart h.csrs addr r m e f in
    let (small, inside) = write_mask_fits h.csrs addr r m f in
    let held : bit_and (read_register c r) m ≡ bit_and value m =
      ap (λ n. bit_and n m)
        (read-write_self h.csrs r (masked 32 m (read_register h.csrs r) value)
          (masked-lt 32 m (read_register h.csrs r) value small) inside)
      ∙ masked_written 32 m (read_register h.csrs r) value small in
    (
      t,
      rw (misa, satp, fflags, frm, tselect, debug, f, set_csr_value) refl,
      rw (counter, get_csr_value, read_switch, mask_uncounted mtime addr t r m e)
          (rw (hpm, satp, fflags, frm, tselect, debug, e)
            (ap {B = Outcome Hart ℕ} (λ n. ok n t) held)),
    )
