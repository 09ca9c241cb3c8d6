-- ===== src/Rv32/Step/Accesses.antt =====
-- The loads and stores of vp/src/core/rv32/iss.cpp against one description of all eight.
use coverage_vp.Base.{
  arith, ap, ◌∙◌, subst, inl, inr, Bool-cases, ℕ, ◌%◌, ◌≡◌, refl, Bool, true, false, if◌then◌else◌,
  Option, none, some,
}
use coverage_vp.Clover.Klee.{Klee}
use coverage_vp.Clover.Expr.{Builder}
use coverage_vp.Clover.Value.{ConcolicValue, get_value, is_symbolic, sext}
use coverage_vp.Clover.Trace.{Query}
use coverage_vp.Rv32.Exc.{load_addr_misaligned, store_amo_addr_misaligned}
use coverage_vp.Rv32.Hart.{Outcome, ok, trap, thrown, raise_trap}
use coverage_vp.Rv32.Instr.{rd, rs2}
use coverage_vp.Rv32.Instr.Pattern.{Mapping}
use coverage_vp.Rv32.Word.{nonzero}
use coverage_vp.Rv32.Exec.Control.{Validity}
use coverage_vp.Rv32.Step.Machine.{MemoryIf, Machine, and_then, on_memory}
use coverage_vp.Rv32.Step.Data.{
  write_regs, exec_access, extended, load_address, store_address, taint_register, load_from,
  store_to, trap_check_addr_alignment, load_word, load_half, load_byte, load_uhalf, load_ubyte,
  store_word, store_half, store_byte,
}

-- The number of bytes, whether they are loaded, and whether their sign is extended.
pub record Access : Type 0 where
  pub bytes : ℕ
  pub is_load : Bool
  pub is_signed : Bool

-- The manual's table of loads and stores.
unfoldable pub access : Mapping → Option Access
access Mapping.lb = some (record { bytes = 1; is_load = true; is_signed = true })
access Mapping.lh = some (record { bytes = 2; is_load = true; is_signed = true })
access Mapping.lw = some (record { bytes = 4; is_load = true; is_signed = true })
access Mapping.lbu = some (record { bytes = 1; is_load = true; is_signed = false })
access Mapping.lhu = some (record { bytes = 2; is_load = true; is_signed = false })
access Mapping.sb = some (record { bytes = 1; is_load = false; is_signed = false })
access Mapping.sh = some (record { bytes = 2; is_load = false; is_signed = false })
access Mapping.sw = some (record { bytes = 4; is_load = false; is_signed = false })
access m = none

module _ (b : Builder) (k : Klee) (embed : b.Expr → k.Expr) (evaluate : Query k → Option Validity)
    (mem : MemoryIf b) (Coverage : Type 0) where
  abbrev Iss : Type 0
  Iss = Machine b k embed evaluate mem Coverage

  -- The address, from the operands of the format.
  abbrev pub access_address : Access → ℕ → Iss → ConcolicValue b
  access_address x w s =
      if x.is_load
      then load_address b k embed evaluate mem Coverage w s
      else store_address b k embed evaluate mem Coverage w s

  abbrev pub converted : Bool → ConcolicValue b → ConcolicValue b
  converted is_signed v = if is_signed then sext b v 32 else extended b mem v

  -- The end of a load.
  abbrev pub to_register : ConcolicValue b → ℕ → ConcolicValue b → Iss → Outcome Iss Bool
  to_register addr w v t = and_then (write_regs b k embed evaluate mem Coverage (rd w) v t) (λ _ u.
      if is_symbolic b addr
      then ok true (taint_register b k embed evaluate mem Coverage (rd w) u)
      else ok false u)

  -- The one access of the memory, and the destination of a load.
  abbrev pub perform : Access → ConcolicValue b → ℕ → Iss → Outcome Iss Bool
  perform x addr w s =
      if x.is_load
      then and_then
          (on_memory b k embed evaluate mem Coverage
            (mem.symbolic_load_data addr x.bytes s.hart s.memory) s)
          (λ v t. to_register addr w (converted x.is_signed v) t)
      else and_then
          (on_memory b k embed evaluate mem Coverage
            (mem.symbolic_store_data addr (s.regs (rs2 w)) x.bytes s.hart s.memory) s)
          (λ _ t. ok false t)

  -- A misaligned address `a` traps before anything is done.
  abbrev pub expected_access : Access → ℕ → ℕ → Iss → Outcome Iss Bool
  expected_access x a w s =
      if nonzero (a % x.bytes)
      then raise_trap (if x.is_load then load_addr_misaligned else store_amo_addr_misaligned) a s
      else perform x (access_address x w s) w s

  -- Converting what the memory returns, before or after the memory is put back.
  converted_load :
      (f : ConcolicValue b → ConcolicValue b) (s : Iss)
      (g : ConcolicValue b → Iss → Outcome Iss Bool) (o : Outcome (mem.State) (ConcolicValue b))
      → and_then (on_memory b k embed evaluate mem Coverage (and_then o (λ v n. ok (f v) n)) s) g
        ≡ and_then (on_memory b k embed evaluate mem Coverage o s) (λ v t. g (f v) t)
  converted_load f s g (ok v n) = refl
  converted_load f s g (trap e n) = refl
  converted_load f s g thrown = refl

  load_converted :
      (n : ℕ) (f : ConcolicValue b → ConcolicValue b) (addr : ConcolicValue b) (w : ℕ) (s : Iss)
      → and_then
          (on_memory b k embed evaluate mem Coverage
            (and_then (mem.symbolic_load_data addr n s.hart s.memory) (λ v p. ok (f v) p))
            s)
          (to_register addr w)
        ≡ and_then
            (on_memory b k embed evaluate mem Coverage
              (mem.symbolic_load_data addr n s.hart s.memory)
              s)
            (λ v t. to_register addr w (f v) t)
  load_converted n f addr w s =
      converted_load f s (to_register addr w) (mem.symbolic_load_data addr n s.hart s.memory)

  checked_alignment :
      (n a : ℕ) (is_load : Bool) (addr : ConcolicValue b) (s : Iss) (o : Iss → Outcome Iss Bool)
      → get_value b addr ≡ some a
      → and_then
          (trap_check_addr_alignment b k embed evaluate mem Coverage n is_load addr s)
          (λ _ t. o t)
        ≡ (if nonzero (a % n)
            then raise_trap
                (if is_load then load_addr_misaligned else store_amo_addr_misaligned)
                a
                s
            else o s)
  unfolding trap_check_addr_alignment
  checked_alignment n a is_load addr s o e =
      rw (trap_check_addr_alignment, e)
        (elim (Bool-cases (nonzero (a % n))) [ inl t ↦ rw t refl | inr f ↦ rw f refl ])

  bytes_aligned : (a : ℕ) → nonzero (a % 1) ≡ false
  bytes_aligned a = ground arith

  module _ (w a : ℕ) (s : Iss) where
    abbrev Meets : Option (Outcome Iss Bool) → Access → Type 0
    Meets o x = get_value b (access_address x w s) ≡ some a → o ≡ some (expected_access x a w s)

    literal :
        (o : Option (Outcome Iss Bool)) (x y : Access) → some y ≡ some x → Meets o y → Meets o x
    literal o x y e p = let same : y ≡ x = cc in subst (Meets o) same p

    lb_lem :
        Meets
          (exec_access b k embed evaluate mem Coverage Mapping.lb w s)
          (record { bytes = 1; is_load = true; is_signed = true })
    unfolding exec_access load_from load_byte
    lb_lem v = rw (bytes_aligned a) (
        ap some (
          load_converted 1 (λ r. sext b r 32) (load_address b k embed evaluate mem Coverage w s) w
            s))

    lh_lem :
        Meets
          (exec_access b k embed evaluate mem Coverage Mapping.lh w s)
          (record { bytes = 2; is_load = true; is_signed = true })
    unfolding exec_access load_from load_half
    lh_lem v = ap some (
        checked_alignment 2 a true (load_address b k embed evaluate mem Coverage w s) s _ v
        ∙ ap (λ o. if nonzero (a % 2) then raise_trap load_addr_misaligned a s else o)
            (load_converted 2 (λ r. sext b r 32) (load_address b k embed evaluate mem Coverage w s)
              w s))

    lw_lem :
        Meets
          (exec_access b k embed evaluate mem Coverage Mapping.lw w s)
          (record { bytes = 4; is_load = true; is_signed = true })
    unfolding exec_access load_from load_word
    lw_lem v = ap some (
        checked_alignment 4 a true (load_address b k embed evaluate mem Coverage w s) s _ v
        ∙ ap (λ o. if nonzero (a % 4) then raise_trap load_addr_misaligned a s else o)
            (load_converted 4 (λ r. sext b r 32) (load_address b k embed evaluate mem Coverage w s)
              w s))

    lbu_lem :
        Meets
          (exec_access b k embed evaluate mem Coverage Mapping.lbu w s)
          (record { bytes = 1; is_load = true; is_signed = false })
    unfolding exec_access load_from load_ubyte
    lbu_lem v = rw (bytes_aligned a) (
        ap some (
          load_converted 1 (extended b mem) (load_address b k embed evaluate mem Coverage w s) w s))

    lhu_lem :
        Meets
          (exec_access b k embed evaluate mem Coverage Mapping.lhu w s)
          (record { bytes = 2; is_load = true; is_signed = false })
    unfolding exec_access load_from load_uhalf
    lhu_lem v = ap some (
        checked_alignment 2 a true (load_address b k embed evaluate mem Coverage w s) s _ v
        ∙ ap (λ o. if nonzero (a % 2) then raise_trap load_addr_misaligned a s else o)
            (load_converted 2 (extended b mem) (load_address b k embed evaluate mem Coverage w s) w
              s))

    sb_lem :
        Meets
          (exec_access b k embed evaluate mem Coverage Mapping.sb w s)
          (record { bytes = 1; is_load = false; is_signed = false })
    unfolding exec_access store_to store_byte
    sb_lem v = rw (bytes_aligned a) refl

    sh_lem :
        Meets
          (exec_access b k embed evaluate mem Coverage Mapping.sh w s)
          (record { bytes = 2; is_load = false; is_signed = false })
    unfolding exec_access store_to store_half
    sh_lem v =
        ap some
          (checked_alignment 2 a false (store_address b k embed evaluate mem Coverage w s) s _ v)

    sw_lem :
        Meets
          (exec_access b k embed evaluate mem Coverage Mapping.sw w s)
          (record { bytes = 4; is_load = false; is_signed = false })
    unfolding exec_access store_to store_word
    sw_lem v =
        ap some
          (checked_alignment 4 a false (store_address b k embed evaluate mem Coverage w s) s _ v)

    -- Each load and store whose address is the number `a` does what its row of the table says: it traps with
    -- the address where that is no multiple of the size, and else accesses the memory once, with that size,
    -- and a load puts the extended value in its destination, tainted if the address is symbolic.
    pub exec_access-expected_access :
        (m : Mapping) (x : Access)
        → access m ≡ some x
        → get_value b (access_address x w s) ≡ some a
        → exec_access b k embed evaluate mem Coverage m w s ≡ some (expected_access x a w s)
    unfolding access
    exec_access-expected_access Mapping.lb x e v = literal _ x _ e lb_lem v
    exec_access-expected_access Mapping.lh x e v = literal _ x _ e lh_lem v
    exec_access-expected_access Mapping.lw x e v = literal _ x _ e lw_lem v
    exec_access-expected_access Mapping.lbu x e v = literal _ x _ e lbu_lem v
    exec_access-expected_access Mapping.lhu x e v = literal _ x _ e lhu_lem v
    exec_access-expected_access Mapping.sb x e v = literal _ x _ e sb_lem v
    exec_access-expected_access Mapping.sh x e v = literal _ x _ e sh_lem v
    exec_access-expected_access Mapping.sw x e v = literal _ x _ e sw_lem v
    exec_access-expected_access m x e v = absurd cc
