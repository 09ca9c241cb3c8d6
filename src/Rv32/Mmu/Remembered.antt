-- ===== src/Rv32/Mmu/Remembered.antt =====
-- What the translation buffer of `GenericMMU` (vp/src/core/common/mmu.h) answers after a walk.
use coverage_vp.Base.{
  arith, ap, ◌∙◌, ℕ, ◌+◌, ◌-◌, ◌*◌, ◌/◌, ◌%◌, ◌^◌, ◌≡◌, refl, sym, subst, bit_and, bit_or, true,
  false, ◌||◌, ◌==◌, ==_iff,
}
use coverage_vp.Base.Ranges.{bit_and_range}
use coverage_vp.Rv32.Word.{field}
use coverage_vp.Rv32.Hart.{Hart, Outcome, ok, trap, thrown, machine_mode}
use coverage_vp.Rv32.Step.Machine.{and_then}
use coverage_vp.Rv32.Mmu.Walk.{MemoryAccessType, fetch, load, store, MmuMemoryIf}
use coverage_vp.Rv32.Mmu.Translate.{
  Mmu, walk, effective_mode, entry_at, remember, same_type, look_up,
  translate_virtual_to_physical_addr,
}
use coverage_vp.Rv32.Mmu.Page.{joined_lem}

same_type_refl : (t : MemoryAccessType) → same_type t t ≡ true
same_type_refl fetch = refl
same_type_refl load = refl
same_type_refl store = refl

equal_refl : (n : ℕ) → (n == n) ≡ true
equal_refl n = (==_iff n n).1 refl

-- The page number of 32 bits that the buffer keeps.
kept_lem :
    (p w : ℕ)
    → bit_or (bit_and p (2 ^ 32 - 2 ^ 12)) (bit_and w (2 ^ 12 - 1))
      ≡ p / 2 ^ 12 % 2 ^ 20 * 2 ^ 12 + w % 2 ^ 12
kept_lem p w =
    let cut : bit_and p (2 ^ 32 - 2 ^ 12) ≡ p / 2 ^ 12 % 2 ^ 20 * 2 ^ 12 = bit_and_range 12 20 p in
    rw (cut, joined_lem (p / 2 ^ 12 % 2 ^ 20 * 2 ^ 12) w (omega arith)) refl

module _ (mem : MmuMemoryIf) (mode : ℕ) (type : MemoryAccessType) where
  -- A machine after a walk that gave `p`.
  record Remembers (vaddr p : ℕ) (v : Mmu mem) : Type 0 where
    before : Mmu mem
    now : v ≡ remember mem before mode type vaddr p

  walked :
      (vaddr p : ℕ) (v : Mmu mem) (o : Outcome (Mmu mem) ℕ)
      → and_then o (λ paddr x. ok paddr (remember mem x mode type vaddr paddr)) ≡ ok p v
      → Remembers vaddr p v
  walked vaddr p v (ok a x) e =
      let same : a ≡ p = cc in
      record { before = x; now = subst (λ q. v ≡ remember mem x mode type vaddr q) same cc }
  walked vaddr p v (trap t x) e = absurd cc
  walked vaddr p v thrown e = absurd cc

  found :
      (h : Hart) (w : ℕ) (u : Mmu mem) (ppn vpn : ℕ)
      → (mode == 0 || mode == 1) ≡ true
      → entry_at mem u mode type w ≡ record { ppn = ppn; vpn = vpn }
      → vpn ≡ w / 2 ^ 12
      → look_up mem h w type mode u ≡ ok (bit_or ppn (bit_and w (2 ^ 12 - 1))) u
  unfolding look_up
  found h w u ppn vpn known e t =
      let test : (vpn == w / 2 ^ 12) ≡ true = (==_iff vpn (w / 2 ^ 12)).1 t in
      rw (look_up, known, e, test) refl

  -- An access that the buffer is asked for.
  abbrev pub IsTranslated : Hart → Type 0
  IsTranslated h = ((field h.csrs.satp 31 1 == 0) ≡ false) × (effective_mode mem h type ≡ mode)

  module _ (known : (mode == 0 || mode == 1) ≡ true) where
    not_machine : (mode == machine_mode) ≡ false
    not_machine = ground arith

    looked_up :
        (h : Hart) (w : ℕ) (u : Mmu mem)
        → IsTranslated h
        → translate_virtual_to_physical_addr mem h w type u ≡ look_up mem h w type mode u
    unfolding translate_virtual_to_physical_addr
    looked_up h w u (paged, mode_is) =
        rw (translate_virtual_to_physical_addr, paged, mode_is, not_machine) refl

  missed :
      (h : Hart) (w : ℕ) (u : Mmu mem)
      → (mode == 0 || mode == 1) ≡ true
      → ((entry_at mem u mode type w).vpn == w / 2 ^ 12) ≡ false
      → look_up mem h w type mode u
        ≡ and_then
            (walk mem h w type mode u)
            (λ paddr x. ok paddr (remember mem x mode type w paddr))
  unfolding look_up
  missed h w u known m = rw (look_up, known, m) refl

  module _ (vaddr p w : ℕ) (same_page : w / 2 ^ 12 ≡ vaddr / 2 ^ 12) where
    entry_lem :
        (x : Mmu mem)
        → entry_at mem (remember mem x mode type vaddr p) mode type w
          ≡ record { ppn = bit_and p (2 ^ 32 - 2 ^ 12); vpn = vaddr / 2 ^ 12 }
    entry_lem x =
        rw (same_page, equal_refl mode, same_type_refl type, equal_refl (vaddr / 2 ^ 12 % 256)) refl

    -- Any state in which the entry is still there.
    hit :
        (h : Hart) (x y : Mmu mem)
        → (mode == 0 || mode == 1) ≡ true
        → entry_at mem y mode type w ≡ entry_at mem (remember mem x mode type vaddr p) mode type w
        → look_up mem h w type mode y ≡ ok (p / 2 ^ 12 % 2 ^ 20 * 2 ^ 12 + w % 2 ^ 12) y
    hit h x y known kept =
        found h w y (bit_and p (2 ^ 32 - 2 ^ 12)) (vaddr / 2 ^ 12) known (kept ∙ entry_lem x)
          (sym same_page)
        ∙ ap (λ q. ok q y) (kept_lem p w)

  -- In user and supervisor mode with paging on, a translation that misses the buffer, walks and gives `p`
  -- settles the translation of the whole page in that mode and for that type of access for as long as its
  -- entry of the buffer is neither replaced nor flushed: in every such state, with paging on and the same
  -- effective mode, but whatever else the hart's registers say by then, of the page table, of SUM and of MXR,
  -- an access to the page walks no more, changes nothing and gets 32 bits of the page's address.
  pub translate-remembers :
      (known : (mode == 0 || mode == 1) ≡ true) (h later : Hart) (vaddr w p : ℕ) (u v x : Mmu mem)
      → IsTranslated h
      → IsTranslated later
      → ((entry_at mem u mode type vaddr).vpn == vaddr / 2 ^ 12) ≡ false
      → translate_virtual_to_physical_addr mem h vaddr type u ≡ ok p v
      → w / 2 ^ 12 ≡ vaddr / 2 ^ 12
      → entry_at mem x mode type w ≡ entry_at mem v mode type w
      → translate_virtual_to_physical_addr mem later w type x
        ≡ ok (p / 2 ^ 12 % 2 ^ 20 * 2 ^ 12 + w % 2 ^ 12) x
  translate-remembers known h later vaddr w p u v x now after miss e same_page kept =
      let steps : and_then (walk mem h vaddr type mode u)
            (λ paddr x. ok paddr (remember mem x mode type vaddr paddr))
          ≡ ok p v =
        sym (missed h vaddr u known miss) ∙ sym (looked_up known h vaddr u now) ∙ e in
      let r = walked vaddr p v (walk mem h vaddr type mode u) steps in
      looked_up known later w x after
      ∙ hit vaddr p w same_page later r.before x known
          (kept ∙ ap (λ y. entry_at mem y mode type w) r.now)
