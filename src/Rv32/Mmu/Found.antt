-- ===== src/Rv32/Mmu/Found.antt =====
-- The page table walk of `GenericMMU` (vp/src/core/common/mmu.h) against the chain of entries that the
-- RISC-V manual describes.
use coverage_vp.Base.{
  ℕ, zero, suc, ◌+◌, ◌*◌, ◌/◌, ◌%◌, ◌^◌, ◌≡◌, ◌↔◌, ◌⊎◌, inl, inr, refl, sym, ap, subst, ◌∙◌,
  bit_and, bit_or, Bool, true, false, ◌==◌, if◌then◌else◌, Option, none, some,
}
use coverage_vp.Base.Ranges.{bit_and_ones}
use coverage_vp.Rv32.Hart.{Outcome, ok, trap, thrown}
use coverage_vp.Rv32.Step.Machine.{and_then}
use coverage_vp.Rv32.Mmu.Walk.{
  MemoryAccessType, MmuMemoryIf, VmInfo, walk_loop, finish_walk, is_permitted, is_pointer,
  is_invalid, load_pte, slot, leaf_address, accessed_dirty,
}
use coverage_vp.Rv32.Mmu.Permission.{
  IsValidEntry, IsLeaf, PointsOn, Permits, HasAccessed, HasAccessed-iff, is_invalid_iff,
  is_pointer_iff, no_pointer_iff, is_permitted_iff,
}

module _ (mem : MmuMemoryIf) (vaddr : ℕ) (type : MemoryAccessType) (s_mode sum mxr : Bool)
    (page_fault_on_ad : Bool) (vm : VmInfo) where
  -- Where the entry of a level stands: the table's base and the page number's digit for that level.
  abbrev pub entry_address : ℕ → ℕ → ℕ
  entry_address i base =
      (base + vaddr / 2 ^ (12 + i * vm.idxbits) % 2 ^ vm.idxbits * vm.ptesize) % 2 ^ 64

  abbrev pub next_table : ℕ → ℕ
  next_table pte = pte / 2 ^ 10 * 2 ^ 12 % 2 ^ 64

  slot_lem :
      (i base : ℕ)
      → slot mem vaddr type s_mode sum mxr page_fault_on_ad vm i base ≡ entry_address i base
  unfolding slot
  slot_lem i base = rw (bit_and_ones vm.idxbits (vaddr / 2 ^ (12 + i * vm.idxbits))) refl

  abbrev loads : ℕ → ℕ → mem.State → Outcome (mem.State) ℕ
  loads i base s =
      load_pte mem vaddr type s_mode sum mxr page_fault_on_ad vm (entry_address i base) s

  -- From the base of a level and a state the pointers lead to a leaf: its level, its address, the entry, and
  -- the state after its load.
  pub data Finds : ℕ → ℕ → mem.State → ℕ → ℕ → ℕ → mem.State → Type 0 where
    here :
        {i base pte : ℕ} {s t : mem.State}
        → loads i base s ≡ ok pte t
        → IsValidEntry pte
        → IsLeaf pte
        → Finds (suc i) base s i (entry_address i base) pte t
    deeper :
        {i base next j a pte : ℕ} {s t u : mem.State}
        → loads i base s ≡ ok next t
        → IsValidEntry next
        → PointsOn next
        → Finds i (next_table next) t j a pte u
        → Finds (suc i) base s j a pte u

  -- The A bit, and for a store the D bit, are set; or the unit may set them, and stores the entry with them.
  abbrev pub Settled : ℕ → ℕ → mem.State → mem.State → Type 0
  Settled a pte s u =
      (HasAccessed type pte × (u ≡ s))
      ⊎ ((page_fault_on_ad ≡ false)
          × (¬ HasAccessed type pte)
          × (mem.mmu_store_pte32 a (bit_or pte (accessed_dirty type) % 2 ^ 32) s ≡ ok tt u))

  -- A leaf that permits the access, with what is made of it.
  pub record Translation (n base : ℕ) (s : mem.State) (p : ℕ) (u : mem.State) : Type 0 where
    pub level : ℕ
    pub address : ℕ
    pub pte : ℕ
    pub state : mem.State
    pub finds : Finds n base s level address pte state
    pub permits : Permits type s_mode sum mxr (level * vm.idxbits) pte
    pub settled : Settled address pte state u
    pub gives : p ≡ leaf_address mem vaddr type s_mode sum mxr page_fault_on_ad vm level pte

  finished_from :
      (a pte p q : ℕ) (s u : mem.State) (x y : Bool) (o : Outcome (mem.State) (Unit {0}))
      → (HasAccessed type pte ↔ (x ≡ true))
      → page_fault_on_ad ≡ y
      → mem.mmu_store_pte32 a (bit_or pte (accessed_dirty type) % 2 ^ 32) s ≡ o
      → (if x then ok (some q) s else if y then ok none s else and_then o (λ _ t. ok (some q) t))
        ≡ ok (some p) u
      → Settled a pte s u × (p ≡ q)
  finished_from a pte p q s u true y o h f g e = (inl (h.1 refl, cc), cc)
  finished_from a pte p q s u false true o h f g e = absurd cc
  finished_from a pte p q s u false false (ok x t) h f g e =
      let same : t ≡ u = cc in
      let stored : mem.mmu_store_pte32 a (bit_or pte (accessed_dirty type) % 2 ^ 32) s ≡ ok tt u =
        g ∙ ap (ok tt) same in
      (inr (f, (λ k. let t = h.0 k in absurd cc), stored), cc)
  finished_from a pte p q s u false false (trap x t) h f g e = absurd cc
  finished_from a pte p q s u false false thrown h f g e = absurd cc

  finished_to :
      (a pte q : ℕ) (s u : mem.State) (x : Bool)
      → (HasAccessed type pte ↔ (x ≡ true))
      → Settled a pte s u
      → (if x
          then ok (some q) s
          else if page_fault_on_ad
          then ok none s
          else and_then
              (mem.mmu_store_pte32 a (bit_or pte (accessed_dirty type) % 2 ^ 32) s)
              (λ _ t. ok (some q) t))
        ≡ ok (some q) u
  finished_to a pte q s u true h (inl (has, same)) = ap (ok (some q)) (sym same)
  finished_to a pte q s u false h (inl (has, same)) = let t = h.0 has in absurd cc
  finished_to a pte q s u true h (inr (f, lacks, g)) = absurd (lacks (h.1 refl))
  finished_to a pte q s u false h (inr (f, lacks, g)) = rw (f, g) refl

  finish_walk_iff :
      (i a pte p : ℕ) (s u : mem.State)
      → (finish_walk mem vaddr type s_mode sum mxr page_fault_on_ad vm i a pte s ≡ ok (some p) u)
        ↔ (Settled a pte s u
            × (p ≡ leaf_address mem vaddr type s_mode sum mxr page_fault_on_ad vm i pte))
  unfolding finish_walk
  finish_walk_iff i a pte p s u =
      let test = bit_and pte (accessed_dirty type) == accessed_dirty type in
      (
        (λ e.
            finished_from a pte p
              (leaf_address mem vaddr type s_mode sum mxr page_fault_on_ad vm i pte) s u test
              page_fault_on_ad _ (HasAccessed-iff type pte) refl refl e),
        (λ (settled, same).
            subst
              (λ q.
                finish_walk mem vaddr type s_mode sum mxr page_fault_on_ad vm i a pte s
                ≡ ok (some q) u)
              (sym same)
              (finished_to a pte
                (leaf_address mem vaddr type s_mode sum mxr page_fault_on_ad vm i pte) s u test
                (HasAccessed-iff type pte) settled)),
      )

  module _ (p : ℕ) (u : mem.State) where
    -- The body of the loop behind the load.
    abbrev body : ℕ → ℕ → ℕ → mem.State → Outcome (mem.State) (Option ℕ)
    body i base pte t =
        if is_invalid mem vaddr type s_mode sum mxr page_fault_on_ad vm pte
        then ok none t
        else if is_pointer mem vaddr type s_mode sum mxr page_fault_on_ad vm pte
        then walk_loop mem vaddr type s_mode sum mxr page_fault_on_ad vm i (next_table pte) t
        else if is_permitted mem vaddr type s_mode sum mxr page_fault_on_ad vm i pte
        then finish_walk mem vaddr type s_mode sum mxr page_fault_on_ad vm i (entry_address i base)
            pte t
        else ok none t

    loaded :
        (i base : ℕ) (s : mem.State) (o : Outcome (mem.State) ℕ)
        → and_then o (λ pte t. body i base pte t) ≡ ok (some p) u
        → (pte : ℕ) × (t : mem.State) × (o ≡ ok pte t) × (body i base pte t ≡ ok (some p) u)
    loaded i base s (ok pte t) e = (pte, t, refl, e)
    loaded i base s (trap x t) e = absurd cc
    loaded i base s thrown e = absurd cc

    -- One round of the loop, at what its tests say.
    chosen :
        (i base pte : ℕ) (s t : mem.State) (x y z : Bool)
        → loads i base s ≡ ok pte t
        → is_invalid mem vaddr type s_mode sum mxr page_fault_on_ad vm pte ≡ x
        → is_pointer mem vaddr type s_mode sum mxr page_fault_on_ad vm pte ≡ y
        → is_permitted mem vaddr type s_mode sum mxr page_fault_on_ad vm i pte ≡ z
        → (if x
            then ok none t
            else if y
            then walk_loop mem vaddr type s_mode sum mxr page_fault_on_ad vm i (next_table pte) t
            else if z
            then finish_walk mem vaddr type s_mode sum mxr page_fault_on_ad vm i
                (entry_address i base)
                pte
                t
            else ok none t)
          ≡ ok (some p) u
        → (walk_loop mem vaddr type s_mode sum mxr page_fault_on_ad vm i (next_table pte) t
              ≡ ok (some p) u
            → Translation i (next_table pte) t p u)
        → Translation (suc i) base s p u
    chosen i base pte s t true y z l a b c e rest = absurd cc
    chosen i base pte s t false true z l a b c e rest =
        let r = rest e in
        record {
          level = r.level;
          address = r.address;
          pte = r.pte;
          state = r.state;
          finds =
              deeper l ((is_invalid_iff mem vaddr type s_mode sum mxr page_fault_on_ad vm pte).0 a)
                ((is_pointer_iff mem vaddr type s_mode sum mxr page_fault_on_ad vm pte).0 b)
                r.finds;
          permits = r.permits;
          settled = r.settled;
          gives = r.gives;
        }
    chosen i base pte s t false false true l a b c e rest =
        let (settled, gives) = (finish_walk_iff i (entry_address i base) pte p t u).0 e in
        record {
          level = i;
          address = entry_address i base;
          pte = pte;
          state = t;
          finds =
              here l ((is_invalid_iff mem vaddr type s_mode sum mxr page_fault_on_ad vm pte).0 a)
                ((no_pointer_iff mem vaddr type s_mode sum mxr page_fault_on_ad vm pte).0 b);
          permits = (is_permitted_iff mem vaddr type s_mode sum mxr page_fault_on_ad vm i pte).0 c;
          settled = settled;
          gives = gives;
        }
    chosen i base pte s t false false false l a b c e rest = absurd cc

    sound :
        (n base : ℕ) (s : mem.State)
        → walk_loop mem vaddr type s_mode sum mxr page_fault_on_ad vm n base s ≡ ok (some p) u
        → Translation n base s p u
    unfolding walk_loop
    sound zero base s e = absurd cc
    sound (suc i) base s e =
        let (pte, t, l, r) = loaded i base s (loads i base s) (
          subst
            (λ a.
              and_then (load_pte mem vaddr type s_mode sum mxr page_fault_on_ad vm a s) (λ pte t.
                if is_invalid mem vaddr type s_mode sum mxr page_fault_on_ad vm pte
                then ok none t
                else if is_pointer mem vaddr type s_mode sum mxr page_fault_on_ad vm pte
                then walk_loop mem vaddr type s_mode sum mxr page_fault_on_ad vm i (next_table pte)
                    t
                else if is_permitted mem vaddr type s_mode sum mxr page_fault_on_ad vm i pte
                then finish_walk mem vaddr type s_mode sum mxr page_fault_on_ad vm i a pte t
                else ok none t)
              ≡ ok (some p) u)
            (slot_lem i base) e) in
        chosen i base pte s t (is_invalid mem vaddr type s_mode sum mxr page_fault_on_ad vm pte)
          (is_pointer mem vaddr type s_mode sum mxr page_fault_on_ad vm pte)
          (is_permitted mem vaddr type s_mode sum mxr page_fault_on_ad vm i pte) l refl refl refl r
          (λ w. sound i (next_table pte) t w)

    complete :
        (n base : ℕ) (s : mem.State) (j a pte : ℕ) (t : mem.State)
        → Finds n base s j a pte t
        → Permits type s_mode sum mxr (j * vm.idxbits) pte
        → finish_walk mem vaddr type s_mode sum mxr page_fault_on_ad vm j a pte t ≡ ok (some p) u
        → walk_loop mem vaddr type s_mode sum mxr page_fault_on_ad vm n base s ≡ ok (some p) u
    unfolding walk_loop
    complete (suc i) base s j a pte t (here l x y) c f =
        let valid = (is_invalid_iff mem vaddr type s_mode sum mxr page_fault_on_ad vm pte).1 x in
        let leaf = (no_pointer_iff mem vaddr type s_mode sum mxr page_fault_on_ad vm pte).1 y in
        let permitted =
          (is_permitted_iff mem vaddr type s_mode sum mxr page_fault_on_ad vm i pte).1 c in
        rw (walk_loop, slot_lem i base, l, valid, leaf, permitted) f
    complete (suc i) base s j a pte t (deeper {next = next} l x y w) c f =
        let valid = (is_invalid_iff mem vaddr type s_mode sum mxr page_fault_on_ad vm next).1 x in
        let pointer = (is_pointer_iff mem vaddr type s_mode sum mxr page_fault_on_ad vm next).1 y in
        rw (walk_loop, slot_lem i base, l, valid, pointer) (complete i _ _ j a pte t w c f)
    complete zero base s j a pte t w c f = elim w [ ]

    -- The walk gives an address if and only if, within the levels, the valid entries that point on lead to a
    -- valid leaf that has the right for the type of access, belongs to the mode and is aligned to its page's
    -- size, whose A and D bits are set, or the unit may set them and does, and the address is the one that
    -- is put together from that leaf and the virtual address.
    pub walk_loop_iff :
        (n base : ℕ) (s : mem.State)
        → (walk_loop mem vaddr type s_mode sum mxr page_fault_on_ad vm n base s ≡ ok (some p) u)
          ↔ Translation n base s p u
    walk_loop_iff n base s = (
      sound n base s,
      (λ r.
          complete n base s r.level r.address r.pte r.state r.finds r.permits
            ((finish_walk_iff r.level r.address r.pte p r.state u).1 (r.settled, r.gives))),
    )
