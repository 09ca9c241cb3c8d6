-- ===== src/Clover/Memory/Stored.antt =====
-- Where `ConcolicMemory::store` (vp/src/symex/clover/memory.cpp) puts the bytes, and what it leaves.
use coverage_vp.Base.{
  ℕ, zero, suc, ◌+◌, ◌*◌, ◌^◌, ◌≤◌, ◌<◌, ◌≡◌, ◌≢◌, refl, ◌∙◌, some, inl, inr, Bool-cases, ==_iff,
  ◌==◌, arith,
}
use coverage_vp.Clover.Expr.{Builder}
use coverage_vp.Clover.Value.{ConcolicValue, extract}
use coverage_vp.Clover.Memory.{Memory, address, update, widened, store_loop, store}

module _ (b : Builder) where
  update_self : (mem : Memory b) (a : ℕ) (v : ConcolicValue b) → update b mem a v a ≡ some v
  update_self mem a v = ground arith

  update_ne : (mem : Memory b) (a i : ℕ) (v : ConcolicValue b) → i ≢ a → update b mem a v i ≡ mem i
  update_ne mem a i v h = ground arith

  store_loop_keeps :
      (mem : Memory b) (addr : ℕ) (v : ConcolicValue b) (left off i : ℕ)
      → ((j : ℕ) → off ≤ j → j < off + left → i ≢ address addr j)
      → store_loop b mem addr v left off i ≡ mem i
  unfolding store_loop
  store_loop_keeps mem addr v zero off i h = refl
  store_loop_keeps mem addr v (suc left) off i h =
      store_loop_keeps (update b mem (address addr off) (extract b v (off * 8) 8)) addr v left
        (off + 1) i (λ j p q. h j (omega arith) (omega arith))
      ∙ update_ne mem (address addr off) i (extract b v (off * 8) 8)
          (h off (omega arith) (omega arith))

  -- Two offsets less than 2 ^ 32 apart are two addresses.
  address_ne : (addr i j : ℕ) → i < j → j < i + 2 ^ 32 → address addr i ≢ address addr j
  address_ne addr i j h g = omega arith

  store_loop_puts :
      (mem : Memory b) (addr : ℕ) (v : ConcolicValue b) (left off j : ℕ)
      → left ≤ 2 ^ 32
      → off ≤ j
      → j < off + left
      → store_loop b mem addr v left off (address addr j) ≡ some (extract b v (j * 8) 8)
  unfolding store_loop
  store_loop_puts mem addr v zero off j n h g = absurd (omega arith)
  store_loop_puts mem addr v (suc left) off j n h g = elim (Bool-cases (j == off)) [
    | inl now ↦
        let e : j ≡ off = (==_iff j off).0 now in
        rw e (
          store_loop_keeps (update b mem (address addr off) (extract b v (off * 8) 8)) addr v left
            (off + 1) (address addr off)
            (λ i p q. address_ne addr off i (omega arith) (omega arith))
          ∙ update_self mem (address addr off) (extract b v (off * 8) 8))
    | inr later ↦
        store_loop_puts (update b mem (address addr off) (extract b v (off * 8) 8)) addr v left
          (off + 1) j (omega arith) (ground arith) (omega arith)
  ]

  -- A store puts byte `j` of the value at offset `j` and changes no other address.
  pub store_puts :
      (mem : Memory b) (addr : ℕ) (v : ConcolicValue b) (n : ℕ)
      → n ≤ 2 ^ 32
      → ((j : ℕ)
          → j < n
          → store b mem addr v n (address addr j) ≡ some (extract b (widened b v n) (j * 8) 8))
        × ((i : ℕ) → ((j : ℕ) → j < n → i ≢ address addr j) → store b mem addr v n i ≡ mem i)
  unfolding store
  store_puts mem addr v n h = (
    λ j g. store_loop_puts mem addr (widened b v n) n 0 j h (omega arith) (omega arith),
    λ i g. store_loop_keeps mem addr (widened b v n) n 0 i (λ j p q. g j (omega arith)),
  )
