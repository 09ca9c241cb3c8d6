-- ===== src/Rv32/Mmu/Address.antt =====
-- The address that `GenericMMU::walk` (vp/src/core/common/mmu.h) puts together from a leaf.
use native.Mathlib.Nat.{
  div-add-mod', mod-lt, mod-eq_of_lt, add-mul-mod_self_right, mul-lt-mul_of_pos_right,
}
use coverage_vp.Base.{
  arith, ℕ, Bool, ◌+◌, ◌-◌, ◌*◌, ◌/◌, ◌%◌, ◌^◌, ◌≤◌, ◌<◌, ◌≡◌, refl, sym, ◌∙◌, ap, bit_and, bit_or,
  true, ◌==◌, ==_iff, all_below, all_below_at,
}
use coverage_vp.Base.Bits.{complement}
use coverage_vp.Base.Ranges.{bit_and_range, bit_and_ones, bit_or_above, pow-pos}
use coverage_vp.Rv32.Mmu.Walk.{MemoryAccessType, MmuMemoryIf, VmInfo, leaf_address}
use coverage_vp.Rv32.Mmu.Permission.{IsAligned}
use coverage_vp.Rv32.Mmu.Page.{joined_lem, kept_page}

masks : all_below 65 (λ k. (complement 64 (2 ^ k - 1)) == ((2 ^ (64 - k) - 1) * 2 ^ k)) ≡ true
unfolding all_below
masks = refl

upper_mask : (k : ℕ) → k ≤ 64 → complement 64 (2 ^ k - 1) ≡ (2 ^ (64 - k) - 1) * 2 ^ k
upper_mask k h = (==_iff (complement 64 (2 ^ k - 1)) ((2 ^ (64 - k) - 1) * 2 ^ k)).0 (
    all_below_at 65 (λ k. (complement 64 (2 ^ k - 1)) == ((2 ^ (64 - k) - 1) * 2 ^ k)) k masks
      (omega arith))

halves : all_below 65 (λ k. 2 ^ (64 - k) * 2 ^ k == 2 ^ 64) ≡ true
unfolding all_below
halves = refl

word_size : (k : ℕ) → k ≤ 64 → 2 ^ (64 - k) * 2 ^ k ≡ 2 ^ 64
word_size k h =
    (==_iff (2 ^ (64 - k) * 2 ^ k) (2 ^ 64)).0
      (all_below_at 65 (λ k. 2 ^ (64 - k) * 2 ^ k == 2 ^ 64) k halves (omega arith))

-- A multiple of c, cut to m times c.
cut_multiple : (q m c : ℕ) → 0 < m → 0 < c → q % m * c ≡ q * c % (m * c)
cut_multiple q m c hm hc =
    let whole : q * c ≡ q % m * c + q / m * (m * c) =
      ap (λ t. t * c) (sym (div-add-mod' q m)) ∙ grind arith in
    let fits : q % m * c < m * c = mul-lt-mul_of_pos_right (mod-lt q hm) hc in
    sym (
      ap (λ t. t % (m * c)) whole
      ∙ add-mul-mod_self_right (q % m * c) (q / m) (m * c)
      ∙ mod-eq_of_lt fits)

cut_lem : (k n : ℕ) → k ≤ 64 → n % 2 ^ k ≡ 0 → n / 2 ^ k % 2 ^ (64 - k) * 2 ^ k ≡ n % 2 ^ 64
cut_lem k n h e =
    let multiple : n / 2 ^ k * 2 ^ k ≡ n = omega (arith, div-add-mod' n (2 ^ k)) in
    cut_multiple (n / 2 ^ k) (2 ^ (64 - k)) (2 ^ k) (pow-pos (64 - k)) (pow-pos k)
    ∙ rw (multiple, word_size k h) refl

page_lem :
    (k n v : ℕ)
    → k ≤ 64
    → n % 2 ^ k ≡ 0
    → bit_or (bit_and n (complement 64 (2 ^ k - 1))) (bit_and v (2 ^ k - 1))
      ≡ n % 2 ^ 64 + v % 2 ^ k
page_lem k n v h e =
    rw (upper_mask k h, bit_and_range k (64 - k) n, bit_and_ones k v)
      (bit_or_above k (n / 2 ^ k % 2 ^ (64 - k)) (v % 2 ^ k) (mod-lt v (pow-pos k))
        ∙ ap (λ x. x + v % 2 ^ k) (cut_lem k n h e))

module _ (mem : MmuMemoryIf) (vaddr : ℕ) (type : MemoryAccessType) (s_mode sum mxr : Bool)
    (page_fault_on_ad : Bool) (vm : VmInfo) where
  -- The address of a leaf that is aligned to its page's size is the leaf's page number with the digits of the
  -- virtual one below the leaf's level, in 64 bits, and the offset in the page: for levels of up to 64 bits
  -- of page number.
  pub leaf_address_lem :
      (i pte : ℕ)
      → i * vm.idxbits ≤ 64
      → IsAligned (i * vm.idxbits) pte
      → leaf_address mem vaddr type s_mode sum mxr page_fault_on_ad vm i pte
        ≡ (pte / 2 ^ 10 + vaddr / 2 ^ 12 % 2 ^ (i * vm.idxbits)) * 2 ^ 12 % 2 ^ 64 + vaddr % 2 ^ 12
  unfolding leaf_address
  leaf_address_lem i pte h e =
      let k = i * vm.idxbits in
      rw (page_lem k (pte / 2 ^ 10) (vaddr / 2 ^ 12) h e, joined_lem _ vaddr (kept_page _))
        (omega arith)
