-- ===== src/Rv32/Exec/Operand.antt =====
-- The concolic words that the instructions of vp/src/core/rv32/iss.cpp compute with, and what a write of
-- a register keeps.
use coverage_vp.Base.{
  ℕ, ◌/◌, ◌%◌, ◌^◌, ◌<◌, ◌≤◌, ◌≡◌, refl, subst, arith, true, ltb, leb, ◌==◌, ==_iff, Bool-cases,
  inl, inr, if◌then◌else◌, none, some,
}
use native.Mathlib.Nat.{mod-lt}
use coverage_vp.Base.Ranges.{pow-pos}
use coverage_vp.Clover.Expr.{Builder, BinOp, Meaning}
use coverage_vp.Clover.Expr.Standard.{Standard, raw_value, standard_width}
use coverage_vp.Clover.Value.{
  ConcolicValue, IntValue, bvc, get_width, sext, zext, extract, binary_operator,
}
use coverage_vp.Clover.Value.Sound.{
  IsInstance, binary_operator-IsInstance, get_width-binary_operator, zext-IsInstance,
  sext-IsInstance, extract-IsInstance, get_width-zext, get_width-sext, get_width-bvc,
  bvc-IsInstance,
}
use coverage_vp.Rv32.RegFile.{RegFile, write, with_register, shift_amount}

module _ (b : Builder) (m : Meaning b) (st : Standard b m) (ρ : m.Env) where
  -- A concolic value of a width that is an instance of a number.
  pub record IsWord (width : ℕ) (v : ConcolicValue b) (n : ℕ) : Type 0 where
    pub instance_of : IsInstance b m ρ v n
    pub has_width : get_width b v ≡ width
    pub small : n < 2 ^ width

  -- The registers hold the words of `x`.
  abbrev pub Holds : RegFile b → (ℕ → ℕ) → Type 0
  Holds regs x = (i : ℕ) → IsWord 32 (regs i) (x i)

  -- A value of an equal number.
  IsWord-number : (k : ℕ) (v : ConcolicValue b) (n p : ℕ) → n ≡ p → IsWord k v n → IsWord k v p
  IsWord-number k v n p e h = subst (IsWord k v) e h

  pub bvc-IsWord : (n : ℕ) → n < 2 ^ 32 → IsWord 32 (bvc b none (IntValue.u32 n)) n
  bvc-IsWord n h = record {
    instance_of = bvc-IsInstance b m ρ n h;
    has_width = get_width-bvc b m n;
    small = h;
  }

  -- Extending a word to its own width changes nothing.
  pub sext-IsWord : (v : ConcolicValue b) (n : ℕ) → IsWord 32 v n → IsWord 32 (sext b v 32) n
  sext-IsWord v n h =
      let same : m.sext_value (get_width b v) 32 n ≡ n =
        rw (h.has_width, st.sign_extension 32 32 n h.small) (ground (arith, h.small)) in
      record {
        instance_of =
            subst (IsInstance b m ρ (sext b v 32)) same
              (sext-IsInstance b m ρ v 32 n h.instance_of);
        has_width = get_width-sext b m v 32;
        small = h.small;
      }

  zext-IsWord :
      (v : ConcolicValue b) (k n : ℕ)
      → IsInstance b m ρ v n
      → n < 2 ^ 32
      → IsWord 32 (zext b v 32) n
  zext-IsWord v k n h lt =
      let same : n % 2 ^ 32 ≡ n = omega arith in
      record {
        instance_of = subst (IsInstance b m ρ (zext b v 32)) same (zext-IsInstance b m ρ v 32 n h);
        has_width = get_width-zext b m v 32;
        small = lt;
      }

  pub shift_amount-IsWord :
      (regs : RegFile b) (x : ℕ → ℕ) (i : ℕ)
      → Holds regs x
      → IsWord 32 (shift_amount b regs i) (x i % 32)
  unfolding shift_amount
  shift_amount-IsWord regs x i h =
      let same : x i / 2 ^ 0 % 2 ^ 5 ≡ x i % 32 = omega arith in
      zext-IsWord (extract b (regs i) 0 5) 5 (x i % 32)
        (subst (IsInstance b m ρ (extract b (regs i) 0 5)) same
          (extract-IsInstance b m ρ (regs i) 0 5 (x i) (h i).instance_of))
        (omega arith)

  pub binary-IsWord :
      (o : BinOp) (x y : ConcolicValue b) (p q : ℕ)
      → IsWord 32 x p
      → IsWord 32 y q
      → IsWord
          (standard_width o 32 32)
          (binary_operator b o x y)
          (raw_value o 32 p q % 2 ^ standard_width o 32 32)
  binary-IsWord o x y p q u v =
      let number : m.on_values o (get_width b x) (get_width b y) p q
          ≡ raw_value o 32 p q % 2 ^ standard_width o 32 32 =
        rw (u.has_width, v.has_width) (st.operation o 32 p q u.small v.small) in
      record {
        instance_of =
            subst (IsInstance b m ρ (binary_operator b o x y)) number
              (binary_operator-IsInstance b m ρ o x y p q u.instance_of v.instance_of);
        has_width =
            rw (get_width-binary_operator b m o x y, u.has_width, v.has_width)
              (st.operation_width o 32 32);
        small = mod-lt (raw_value o 32 p q) (pow-pos (standard_width o 32 32));
      }

  -- Putting a word in a register.
  with_register-Holds :
      (regs : RegFile b) (x : ℕ → ℕ) (r n : ℕ) (v : ConcolicValue b)
      → Holds regs x
      → IsWord 32 v n
      → Holds (with_register b regs r v) (λ i. if i == r then n else x i)
  with_register-Holds regs x r n v h u i = elim (Bool-cases (i == r)) [
    | inl t ↦ rw t u
    | inr f ↦ rw f (h i)
  ]

  pub write-Holds :
      (regs : RegFile b) (x : ℕ → ℕ) (k r n : ℕ) (v : ConcolicValue b)
      → Holds regs x
      → IsWord k v n
      → n < 2 ^ 32
      → k ≤ 32
      → r < 32
      → (new : RegFile b) × (write b regs r v ≡ some new)
        × Holds new (λ i. if i == r then n else x i)
  unfolding write
  write-Holds regs x k r n v h u small le lt =
      let index : leb r 31 ≡ true = ground arith in
      elim (Bool-cases (ltb (get_width b v) 32)) [
        | inl t ↦ (
          with_register b regs r (zext b v 32),
          rw (index, t) refl,
          with_register-Holds regs x r n (zext b v 32) h (zext-IsWord v k n u.instance_of small),
        )
        | inr f ↦
            let full : get_width b v ≡ 32 = ground (arith, u.has_width) in
            let test : (get_width b v == 32) ≡ true = (==_iff (get_width b v) 32).1 full in
            (
              with_register b regs r v,
              rw (index, f, test) refl,
              with_register-Holds regs x r n v h
                  (record { instance_of = u.instance_of; has_width = full; small = small }),
            )
      ]
