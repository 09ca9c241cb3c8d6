-- ===== src/Clover/Buffer/Restored.antt =====
-- The bytes that `Solver::BVCToBytes` gives back of a value made by `Solver::BVC`
-- (vp/src/symex/clover/solver.cpp).
use native.Mathlib.Nat.{mod-eq_of_lt}
use coverage_vp.Base.{
  ℕ, suc, ◌+◌, ◌*◌, ◌/◌, ◌%◌, ◌^◌, ◌<◌, ◌≡◌, refl, ap, sym, ◌∙◌, subst, arith, List, [], ◌∷◌, false,
  some, none, ltb,
}
use coverage_vp.Base.{length}
use coverage_vp.Clover.Expr.{Builder, BinOp, Meaning}
use coverage_vp.Clover.Value.{
  ConcolicValue, u8, bvc, get_width, get_value, is_symbolic, binary_operator, extract,
  int_byte_size, int_to_uint,
}
use coverage_vp.Clover.Value.Sound.{IsInstance, extract-IsInstance}
use coverage_vp.Clover.Memory.Loaded.{Carries, concat-Carries}
use coverage_vp.Clover.Buffer.{bvc_loop, bvc_buffer, bytes_loop, bvc_to_bytes}
use coverage_vp.Clover.Buffer.Numbers.{number, AreBytes, byte_first, number-lt, rest_number}

module _ (b : Builder) (m : Meaning b) (ρ : m.Env) where
  bvc-Carries : (x : ℕ) → x < 256 → Carries b m ρ (bvc b none (u8 x)) x 8 false false
  unfolding bvc int_to_uint int_byte_size get_width is_symbolic
  bvc-Carries x h = record {
    instance_of = record { is_constant = m.constant_created x 8 h; agrees = tt };
    has_width = m.width-constant x 8;
    same_symbolic = refl;
    same_taint = refl;
  }

  bvc_loop-Carries :
      (n j : ℕ) (xs : List ℕ) (r : ConcolicValue b)
      → AreBytes xs
      → n / 2 ^ (j * 8) ≡ number xs
      → Carries b m ρ r (n % 2 ^ (j * 8)) (j * 8) false false
      → (v : ConcolicValue b) × (bvc_loop b xs (some r) ≡ some v)
        × Carries b m ρ v (n % 2 ^ ((j + length xs) * 8)) ((j + length xs) * 8) false false
  unfolding bvc_loop
  bvc_loop-Carries n j [] r h e c = (r, refl, let z : j + 0 ≡ j = omega arith in rw z c)
  bvc_loop-Carries n j (x ∷ xs) r (byte_first l h) e c =
      let z : j + suc (length xs) ≡ j + 1 + length xs = omega arith in
      let (first, rest) = rest_number n j x xs l e in
      let byte =
        subst (λ k. Carries b m ρ (bvc b none (u8 x)) k 8 false false) (sym first)
          (bvc-Carries x l) in
      let (v, s, d) =
        bvc_loop-Carries n (j + 1) xs (binary_operator b BinOp.op_concat (bvc b none (u8 x)) r) h
          rest (concat-Carries b m ρ (bvc b none (u8 x)) r n j false false byte c) in
      (v, s, rw z d)

  get_value-some : (v : ConcolicValue b) (n : ℕ) → IsInstance b m ρ v n → get_value b v ≡ some n
  unfolding get_value
  get_value-some v n i = i.is_constant

  bytes_loop-number :
      (v : ConcolicValue b) (n i : ℕ) (xs : List ℕ)
      → IsInstance b m ρ v n
      → AreBytes xs
      → n / 2 ^ (i * 8) ≡ number xs
      → bytes_loop b v (length xs) i ≡ some xs
  unfolding bytes_loop
  bytes_loop-number v n i [] iv h e = refl
  bytes_loop-number v n i (x ∷ xs) iv (byte_first l h) e =
      let (first, rest) = rest_number n i x xs l e in
      let byte = extract b v (i * 8) 8 in
      let got : get_value b byte ≡ some x =
        get_value-some byte (n / 2 ^ (i * 8) % 256) (extract-IsInstance b m ρ v (i * 8) 8 n iv)
        ∙ ap some first in
      rw (bytes_loop, got, bytes_loop-number v n (i + 1) xs iv h rest) refl

  -- The value made of the bytes of a buffer stands for their number, little endian, with their width;
  -- it is not symbolic and not tainted, and taking its bytes gives the buffer again.
  pub bvc_to_bytes-bvc_buffer :
      (x : ℕ) (xs : List ℕ)
      → AreBytes (x ∷ xs)
      → (v : ConcolicValue b) × (bvc_buffer b (x ∷ xs) ≡ some v)
        × Carries b m ρ v (number (x ∷ xs)) (length (x ∷ xs) * 8) false false
        × (bvc_to_bytes b v (length (x ∷ xs)) ≡ some (x ∷ xs))
  unfolding bvc_buffer bvc_loop bvc_to_bytes
  bvc_to_bytes-bvc_buffer x xs (byte_first l h) =
      let n = number (x ∷ xs) in
      let low : x ≡ n % 2 ^ 8 = omega arith in
      let rest : n / 2 ^ 8 ≡ number xs = omega arith in
      let (v, made, c) =
        bvc_loop-Carries n 1 xs (bvc b none (u8 x)) h rest
          (subst (λ k. Carries b m ρ (bvc b none (u8 x)) k 8 false false) low (bvc-Carries x l)) in
      let whole : n % 2 ^ (suc (length xs) * 8) ≡ n =
        mod-eq_of_lt (number-lt (x ∷ xs) (byte_first l h)) in
      let size : 1 + length xs ≡ suc (length xs) = omega arith in
      let d =
        subst (λ k. Carries b m ρ v k (suc (length xs) * 8) false false) whole
          (subst (λ k. Carries b m ρ v (n % 2 ^ (k * 8)) (k * 8) false false) size c) in
      let wide : ltb (get_width b v) (suc (length xs) * 8) ≡ false =
        rw d.has_width (ground arith) in
      (
        v,
        made,
        d,
        rw wide (bytes_loop-number v n 0 (x ∷ xs) d.instance_of (byte_first l h) (omega arith)),
      )
