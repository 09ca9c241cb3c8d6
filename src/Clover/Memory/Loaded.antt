-- ===== src/Clover/Memory/Loaded.antt =====
-- What `ConcolicMemory::load` (vp/src/symex/clover/memory.cpp) gives back of a stored value.
use native.Mathlib.Nat.{
  div-add-mod', add-mul-mod_self_right, mod-eq_of_lt, mod-lt, mod-mod, one-le-pow,
}
use mathlib.Core.Path.{ap₂}
use native.Mathlib.Numerals.{towards_suc}
use coverage_vp.Base.{
  ℕ, zero, suc, ◌+◌, ◌*◌, ◌/◌, ◌%◌, ◌^◌, ◌≤◌, ◌<◌, ◌≡◌, refl, ap, sym, ◌∙◌, subst, Bool, true,
  false, ◌||◌, some, arith, ltb, Bool-cases, inl, inr,
}
use coverage_vp.Clover.Expr.{Builder, BinOp, Meaning}
use coverage_vp.Clover.Value.{ConcolicValue, get_width, is_symbolic, binary_operator, extract}
use coverage_vp.Clover.Value.Sound.{
  IsInstance, extract-IsInstance, zext-IsInstance, binary_operator-IsInstance,
  binary_operator_flags, is_symbolic-extract, is_symbolic-zext, get_width-extract, tainted-extract,
  tainted-zext, get_width-binary_operator,
}
use coverage_vp.Clover.Memory.{Memory, address, widened, byte_at, load_loop, load, store}
use coverage_vp.Clover.Memory.Stored.{store_puts}

pub pow_byte : (n : ℕ) → 2 ^ ((n + 1) * 8) ≡ 256 * 2 ^ (n * 8)
pow_byte n = let e : (n + 1) * 8 ≡ n * 8 + 8 = omega arith in rw e (simp towards_suc (omega arith))

times_le : (d a : ℕ) → d ≤ 255 → d * a ≤ 255 * a
times_le d a h = grind arith

-- One more byte of a number.
low_bytes : (x a : ℕ) → 0 < a → x % (256 * a) ≡ x / a % 256 * a + x % a
low_bytes x a h =
    let d = x / a % 256 in
    let q = x / a / 256 in
    let whole : x ≡ (d * a + x % a) + q * (256 * a) =
      omega (arith, div-add-mod' x a, ap (λ (t : ℕ). t * a) (div-add-mod' (x / a) 256)) in
    let fits : d * a + x % a < 256 * a = omega (arith, times_le d a (omega arith), mod-lt x h) in
    ap (λ (t : ℕ). t % (256 * a)) whole
    ∙ add-mul-mod_self_right (d * a + x % a) q (256 * a)
    ∙ mod-eq_of_lt fits

module _ (b : Builder) (m : Meaning b) (ρ : m.Env) where
  -- A value with the number, the width and the flags of another one.
  pub record Carries (v : ConcolicValue b) (p w : ℕ) (symbolic tainted : Bool) : Type 0 where
    pub instance_of : IsInstance b m ρ v p
    pub has_width : get_width b v ≡ w
    pub same_symbolic : is_symbolic b v ≡ symbolic
    pub same_taint : v.tainted ≡ tainted

  or_self : (x : Bool) → (x || x) ≡ x
  or_self true = refl
  or_self false = refl

  byte-Carries :
      (v : ConcolicValue b) (p j : ℕ)
      → IsInstance b m ρ v p
      → Carries (extract b v (j * 8) 8) (p / 2 ^ (j * 8) % 256) 8 (is_symbolic b v) v.tainted
  byte-Carries v p j h = record {
    instance_of = extract-IsInstance b m ρ v (j * 8) 8 p h;
    has_width = get_width-extract b m v (j * 8) 8;
    same_symbolic = is_symbolic-extract b m v (j * 8) 8;
    same_taint = tainted-extract b m v (j * 8) 8;
  }

  pub concat-Carries :
      (x y : ConcolicValue b) (p j : ℕ) (s t : Bool)
      → Carries x (p / 2 ^ (j * 8) % 256) 8 s t
      → Carries y (p % 2 ^ (j * 8)) (j * 8) s t
      → Carries (binary_operator b BinOp.op_concat x y) (p % 2 ^ ((j + 1) * 8)) ((j + 1) * 8) s t
  concat-Carries x y p j s t h g =
      let number : m.on_values BinOp.op_concat (get_width b x) (get_width b y)
            (p / 2 ^ (j * 8) % 256) (p % 2 ^ (j * 8))
          ≡ p % 2 ^ ((j + 1) * 8) =
        m.concat_value (get_width b x) (get_width b y) (p / 2 ^ (j * 8) % 256) (p % 2 ^ (j * 8))
        ∙ ap (λ (w : ℕ). p / 2 ^ (j * 8) % 256 * 2 ^ w + p % 2 ^ (j * 8)) g.has_width
        ∙ sym (low_bytes p (2 ^ (j * 8)) (one-le-pow (j * 8) 2 (omega arith)))
        ∙ ap (λ (w : ℕ). p % w) (sym (pow_byte j)) in
      record {
        instance_of = subst (IsInstance b m ρ (binary_operator b BinOp.op_concat x y)) number (
            binary_operator-IsInstance b m ρ BinOp.op_concat x y (p / 2 ^ (j * 8) % 256)
              (p % 2 ^ (j * 8)) h.instance_of g.instance_of);
        has_width = omega (
          arith,
          get_width-binary_operator b m BinOp.op_concat x y,
          m.concat_width (get_width b x) (get_width b y),
        );
        same_symbolic =
            (binary_operator_flags b m BinOp.op_concat x y).1
            ∙ ap₂ ◌||◌ h.same_symbolic g.same_symbolic
            ∙ or_self s;
        same_taint =
            (binary_operator_flags b m BinOp.op_concat x y).0
            ∙ ap₂ ◌||◌ h.same_taint g.same_taint
            ∙ or_self t;
      }

  -- The bytes of `v` stand at the offsets from `off` on.
  abbrev Holds : Memory b → ℕ → ConcolicValue b → ℕ → ℕ → Type 0
  Holds mem addr v off left =
      (j : ℕ) → off ≤ j → j < off + left → mem (address addr j) ≡ some (extract b v (j * 8) 8)

  byte_at-some :
      (mem : Memory b) (a : ℕ) (x : ConcolicValue b) → mem a ≡ some x → byte_at b mem a ≡ x
  byte_at-some mem a x e = ground arith

  load_loop-Carries :
      (mem : Memory b) (addr : ℕ) (v r : ConcolicValue b) (p left off : ℕ)
      → IsInstance b m ρ v p
      → Holds mem addr v off left
      → Carries r (p % 2 ^ (off * 8)) (off * 8) (is_symbolic b v) v.tainted
      → (u : ConcolicValue b) × (load_loop b mem addr left off (some r) ≡ some u)
        × Carries u (p % 2 ^ ((off + left) * 8)) ((off + left) * 8) (is_symbolic b v) v.tainted
  unfolding load_loop
  load_loop-Carries mem addr v r p zero off i h c =
      let e : off + 0 ≡ off = omega arith in (r, refl, rw e c)
  load_loop-Carries mem addr v r p (suc left) off i h c =
      let e : off + suc left ≡ off + 1 + left = omega arith in
      let byte = extract b v (off * 8) 8 in
      let (u, loads, carries) =
        load_loop-Carries mem addr v (binary_operator b BinOp.op_concat byte r) p left (off + 1) i
          (λ j q l. h j (omega arith) (omega arith))
          (concat-Carries byte r p off (is_symbolic b v) v.tainted (byte-Carries v p off i) c) in
      let step =
        ap
          (λ (x : ConcolicValue b).
            load_loop b mem addr left (off + 1) (some (binary_operator b BinOp.op_concat x r)))
          (byte_at-some mem (address addr off) byte (h off (omega arith) (omega arith))) in
      (u, step ∙ loads, rw e carries)

  load-Carries :
      (mem : Memory b) (addr : ℕ) (v : ConcolicValue b) (p n : ℕ)
      → IsInstance b m ρ v p
      → 0 < n
      → Holds mem addr v 0 n
      → (u : ConcolicValue b) × (load b mem addr n ≡ some u)
        × Carries u (p % 2 ^ (n * 8)) (n * 8) (is_symbolic b v) v.tainted
  unfolding load load_loop
  load-Carries mem addr v p zero i pos h = absurd (omega arith)
  load-Carries mem addr v p (suc n) i pos h =
      let byte = extract b v 0 8 in
      let e : suc n ≡ 1 + n = omega arith in
      let whole : p / 1 % 256 ≡ p % 2 ^ 8 = omega arith in
      let first =
        subst (λ k. Carries byte k 8 (is_symbolic b v) v.tainted) whole (byte-Carries v p 0 i) in
      let (u, loads, carries) =
        load_loop-Carries mem addr v byte p n 1 i (λ j q l. h j (omega arith) (omega arith))
          first in
      let step =
        ap (λ (x : ConcolicValue b). load_loop b mem addr n 1 (some x))
          (byte_at-some mem (address addr 0) byte (h 0 (omega arith) (omega arith))) in
      (u, step ∙ loads, rw e carries)

  widened-Carries :
      (v : ConcolicValue b) (p n : ℕ)
      → IsInstance b m ρ v p
      → (q : ℕ) × IsInstance b m ρ (widened b v n) q
        × (q % 2 ^ (n * 8) ≡ p % 2 ^ (n * 8))
        × (is_symbolic b (widened b v n) ≡ is_symbolic b v)
        × ((widened b v n).tainted ≡ v.tainted)
  widened-Carries v p n i = elim (Bool-cases (ltb (get_width b v) (n * 8))) [
    | inl narrow ↦ rw narrow (
      p % 2 ^ (n * 8),
      zext-IsInstance b m ρ v (n * 8) p i,
      mod-mod p (2 ^ (n * 8)),
      is_symbolic-zext b m v (n * 8),
      tainted-zext b m v (n * 8),
    )
    | inr wide ↦ rw wide (p, i, refl, refl, refl)
  ]

  -- A load of the bytes that a store wrote gives a value with the number that was stored, cut to
  -- those bytes, with their width; it is symbolic, and it is tainted, exactly if the stored value was.
  -- Addresses may wrap around.
  pub load-store :
      (mem : Memory b) (addr : ℕ) (v : ConcolicValue b) (p n : ℕ)
      → IsInstance b m ρ v p
      → 0 < n
      → n ≤ 2 ^ 32
      → (u : ConcolicValue b) × (load b (store b mem addr v n) addr n ≡ some u)
        × Carries u (p % 2 ^ (n * 8)) (n * 8) (is_symbolic b v) v.tainted
  load-store mem addr v p n i pos le =
      let (q, iq, same, sym_w, taint_w) = widened-Carries v p n i in
      let (u, loads, c) =
        load-Carries (store b mem addr v n) addr (widened b v n) q n iq pos
          (λ j _ h. (store_puts b mem addr v n le).0 j (omega arith)) in
      (
        u,
        loads,
        record {
          instance_of = subst (IsInstance b m ρ u) same c.instance_of;
          has_width = c.has_width;
          same_symbolic = c.same_symbolic ∙ sym_w;
          same_taint = c.same_taint ∙ taint_w;
        },
      )
