-- ===== src/Clover/Value/Sound.antt =====
-- The concrete part of a concolic value is the value of its symbolic part (concolic.cpp of
-- vp/src/symex/clover).
use coverage_vp.Base.{ℕ, ◌^◌, ◌%◌, ◌/◌, ◌≡◌, refl, subst, ◌<◌, ◌||◌, Option, none, some}
use coverage_vp.Clover.Expr.{Builder, BinOp, Meaning}
use coverage_vp.Clover.Value.{
  ConcolicValue, get_value, get_width, symbolic_or, join, has_value, is_symbolic, binary_operator,
  map_symbolic, bnot, extract, sext, zext, bvc, IntValue, int_to_uint, int_byte_size,
}

module _ (b : Builder) (m : Meaning b) where
  open b use {Expr, width, constant_value}
  open m use {Env, eval, on_values}

  -- Under the inputs `ρ` the symbolic part, if any, has the width and the value of the concrete one.
  abbrev pub Agrees : Env → Option Expr → Expr → ℕ → Type 0
  Agrees ρ none c n = Unit {0}
  Agrees ρ (some s) c n = (eval ρ s ≡ n) × (width s ≡ width c)

  pub record IsInstance (ρ : Env) (v : ConcolicValue b) (n : ℕ) : Type 0 where
    pub is_constant : constant_value v.concrete ≡ some n
    pub agrees : Agrees ρ v.symbolic v.concrete n

  -- Either part of an operand gives the same value at the same width.
  or_value :
      (ρ : Env) (t : Option Expr) (d : Expr) (n : ℕ)
      → constant_value d ≡ some n
      → Agrees ρ t d n
      → (eval ρ (symbolic_or b t d) ≡ n) × (width (symbolic_or b t d) ≡ width d)
  or_value ρ none d n h a = (m.eval-constant ρ d n h, refl)
  or_value ρ (some s) d n h a = a

  built-Agrees :
      (ρ : Env) (o : BinOp) (s t c d : Expr) (p q : ℕ)
      → (eval ρ s ≡ p) × (width s ≡ width c)
      → (eval ρ t ≡ q) × (width t ≡ width d)
      → Agrees ρ (some (b.build o s t)) (b.build o c d) (on_values o (width c) (width d) p q)
  built-Agrees ρ o s t c d p q (e, w) (f, v) =
      (cc (m.eval-build ρ o s t), cc (m.width-build o s t, m.width-build o c d))

  join-Agrees :
      (ρ : Env) (o : BinOp) (s t : Option Expr) (c d : Expr) (p q : ℕ)
      → constant_value c ≡ some p
      → constant_value d ≡ some q
      → Agrees ρ s c p
      → Agrees ρ t d q
      → Agrees ρ (join b o s c t d) (b.build o c d) (on_values o (width c) (width d) p q)
  join-Agrees ρ o none none c d p q hp hq f g = tt
  join-Agrees ρ o (some s) t c d p q hp hq f g =
      built-Agrees ρ o s (symbolic_or b t d) c d p q f (or_value ρ t d q hq g)
  join-Agrees ρ o none (some t) c d p q hp hq f g =
      built-Agrees ρ o c t c d p q (m.eval-constant ρ c p hp, refl) g

  -- Every binary operation keeps the concrete and the symbolic part in step: if the operands'
  -- symbolic parts have the concrete values under the inputs, so has the result's, at its width.
  pub binary_operator-IsInstance :
      (ρ : Env) (o : BinOp) (x y : ConcolicValue b) (p q : ℕ)
      → IsInstance ρ x p
      → IsInstance ρ y q
      → IsInstance ρ (binary_operator b o x y) (on_values o (get_width b x) (get_width b y) p q)
  unfolding binary_operator get_width
  binary_operator-IsInstance ρ o x y p q vx vy = record {
    is_constant = m.folds o x.concrete y.concrete p q vx.is_constant vy.is_constant;
    agrees =
        join-Agrees ρ o x.symbolic y.symbolic x.concrete y.concrete p q vx.is_constant
          vy.is_constant vx.agrees vy.agrees;
  }

  -- What a value stands for under any inputs: its symbolic part, or the constant that it is.
  abbrev pub denotes : Env → ConcolicValue b → ℕ
  denotes σ v = eval σ (symbolic_or b v.symbolic v.concrete)

  join_denotes :
      (σ : Env) (o : BinOp) (s t : Option Expr) (c d : Expr)
      → width (symbolic_or b s c) ≡ width c
      → width (symbolic_or b t d) ≡ width d
      → eval σ (symbolic_or b (join b o s c t d) (b.build o c d))
        ≡ on_values o (width c) (width d) (eval σ (symbolic_or b s c)) (eval σ (symbolic_or b t d))
  join_denotes σ o none none c d w v = m.eval-build σ o c d
  join_denotes σ o none (some t) c d w v = cc (m.eval-build σ o c t)
  join_denotes σ o (some s) t c d w v = cc (m.eval-build σ o s (symbolic_or b t d))

  -- A binary operation follows its operands. Under the inputs of the execution, where the symbolic parts of
  -- the operands have the values of the concrete ones, so has the result's; and under any other inputs the
  -- result stands for the operation on what the operands stand for there.
  pub binary_operator-Follows :
      (ρ σ : Env) (o : BinOp) (x y : ConcolicValue b) (p q : ℕ)
      → IsInstance ρ x p
      → IsInstance ρ y q
      → IsInstance ρ (binary_operator b o x y) (on_values o (get_width b x) (get_width b y) p q)
        × (denotes σ (binary_operator b o x y)
            ≡ on_values o (get_width b x) (get_width b y) (denotes σ x) (denotes σ y))
  unfolding binary_operator get_width
  binary_operator-Follows ρ σ o x y p q vx vy = (
    binary_operator-IsInstance ρ o x y p q vx vy,
    join_denotes σ o x.symbolic y.symbolic x.concrete y.concrete
        (or_value ρ x.symbolic x.concrete p vx.is_constant vx.agrees).1
        (or_value ρ y.symbolic y.concrete q vy.is_constant vy.agrees).1,
  )

  has_value-map :
      (s : Option Expr) (f : Expr → Expr) → has_value b (map_symbolic b f s) ≡ has_value b s
  has_value-map none f = refl
  has_value-map (some s) f = refl

  has_value-join :
      (o : BinOp) (s t : Option Expr) (c d : Expr)
      → has_value b (join b o s c t d) ≡ (has_value b s || has_value b t)
  has_value-join o none none c d = refl
  has_value-join o none (some t) c d = refl
  has_value-join o (some s) t c d = refl

  -- A result is tainted, and is symbolic, exactly if one of the operands is.
  pub binary_operator_flags :
      (o : BinOp) (x y : ConcolicValue b)
      → ((binary_operator b o x y).tainted ≡ (x.tainted || y.tainted))
        × (is_symbolic b (binary_operator b o x y) ≡ (is_symbolic b x || is_symbolic b y))
  unfolding binary_operator is_symbolic
  binary_operator_flags o x y = (refl, has_value-join o x.symbolic y.symbolic x.concrete y.concrete)

  pub get_width-binary_operator :
      (o : BinOp) (x y : ConcolicValue b)
      → get_width b (binary_operator b o x y) ≡ m.result_width o (get_width b x) (get_width b y)
  unfolding get_width binary_operator
  get_width-binary_operator o x y = m.width-build o x.concrete y.concrete

  pub get_width-extract : (x : ConcolicValue b) (off w : ℕ) → get_width b (extract b x off w) ≡ w
  unfolding get_width extract
  get_width-extract x off w = m.width-extract x.concrete off w

  pub get_width-zext : (x : ConcolicValue b) (w : ℕ) → get_width b (zext b x w) ≡ w
  unfolding get_width zext
  get_width-zext x w = m.width-zext x.concrete w

  pub tainted-extract : (x : ConcolicValue b) (off w : ℕ) → (extract b x off w).tainted ≡ x.tainted
  unfolding extract
  tainted-extract x off w = refl

  pub tainted-zext : (x : ConcolicValue b) (w : ℕ) → (zext b x w).tainted ≡ x.tainted
  unfolding zext
  tainted-zext x w = refl

  -- The number of a value is below two to its width.
  pub instance-lt :
      (ρ : Env) (x : ConcolicValue b) (n : ℕ) → IsInstance ρ x n → n < 2 ^ get_width b x
  unfolding get_width
  instance-lt ρ x n v =
      subst (λ k. k < 2 ^ width x.concrete) (m.eval-constant ρ x.concrete n v.is_constant)
        (m.eval-lt ρ x.concrete)

  pub is_symbolic-extract :
      (x : ConcolicValue b) (off w : ℕ) → is_symbolic b (extract b x off w) ≡ is_symbolic b x
  unfolding is_symbolic extract
  is_symbolic-extract x off w = has_value-map x.symbolic (λ s. b.build_extract s off w)

  pub is_symbolic-zext :
      (x : ConcolicValue b) (w : ℕ) → is_symbolic b (zext b x w) ≡ is_symbolic b x
  unfolding is_symbolic zext
  is_symbolic-zext x w = has_value-map x.symbolic (λ s. b.build_zext s w)

  map-Agrees :
      (ρ : Env) (f : Expr → Expr) (g : ℕ → ℕ → ℕ) (s : Option Expr) (c : Expr) (n : ℕ)
      → ((e : Expr) → eval ρ (f e) ≡ g (width e) (eval ρ e))
      → ((d e : Expr) → width d ≡ width e → width (f d) ≡ width (f e))
      → Agrees ρ s c n
      → Agrees ρ (map_symbolic b f s) (f c) (g (width c) n)
  map-Agrees ρ f g none c n h w a = tt
  map-Agrees ρ f g (some s) c n h w a = (cc (h s), w s c a.1)

  pub bnot-IsInstance :
      (ρ : Env) (x : ConcolicValue b) (n : ℕ)
      → IsInstance ρ x n
      → IsInstance ρ (bnot b x) (m.not_value (get_width b x) n)
  unfolding bnot get_width
  bnot-IsInstance ρ x n v = record {
    is_constant = m.folds_not x.concrete n v.is_constant;
    agrees =
        map-Agrees ρ b.build_not m.not_value x.symbolic x.concrete n (m.eval-not ρ)
          (λ d e w. cc (m.width-not d, m.width-not e)) v.agrees;
  }

  pub extract-IsInstance :
      (ρ : Env) (x : ConcolicValue b) (off w n : ℕ)
      → IsInstance ρ x n
      → IsInstance ρ (extract b x off w) (n / 2 ^ off % 2 ^ w)
  unfolding extract
  extract-IsInstance ρ x off w n v = record {
    is_constant = m.folds_extract x.concrete off w n v.is_constant;
    agrees =
        map-Agrees ρ (λ e. b.build_extract e off w) (λ _ k. k / 2 ^ off % 2 ^ w) x.symbolic
          x.concrete n (λ e. m.eval-extract ρ e off w)
          (λ d e _. cc (m.width-extract d off w, m.width-extract e off w)) v.agrees;
  }

  pub sext-IsInstance :
      (ρ : Env) (x : ConcolicValue b) (w n : ℕ)
      → IsInstance ρ x n
      → IsInstance ρ (sext b x w) (m.sext_value (get_width b x) w n)
  unfolding sext get_width
  sext-IsInstance ρ x w n v = record {
    is_constant = m.folds_sext x.concrete w n v.is_constant;
    agrees =
        map-Agrees ρ (λ e. b.build_sext e w) (λ v k. m.sext_value v w k) x.symbolic x.concrete n
          (λ e. m.eval-sext ρ e w) (λ d e _. cc (m.width-sext d w, m.width-sext e w)) v.agrees;
  }

  pub zext-IsInstance :
      (ρ : Env) (x : ConcolicValue b) (w n : ℕ)
      → IsInstance ρ x n
      → IsInstance ρ (zext b x w) (n % 2 ^ w)
  unfolding zext
  zext-IsInstance ρ x w n v = record {
    is_constant = m.folds_zext x.concrete w n v.is_constant;
    agrees =
        map-Agrees ρ (λ e. b.build_zext e w) (λ _ k. k % 2 ^ w) x.symbolic x.concrete n
          (λ e. m.eval-zext ρ e w) (λ d e _. cc (m.width-zext d w, m.width-zext e w)) v.agrees;
  }

  pub bvc-IsInstance : (ρ : Env) (n : ℕ) → n < 2 ^ 32 → IsInstance ρ (bvc b none (IntValue.u32 n)) n
  unfolding bvc int_to_uint int_byte_size
  bvc-IsInstance ρ n h = record { is_constant = m.constant_created n 32 h; agrees = tt }

  pub get_value-bvc : (n : ℕ) → n < 2 ^ 32 → get_value b (bvc b none (IntValue.u32 n)) ≡ some n
  unfolding get_value bvc int_to_uint int_byte_size
  get_value-bvc n h = m.constant_created n 32 h

  pub get_width-bvc : (n : ℕ) → get_width b (bvc b none (IntValue.u32 n)) ≡ 32
  unfolding bvc get_width int_to_uint int_byte_size
  get_width-bvc n = m.width-constant n 32

  pub get_width-sext : (x : ConcolicValue b) (w : ℕ) → get_width b (sext b x w) ≡ w
  unfolding get_width sext
  get_width-sext x w = m.width-sext x.concrete w
