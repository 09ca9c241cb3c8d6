-- ===== src/Rv32/Step/Kept.antt =====
-- What the parts of `ISS::exec_step` (vp/src/core/rv32/iss.cpp) leave as it was, however they end.
use coverage_vp.Base.{
  ℕ, bit_and, ◌≡◌, refl, sym, subst, Bool, true, false, if◌then◌else◌, Option, none, some,
}
use coverage_vp.Rv32.Csr.{CsrTable, read_register, default_read32, default_write32}
use coverage_vp.Rv32.Hart.{Hart, Outcome, ok, trap, thrown}
use coverage_vp.Rv32.Access.{
  is_invalid_csr_access, validate_csr_counter_read_access_rights, read_counter, read_mask,
  read_other, read_switch, read_default, get_csr_value, write_mask, write_masked, write_default,
  with_csrs, set_csr_value, raise_illegal_instruction,
}
use coverage_vp.Rv32.Step.Machine.{and_then, on_part, or_thrown}

-- A predicate of the state that a call leaves, if it leaves one.
pub data Leaves {S A : Type 0} (P : S → Type 0) : Outcome S A → Type 0 where
  by_ok : {a : A} {s : S} → P s → Leaves P (ok a s)
  by_trap : {e : _} {s : S} → P s → Leaves P (trap e s)
  by_thrown : Leaves P thrown

pub if-Leaves :
    {S A : Type 0} (P : S → Type 0) (t : Bool) (x y : Outcome S A)
    → Leaves P x
    → Leaves P y
    → Leaves P (if t then x else y)
if-Leaves P true x y p q = p
if-Leaves P false x y p q = q

pub and_then-Leaves :
    {S A B : Type 0} (P : S → Type 0) (o : Outcome S A) (f : A → S → Outcome S B)
    → Leaves P o
    → ((a : A) (s : S) → P s → Leaves P (f a s))
    → Leaves P (and_then o f)
and_then-Leaves P (ok a s) f (by_ok p) q = q a s p
and_then-Leaves P (trap e s) f (by_trap p) q = by_trap p
and_then-Leaves P thrown f by_thrown q = by_thrown

pub on_part-Leaves :
    {S R A : Type 0} (P : S → Type 0) (Q : R → Type 0) (put : R → S) (o : Outcome R A)
    → Leaves Q o
    → ((r : R) → Q r → P (put r))
    → Leaves P (on_part put o)
on_part-Leaves P Q put (ok a r) (by_ok p) q = by_ok (q r p)
on_part-Leaves P Q put (trap e r) (by_trap p) q = by_trap (q r p)
on_part-Leaves P Q put thrown by_thrown q = by_thrown

-- A part that the predicate does not look at.
pub beside-Leaves :
    {S R A : Type 0} (P : S → Type 0) (put : R → S) (o : Outcome R A)
    → ((r : R) → P (put r))
    → Leaves P (on_part put o)
beside-Leaves P put (ok a r) q = by_ok (q r)
beside-Leaves P put (trap e r) q = by_trap (q r)
beside-Leaves P put thrown q = by_thrown

pub or_thrown-Leaves :
    {S A : Type 0} (P : S → Type 0) (o : Option A) (s : S) → P s → Leaves P (or_thrown o s)
or_thrown-Leaves P none s p = by_thrown
or_thrown-Leaves P (some a) s p = by_ok p

pub elim-Leaves :
    {S A X : Type 0} (P : S → Type 0) (o : Option X) (d : Outcome S A) (f : X → Outcome S A)
    → Leaves P d
    → ((x : X) → Leaves P (f x))
    → Leaves P (elim o [ none ↦ d | some x ↦ f x ])
elim-Leaves P none d f p q = p
elim-Leaves P (some x) d f p q = q x

-- For the calls of a group of instructions, `none` for the others.
abbrev pub MaybeLeaves : {S A : Type 0} → (S → Type 0) → Option (Outcome S A) → Type 0
MaybeLeaves P none = Unit {0}
MaybeLeaves P (some o) = Leaves P o

pub elim-MaybeLeaves :
    {S A X : Type 0} (P : S → Type 0) (o : Option X) (f : X → Outcome S A)
    → ((x : X) → Leaves P (f x))
    → MaybeLeaves P (elim o [ none ↦ none | some x ↦ some (f x) ])
elim-MaybeLeaves P none f q = tt
elim-MaybeLeaves P (some x) f q = q x

-- The accesses of control and status registers change these only.
pub record OnlyCsrs (h t : Hart) : Type 0 where
  pub rest : t ≡ record h { csrs = t.csrs }

module _ (h : Hart) where
  unchanged : OnlyCsrs h h
  unchanged = record { rest = refl }

  changed : (c : CsrTable) → OnlyCsrs h (record h { csrs = c })
  changed c = record { rest = refl }

  module _ (word addr : ℕ) where
    pub is_invalid_csr_access-OnlyCsrs :
        (is_write : Bool) → Leaves (OnlyCsrs h) (is_invalid_csr_access word addr is_write h)
    unfolding is_invalid_csr_access
    is_invalid_csr_access-OnlyCsrs is_write = search (if-Leaves, by_ok, by_trap, unchanged)

    validate-same : Leaves (λ t. t ≡ h) (validate_csr_counter_read_access_rights word addr h)
    unfolding validate_csr_counter_read_access_rights
    validate-same = search (if-Leaves, by_ok, by_trap)

    default_read-OnlyCsrs : Leaves (OnlyCsrs h) (read_default word addr h)
    default_read-OnlyCsrs =
        elim-Leaves (OnlyCsrs h) (default_read32 h.csrs addr) (raise_illegal_instruction word h)
          (λ v. ok v h) (by_trap unchanged) (λ v. by_ok unchanged)

    read_other-OnlyCsrs : Leaves (OnlyCsrs h) (read_other word addr h)
    unfolding read_other
    read_other-OnlyCsrs =
        let last =
          elim-Leaves (OnlyCsrs h) (read_mask addr) (read_default word addr h)
            (λ x. ok (bit_and (read_register h.csrs (x.0)) (x.1)) h) default_read-OnlyCsrs
            (λ x. by_ok unchanged) in
        search (if-Leaves, by_ok, by_trap, unchanged, last) depth 60

    read_switch-OnlyCsrs : (mtime : ℕ) → Leaves (OnlyCsrs h) (read_switch mtime word addr h)
    read_switch-OnlyCsrs mtime =
        elim-Leaves (OnlyCsrs h) (read_counter mtime addr h) (read_other word addr h)
          (λ x. ok (x.0) (record h { csrs = x.1 })) read_other-OnlyCsrs (λ x. by_ok (changed (x.1)))

    write_default-OnlyCsrs : (v : ℕ) → Leaves (OnlyCsrs h) (write_default word addr v h)
    write_default-OnlyCsrs v =
        elim-Leaves (OnlyCsrs h) (default_write32 h.csrs addr v) (raise_illegal_instruction word h)
          (λ c. with_csrs h c) (by_trap unchanged) (λ c. by_ok (changed c))

    pub set_csr_value-OnlyCsrs : (v : ℕ) → Leaves (OnlyCsrs h) (set_csr_value word addr v h)
    unfolding set_csr_value
    set_csr_value-OnlyCsrs v =
        let last =
          elim-Leaves (OnlyCsrs h) (write_mask h.csrs addr) (write_default word addr v h)
            (λ x. with_csrs h (write_masked h.csrs (x.0) (x.1) v)) (write_default-OnlyCsrs v)
            (λ x. by_ok (changed (write_masked h.csrs (x.0) (x.1) v))) in
        search (if-Leaves, by_ok, by_trap, unchanged, changed, last) depth 60

module _ (h : Hart) (mtime word addr : ℕ) where
  validated :
      (o : Outcome Hart (Unit {0}))
      → Leaves (λ t. t ≡ h) o
      → Leaves (OnlyCsrs h) (elim o [
        | ok _ t ↦ read_switch mtime word addr t
        | trap e t ↦ trap e t
        | thrown ↦ thrown
      ])
  validated (ok a t) (by_ok p) =
      subst (λ u. Leaves (OnlyCsrs h) (read_switch mtime word addr u)) (sym p)
        (read_switch-OnlyCsrs h word addr mtime)
  validated (trap e t) (by_trap p) = by_trap (subst (OnlyCsrs h) (sym p) (unchanged h))
  validated thrown by_thrown = by_thrown

  pub get_csr_value-OnlyCsrs : Leaves (OnlyCsrs h) (get_csr_value mtime word addr h)
  unfolding get_csr_value
  get_csr_value-OnlyCsrs =
      validated (validate_csr_counter_read_access_rights word addr h) (validate-same h word addr)
