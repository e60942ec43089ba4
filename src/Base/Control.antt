-- ===== src/Base/Control.antt =====
-- The outcome of code that may panic. A panic ends the call and the host discards its writes, so a
-- call that panics has no new state.
use mathlib.Core.Path.{◌≡◌, refl, subst}
use mathlib.Core.Bool.{Bool, true, false}
use mathlib.Core.Option.{Option, none, some}
use mathlib.Core.Logic.{◌⊎◌, inl, inr}
use blend_contracts.Base.Tests.{if◌then◌else◌}
use blend_contracts.Base.Errors.{Panic, unwrapped}

pub data Outcome {ℓ} (A : Type ℓ) : Type ℓ where
  ok : A → Outcome A
  panic : Panic → Outcome A

infixl 5 ◌>>=◌ ◌>>◌
-- The next step of code, with the result of the first.
abbrev pub ◌>>=◌ {ℓ κ} : {X : Type ℓ} {Y : Type κ} → Outcome X → (X → Outcome Y) → Outcome Y
panic reason >>= next = panic reason
ok x >>= next = next x

-- The same for a check, which has no result.
abbrev pub ◌>>◌ {κ} : {Y : Type κ} → Outcome (Unit {0}) → Outcome Y → Outcome Y
check >> next = check >>= λ nothing. next

-- Panics with `p` unless the test passes.
abbrev pub guard : Bool → Panic → Outcome (Unit {0})
guard true p = ok tt
guard false p = panic p

-- Panics with `p` if the test passes.
abbrev pub panic_if : Bool → Panic → Outcome (Unit {0})
panic_if true p = panic p
panic_if false p = ok tt

abbrev pub or_panic {ℓ} : {A : Type ℓ} → Panic → Option A → Outcome A
or_panic p none = panic p
or_panic p (some a) = ok a

-- `unwrap_optimized`.
abbrev pub unwrap {ℓ} : {A : Type ℓ} → Option A → Outcome A
unwrap none = panic unwrapped
unwrap (some a) = ok a

-- A chain that gives a result has a first step that gives one.
pub >>=-eq-ok {ℓ κ} :
    {X : Type ℓ} {Y : Type κ} (first : Outcome X) (next : X → Outcome Y) {y : Y}
    → (first >>= next) ≡ ok y
    → (x : X) × (first ≡ ok x) × (next x ≡ ok y)
>>=-eq-ok (ok x) next chain = (x, refl, chain)
>>=-eq-ok (panic p) next chain = cc

pub Outcome-cases {ℓ} :
    {A : Type ℓ} (o : Outcome A) → ((a : A) × (o ≡ ok a)) ⊎ ((p : Panic) × (o ≡ panic p))
Outcome-cases (ok a) = inl (a, refl)
Outcome-cases (panic p) = inr (p, refl)

-- A postcondition: every result satisfies `P`. One rule for each way to go on.
pub record Ensures {ℓ κ} {A : Type ℓ} (P : A → Type κ) (o : Outcome A) : Type (ℓ ⊔ κ) where
  pub at : (a : A) → o ≡ ok a → P a

module _ {ℓ κ} {A : Type ℓ} {P : A → Type κ} where
  pub Ensures-ok : (a : A) → P a → Ensures P (ok a)
  Ensures-ok a h = record { at = λ b e. subst P (ok-injective a b e) h }
    where
      ok-injective : (a b : A) → ok a ≡ ok b → a ≡ b
      ok-injective a b e = cc

  pub Ensures-panic : (p : Panic) → Ensures P (panic p)
  Ensures-panic p = record { at = λ b e. absurd (cc e) }

  pub Ensures-panic_if :
      (b : Bool) (p : Panic) (k : Outcome A)
      → (b ≡ false → Ensures P k)
      → Ensures P (panic_if b p >> k)
  Ensures-panic_if true p k h = Ensures-panic p
  Ensures-panic_if false p k h = h refl

  pub Ensures-if :
      (b : Bool) (m n : Outcome A)
      → (b ≡ true → Ensures P m)
      → (b ≡ false → Ensures P n)
      → Ensures P (if b then m else n)
  Ensures-if true m n h k = h refl
  Ensures-if false m n h k = k refl

  pub Ensures-bool :
      (b : Bool) (m n : Outcome A)
      → (b ≡ true → Ensures P m)
      → (b ≡ false → Ensures P n)
      → Ensures P (elim b [ true ↦ m | false ↦ n ])
  Ensures-bool true m n h k = h refl
  Ensures-bool false m n h k = k refl

module _ {ℓ κ μ} {A : Type ℓ} {B : Type κ} {P : B → Type μ} where
  pub Ensures-option :
      (o : Option A) (n : Outcome B) (f : A → Outcome B)
      → (o ≡ none → Ensures P n)
      → ((a : A) → o ≡ some a → Ensures P (f a))
      → Ensures P (elim o [ none ↦ n | some a ↦ f a ])
  Ensures-option none n f h k = h refl
  Ensures-option (some a) n f h k = k a refl

  pub Ensures-bind :
      (m : Outcome A) (f : A → Outcome B)
      → ((a : A) → m ≡ ok a → Ensures P (f a))
      → Ensures P (m >>= f)
  Ensures-bind (ok a) f h = h a refl
  Ensures-bind (panic p) f h = Ensures-panic p

-- A call that panics leaves the storage as it was.
unfoldable pub settle {ℓ} : {S : Type ℓ} → Outcome S → S → S
settle (ok s') s = s'
settle (panic p) s = s

pub settle_keeps {ℓ κ} :
    {S : Type ℓ} (P : S → Type κ) (o : Outcome S) (s : S) → P s → Ensures P o → P (settle o s)
unfolding settle
settle_keeps P (ok s') s inv h = h.at s' refl
settle_keeps P (panic p) s inv h = inv

pub or_panic_ok {ℓ} :
    {A : Type ℓ} (p : Panic) (o : Option A) {a : A} → or_panic p o ≡ ok a → o ≡ some a
or_panic_ok p none h = cc
or_panic_ok p (some a) h = cc

pub unwrap_ok {ℓ} : {A : Type ℓ} (o : Option A) {a : A} → unwrap o ≡ ok a → o ≡ some a
unwrap_ok none h = cc
unwrap_ok (some b) h = cc
