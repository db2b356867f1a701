-- ===== src/Prelude/Results.antt =====
-- What holds of the result of a computation that may give none.
use Prim.Native.Nat.{ℕ, zero, suc}
use mathlib.Core.List.{List, [], ◌∷◌}
use mathlib.Core.Path.{◌≡◌, refl, sym, subst}
use mathlib.Core.Option.{Option, none, some, some-injective}
use mathlib.Core.Bool.{Bool, true, false}
use robot_arm_2d.Prelude.Tests.{◌>>=◌, if◌then◌else◌}
use robot_arm_2d.Prelude.Lists.{All, get_elem?}

-- The result, if there is one, is in `P`.
abbrev pub Holds {ℓ κ} : {A : Type ℓ} → (A → Type κ) → Option A → Type κ
Holds P none = Unit
Holds P (some a) = P a

pub Holds-bind {ℓ κ ℓ' κ'} :
    {A : Type ℓ} {B : Type ℓ'} (P : A → Type κ) (Q : B → Type κ') (o : Option A) (f : A → Option B)
    → Holds P o
    → ((a : A) → P a → Holds Q (f a))
    → Holds Q (o >>= f)
Holds-bind P Q none f h k = tt
Holds-bind P Q (some a) f h k = k a h

pub Holds-then {ℓ ℓ' κ'} :
    {A : Type ℓ} {B : Type ℓ'} (Q : B → Type κ') (o : Option A) (f : A → Option B)
    → ((a : A) → Holds Q (f a))
    → Holds Q (o >>= f)
Holds-then Q none f k = tt
Holds-then Q (some a) f k = k a

pub Holds-all {ℓ κ} : {A : Type ℓ} (P : A → Type κ) (o : Option A) → ((a : A) → P a) → Holds P o
Holds-all P none h = tt
Holds-all P (some a) h = h a

pub Holds-some {ℓ κ} :
    {A : Type ℓ} (P : A → Type κ) (o : Option A) (a : A) → Holds P o → o ≡ some a → P a
Holds-some P none a h e = absurd (cc)
Holds-some P (some b) a h e = subst P (some-injective b a e) h

-- An element of a list whose elements are all in `P`.
pub Holds-get_elem {ℓ κ} :
    {A : Type ℓ} (P : A → Type κ) (xs : List A) (i : ℕ) → All P xs → Holds P (get_elem? xs i)
Holds-get_elem P [] i h = tt
Holds-get_elem P (x ∷ xs) zero (p, h) = p
Holds-get_elem P (x ∷ xs) (suc i) (_, h) = Holds-get_elem P xs i h

-- No condition.
abbrev pub Anything {ℓ} : {A : Type ℓ} → A → Type 0
Anything a = Unit

-- There is a result, and it is in `P`.
pub data Gives {ℓ κ} {A : Type ℓ} (P : A → Type κ) : Option A → Type (ℓ ⊔ κ) where
  gives : {a : A} → P a → Gives P (some a)

pub Gives-any {ℓ} : {A : Type ℓ} (a : A) → Gives Anything (some a)
Gives-any a = gives tt

module _ {ℓ κ} {A : Type ℓ} {P : A → Type κ} where
  pub Gives-bind {ℓ' κ'} :
      {B : Type ℓ'} {Q : B → Type κ'} {o : Option A} {f : A → Option B}
      → Gives P o
      → ((a : A) → P a → Gives Q (f a))
      → Gives Q (o >>= f)
  Gives-bind (gives p) k = k _ p

  pub Gives-map {κ'} :
      {Q : A → Type κ'} {o : Option A} → Gives P o → ((a : A) → P a → Q a) → Gives Q o
  Gives-map (gives p) k = gives (k _ p)

  pub Gives-result : {o : Option A} → Gives P o → (a : A) × (o ≡ some a) × P a
  Gives-result (gives p) = (_, refl, p)

  pub Gives-eq : {o : Option A} {a : A} → o ≡ some a → P a → Gives P o
  Gives-eq {o} e p = subst (Gives P) (sym e) (gives p)

  pub Gives-if :
      {o₁ o₂ : Option A} (b : Bool)
      → (b ≡ true → Gives P o₁)
      → (b ≡ false → Gives P o₂)
      → Gives P (if b then o₁ else o₂)
  Gives-if true h k = h refl
  Gives-if false h k = k refl

  pub Gives-true :
      {o₁ : Option A} (b : Bool) (o₂ : Option A)
      → b ≡ true
      → Gives P o₁
      → Gives P (if b then o₁ else o₂)
  Gives-true true o₂ e h = h
  Gives-true false o₂ e h = absurd (cc)

  pub Gives-missing {ℓ'} :
      {B : Type ℓ'} {x : Option A} (o : Option B) (f : B → Option A)
      → o ≡ none
      → Gives P x
      → Gives P (elim o [ none ↦ x | some b ↦ f b ])
  Gives-missing none f e h = h
  Gives-missing (some b) f e h = absurd (cc)

module _ {ℓ κ} {A : Type ℓ} (P : A → Type κ) where
  pub Holds-if :
      (b : Bool) (o₁ o₂ : Option A) → Holds P o₁ → Holds P o₂ → Holds P (if b then o₁ else o₂)
  Holds-if true o₁ o₂ h k = h
  Holds-if false o₁ o₂ h k = k

  pub Holds-true :
      (b : Bool) (o₁ o₂ : Option A) → b ≡ true → Holds P o₁ → Holds P (if b then o₁ else o₂)
  Holds-true true o₁ o₂ e h = h
  Holds-true false o₁ o₂ e h = absurd (cc)

  pub Holds-missing {ℓ'} :
      {B : Type ℓ'} (o : Option B) (x : Option A) (f : B → Option A)
      → o ≡ none
      → Holds P x
      → Holds P (elim o [ none ↦ x | some b ↦ f b ])
  Holds-missing none x f e h = h
  Holds-missing (some b) x f e h = absurd (cc)

  pub Holds-cases {ℓ'} :
      {B : Type ℓ'} (o : Option B) (x : Option A) (f : B → Option A)
      → Holds P x
      → ((b : B) → Holds P (f b))
      → Holds P (elim o [ none ↦ x | some b ↦ f b ])
  Holds-cases none x f h k = h
  Holds-cases (some b) x f h k = k b

pub Holds-never {ℓ} : {A : Type ℓ} (o : Option A) → Holds (λ _. ⊥) o → o ≡ none
Holds-never none h = refl
Holds-never (some a) h = absurd h
