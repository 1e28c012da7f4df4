-- ===== src/Base/Errors.antt =====
-- Code that may raise returns a `Result`. The class of the exception is kept, its text is not.
use mathlib.Core.Path.{◌≡◌, refl}
use mathlib.Core.Logic.{◌⊎◌, inl, inr}
use mathlib.Core.Bool.{Bool, true, false}
use mathlib.Core.List.{List, [], ◌∷◌}

-- `PlanValidationError` is a subclass of `ValueError`, `ToolStateConflictError` one of `RuntimeError`.
pub data Error : Type 0 where
  value_error plan_validation_error core_invariant_error runtime_error tool_state_conflict key_error
        boundary_commit_error :
      Error

pub data Result {ℓ} (Value : Type ℓ) : Type ℓ where
  err : Error → Result Value
  ok : Value → Result Value

-- `if not test: raise error`
abbrev pub guard : Bool → Error → Result (Unit {0})
guard false error = err error
guard true error = ok tt

infixl 5 ◌>>=◌
infixl 5 ◌>>◌
-- An exception passes by all that follows.
abbrev pub ◌>>=◌ {ℓ κ} : {V : Type ℓ} {W : Type κ} → Result V → (V → Result W) → Result W
err error >>= next = err error
ok value >>= next = next value

-- `tuple(f(value) for value in values)`, where `f` may raise
unfoldable pub traverse {ℓ κ} :
    {V : Type ℓ} {W : Type κ} → (V → Result W) → List V → Result (List W)
traverse f [] = ok []
traverse f (x ∷ xs) = do y ← f x; ys ← traverse f xs; ok (y ∷ ys)

module _ {ℓ κ} {V : Type ℓ} {W : Type κ} where
  -- What a call that returns says of its first step.
  pub >>=-eq-ok :
      (first : Result V) (next : V → Result W) {w : W}
      → (first >>= next) ≡ ok w
      → (v : V) × (first ≡ ok v) × (next v ≡ ok w)
  >>=-eq-ok (err error) next h = cc
  >>=-eq-ok (ok v) next h = (v, refl, h)

  -- The same, handed to what uses it: the value in between is a variable there.
  pub on_ok {μ} :
      {C : Type μ} (first : Result V) (next : V → Result W) {w : W}
      → (first >>= next) ≡ ok w
      → ((v : V) → first ≡ ok v → next v ≡ ok w → C)
      → C
  on_ok (err error) next h use_it = absurd (cc)
  on_ok (ok v) next h use_it = use_it v refl h

pub Result-cases {ℓ} :
    {V : Type ℓ} (result : Result V)
    → ((error : Error) × (result ≡ err error)) ⊎ ((v : V) × (result ≡ ok v))
Result-cases (err error) = inl (error, refl)
Result-cases (ok v) = inr (v, refl)

abbrev pub ◌>>◌ {κ} : {W : Type κ} → Result (Unit {0}) → Result W → Result W
test >> next = test >>= λ _. next

pub ok_injective {ℓ} : {V : Type ℓ} {v w : V} → ok v ≡ ok w → v ≡ w
ok_injective h = cc
