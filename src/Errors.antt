-- ===== src/Errors.antt =====
-- interop/ports/errors.py and the exceptions of interop/core that a caller reports, with what
-- each carries. A function that may raise returns a `Result`.
use tz_oss_interop.Prelude.{ℕ, ◌≡◌, refl, ◌⊎◌, inl, inr, Option, List, [], ◌∷◌, ◌++◌, sym, ◌∙◌}
use tz_oss_interop.Prelude.Text.{Text}
use tz_oss_interop.Prelude.Int.{ℤ}
use tz_oss_interop.Spec.{Value}

pub data NodeKind : Type 0 where
  source step sink validator : NodeKind

-- interop/ports/outbound/validation.py
pub data ValidationSeverity : Type 0 where
  critical warning : ValidationSeverity

pub record EnergyModelValidationError : Type 0 where
  pub validator : Text
  pub severity : ValidationSeverity
  pub component : Text
  pub name : Text
  pub message : Text
  pub attribute : Option Text
  pub value : Option Value

pub data Error : Type 0 where
  -- `CompositionError`, at each place that raises it
  malformed_reference : (value : Text) → Error
  malformed_param_key : (key : Text) → Error
  duplicated_node : (pipeline node : Text) → Error
  missing_node : (pipeline node : Text) → Error
  unset_param : (pipeline node param : Text) → Error
  boundary_mismatch : (upstream downstream : Text) → Error
  unwired_leg : (upstream downstream : Text) → Error
  chained_reference : (pipeline node param : Text) → Error
  unknown_pipeline : (pipeline : Text) → Error
  step_override_on_chain : Error
  nested_composition : (pipeline : Text) → Error
  -- `FrameworkMismatchError`
  framework_mismatch : (source destination : Text) → Error
  -- `OverrideIndexError`
  override_index : (kind : NodeKind) (index : ℤ) (count : ℕ) → Error
  -- `UserInputError` of the user mappings
  second_producer : (schema : Text) → Error
  missing_mappings : (schema : Text) → Error
  derived_mappings : (pipeline : Text) → Error
  -- `UnexpectedNodeParamsError`, `NodeParamsError`
  unexpected_params : (node : Text) → Error
  invalid_params : (kind : NodeKind) (node : Text) → Error
  -- `ValidationFailedError`, and the `ExceptionGroup` of the validators that crashed
  validation_failed : List EnergyModelValidationError → Error
  validators_crashed : List Text → Error
  -- an `IndexError` of Python, from a subscript out of range
  index_error : Error
  -- the `KeyError` of a kind that names no companion file
  no_companion : Error
  -- the `FileNotFoundError` of a manifest
  unknown_manifest : (name : Text) → Error
  -- `PluginCollisionError`, `PluginInheritanceError`, `MissingAdapterPortError`
  plugin_collision : (category name first_location second_location : Text) → Error
  plugin_inheritance : (category class_name : Text) (expected : ℕ) (location : Text) → Error
  missing_port : (class_name location : Text) → Error
  -- the `TypeError` of a lazy plugin whose module gives no class under its name
  not_a_class : (module_name class_name : Text) → Error
  -- a `KeyError` of Python, from a dict without the key
  missing_key : Error
  -- the `ValueError` of a category whose plugins are in no bucket of pipeline nodes
  not_a_bucket : Error
  -- what code outside the model raised
  raised : (what : ℕ) → Error

pub data Result {κ} (Value : Type κ) : Type κ where
  ok : Value → Result Value
  err : (raised_error : Error) → Result Value

module _ {ℓ κ} {Value : Type ℓ} {Next : Type κ} where
  infixl 5 ◌>>=◌ ◌>>◌
  -- What comes after a statement that may raise.
  abbrev pub ◌>>=◌ : Result Value → (Value → Result Next) → Result Next
  err raised_error >>= next = err raised_error
  ok value >>= next = next value

  abbrev pub ◌>>◌ : Result Value → Result Next → Result Next
  first >> next = first >>= λ _. next

  -- A sequence returns exactly through a value of its first part.
  pub >>=-eq-ok :
      (first : Result Value) (next : Value → Result Next) {last : Next}
      → (first >>= next) ≡ ok last
      → (value : Value) × (first ≡ ok value) × (next value ≡ ok last)
  >>=-eq-ok (err raised_error) next returned = absurd (cc returned)
  >>=-eq-ok (ok value) next returned = (value, refl, returned)

-- To split on a computed result and keep the equation.
pub Result-cases {ℓ} :
    {A : Type ℓ} (r : Result A) → ((e : Error) × (r ≡ err e)) ⊎ ((a : A) × (r ≡ ok a))
Result-cases (ok a) = inr (a, refl)
Result-cases (err e) = inl (e, refl)

pub ok_injective {ℓ} : {A : Type ℓ} {a b : A} → ok a ≡ ok b → a ≡ b
ok_injective h = cc

-- `[f(x) for x in xs]`, stopped by the first exception.
module _ {ℓ κ} {A : Type ℓ} {B : Type κ} where
  abbrev pub map_result : (A → Result B) → List A → Result (List B)
  map_result f [] = ok []
  map_result f (x ∷ xs) = do y ← f x; ys ← map_result f xs; ok (y ∷ ys)

-- `for x in xs: s = f(s, x)`, stopped by the first exception.
module _ {ℓ κ} {A : Type ℓ} {S : Type κ} where
  abbrev pub fold_result : (S → A → Result S) → S → List A → Result S
  fold_result f s [] = ok s
  fold_result f s (x ∷ xs) = f s x >>= λ s'. fold_result f s' xs

module _ {ℓ κ} {A : Type ℓ} {B : Type κ} where
  -- What comes after may be replaced by what does the same.
  pub >>=-cong : (r : Result A) (f g : A → Result B) → ((a : A) → f a ≡ g a) → (r >>= f) ≡ (r >>= g)
  >>=-cong (err e) f g same = refl
  >>=-cong (ok a) f g same = same a

  pub >>=_assoc {μ} :
      {C : Type μ} (r : Result A) (f : A → Result B) (g : B → Result C)
      → ((r >>= f) >>= g) ≡ (r >>= λ a. f a >>= g)
  >>=_assoc (err e) f g = refl
  >>=_assoc (ok a) f g = refl

module _ {ℓ κ} {A : Type ℓ} {S : Type κ} where
  pub fold_result-append :
      (f : S → A → Result S) (s : S) (xs ys : List A)
      → fold_result f s (xs ++ ys) ≡ (fold_result f s xs >>= λ t. fold_result f t ys)
  fold_result-append f s [] ys = refl
  fold_result-append f s (x ∷ xs) ys =
      >>=-cong (f s x) _ _ (λ t. fold_result-append f t xs ys)
      ∙ sym (>>=_assoc (f s x) (λ t. fold_result f t xs) (λ t. fold_result f t ys))

pub >>=-ok {ℓ} : {A : Type ℓ} (r : Result A) → (r >>= ok) ≡ r
>>=-ok (err e) = refl
>>=-ok (ok a) = refl

-- A comprehension over a first value and others returns exactly through a value of each.
pub map_result-eq-ok {ℓ κ} :
    {A : Type ℓ} {B : Type κ} (f : A → Result B) (x : A) (xs : List A) {ys : List B}
    → map_result f (x ∷ xs) ≡ ok ys
    → (y : B) × (rest : List B) × (f x ≡ ok y) × (map_result f xs ≡ ok rest) × (y ∷ rest ≡ ys)
map_result-eq-ok f x xs returned =
    let (y, first, more) = >>=-eq-ok (f x) _ returned in
    let (rest, others, same) = >>=-eq-ok (map_result f xs) _ more in
    (y, rest, first, others, ok_injective same)
