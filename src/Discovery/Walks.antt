-- ===== src/Discovery/Walks.antt =====
-- Parts of a walk that may fail or be missing, and that each does what the registrations that it
-- asks for do.
use tz_oss_interop.Prelude.{
  Bool, true, false, Option, none, some, List, [], ◌∷◌, ◌++◌, if◌then◌else◌, map, ◌≡◌, refl, sym,
  ap, ◌∙◌,
}
use tz_oss_interop.Prelude.Text.{text_eq}
use tz_oss_interop.Errors.{Result, ok, err, ◌>>=◌, >>=-cong, fold_result, fold_result-append}
use tz_oss_interop.Discovery.{Registry}
use tz_oss_interop.Discovery.Contract.{Registration, failing, register}

-- What a part of a walk asks for, where reading it may fail.
unfoldable pub asked {ℓ} : {A : Type ℓ} → (A → List Registration) → Result A → List Registration
asked ask (err e) = failing e ∷ []
asked ask (ok a) = ask a

unfoldable pub asked_each {ℓ} : {A : Type ℓ} → (A → List Registration) → List A → List Registration
asked_each ask [] = []
asked_each ask (a ∷ rest) = ask a ++ asked_each ask rest

unfoldable pub asked_if {ℓ} : {A : Type ℓ} → (A → List Registration) → Option A → List Registration
asked_if ask none = []
asked_if ask (some a) = ask a

-- A walk does what the registrations that it asks for do.
pub record Walks (walk : Registry → Result Registry) (registrations : List Registration)
    : Type 0 where
  pub walks : (registry : Registry) → walk registry ≡ fold_result register registry registrations

pub Walks-nothing : Walks (λ registry. ok registry) []
Walks-nothing = record { walks = λ registry. refl }

pub Walks->>= :
    (first next : Registry → Result Registry) {xs ys : List Registration}
    → Walks first xs
    → Walks next ys
    → Walks (λ registry. first registry >>= next) (xs ++ ys)
Walks->>= first next {xs = xs} {ys = ys} one two = record {
  walks = λ registry.
      ap (λ r. r >>= next) (one.walks registry)
      ∙ >>=-cong (fold_result register registry xs) next _ two.walks
      ∙ sym (fold_result-append register registry xs ys);
}

pub Walks-each {ℓ} :
    {A : Type ℓ} (step : Registry → A → Result Registry) (ask : A → List Registration)
    → ((a : A) → Walks (λ registry. step registry a) (ask a))
    → (xs : List A) → Walks (λ registry. fold_result step registry xs) (asked_each ask xs)
unfolding asked_each
Walks-each step ask each [] = Walks-nothing
Walks-each step ask each (x ∷ xs) =
    Walks->>= (λ registry. step registry x) (λ registry. fold_result step registry xs) (each x)
      (Walks-each step ask each xs)

pub Walks-map {ℓ} :
    {A : Type ℓ} (step : Registry → A → Result Registry) (f : A → Registration)
    → ((a : A) (registry : Registry) → step registry a ≡ register registry (f a))
    → (xs : List A) → Walks (λ registry. fold_result step registry xs) (map f xs)
Walks-map step f same [] = Walks-nothing
Walks-map step f same (x ∷ xs) = record {
  walks = λ registry.
      ap (λ r. r >>= λ next. fold_result step next xs) (same x registry)
      ∙ >>=-cong (register registry (f x)) _ _ (Walks-map step f same xs).walks;
}

pub Walks-if {ℓ} :
    {A : Type ℓ} (walk : A → Registry → Result Registry) (ask : A → List Registration)
    → ((a : A) → Walks (walk a) (ask a))
    → (o : Option A)
    → Walks (λ registry. elim o [ none ↦ ok registry | some a ↦ walk a registry ]) (asked_if ask o)
unfolding asked_if
Walks-if walk ask each none = Walks-nothing
Walks-if walk ask each (some a) = each a

pub Walks-of {ℓ} :
    {A : Type ℓ} (walk : A → Registry → Result Registry) (ask : A → List Registration)
    → ((a : A) → Walks (walk a) (ask a))
    → (r : Result A) → Walks (λ registry. r >>= λ a. walk a registry) (asked ask r)
unfolding asked
Walks-of walk ask each (err e) = record { walks = λ registry. unfold register in refl }
Walks-of walk ask each (ok a) = each a

pub Walks-unless :
    (skipped : Bool) (walk : Registry → Result Registry) {xs : List Registration}
    → Walks walk xs
    → Walks
        (λ registry. if skipped then ok registry else walk registry)
        (if skipped then [] else xs)
Walks-unless true walk walks = Walks-nothing
Walks-unless false walk walks = walks
