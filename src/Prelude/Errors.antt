-- ===== src/Prelude/Errors.antt =====
-- Code that may raise: the exception class, with the text of its message.
use Prim.Native.String.{String, ◌++◌}
use mathlib.Core.Path.{◌≡◌, refl}
use mathlib.Core.Logic.{◌⊎◌, inl, inr}
use mathlib.Core.Bool.{Bool, true, false}

pub data Error : Type 0 where
  value_error key_error runtime_error domain_invariant_error : String → Error
  capacity_planning_error invalid_transition bundle_inspection_error type_error : String → Error
  -- With its code.
  backup_catalog_error : String → String → Error
  integrity_error : String → Error

pub data Result {ℓ} (V : Type ℓ) : Type ℓ where
  err : Error → Result V
  ok : V → Result V

module _ {ℓ κ} {V : Type ℓ} {W : Type κ} where
  infixl 5 ◌>>=◌
  -- The statements that follow one that may raise: none of them runs if it does.
  abbrev pub ◌>>=◌ : Result V → (V → Result W) → Result W
  ◌>>=◌ first next = elim first [ ok v ↦ next v | err raised ↦ err raised ]

module _ {κ} {W : Type κ} where
  infixl 5 ◌>>◌
  abbrev pub ◌>>◌ : Result (Unit {0}) → Result W → Result W
  ◌>>◌ check next = check >>= (λ _. next)

-- `if test: raise error`
abbrev pub raise_if : Bool → Error → Result (Unit {0})
raise_if false raised = ok tt
raise_if true raised = err raised

pub Result-cases {ℓ} :
    {V : Type ℓ} (r : Result V) → ((v : V) × (r ≡ ok v)) ⊎ ((e : Error) × (r ≡ err e))
Result-cases (ok v) = inl (v, refl)
Result-cases (err e) = inr (e, refl)

-- `str(exc)`
abbrev pub message_of : Error → String
message_of (Error.value_error text) = text
message_of (Error.key_error text) = text
message_of (Error.runtime_error text) = text
message_of (Error.domain_invariant_error text) = text
message_of (Error.capacity_planning_error text) = text
message_of (Error.invalid_transition text) = text
message_of (Error.bundle_inspection_error text) = text
message_of (Error.type_error text) = text
message_of (Error.backup_catalog_error code text) = text
message_of (Error.integrity_error text) = text

-- `f"{type(exc).__name__}: {exc}"`
abbrev pub described : Error → String
described (Error.value_error text) = "ValueError: " ++ text
described (Error.key_error text) = "KeyError: " ++ text
described (Error.runtime_error text) = "RuntimeError: " ++ text
described (Error.domain_invariant_error text) = "DomainInvariantError: " ++ text
described (Error.capacity_planning_error text) = "CapacityPlanningError: " ++ text
described (Error.invalid_transition text) = "InvalidStateTransition: " ++ text
described (Error.bundle_inspection_error text) = "BundleInspectionError: " ++ text
described (Error.type_error text) = "TypeError: " ++ text
described (Error.backup_catalog_error code text) = "BackupCatalogError: " ++ text
described (Error.integrity_error text) = "IntegrityError: " ++ text

-- A statement about the value, if nothing is raised.
abbrev pub OnOk {ℓ} : {V : Type ℓ} → (V → Type 0) → Result V → Type 0
OnOk Holds (ok v) = Holds v
OnOk Holds (err e) = Unit

pub bind-OnOk {ℓ κ} :
    {V : Type ℓ} {W : Type κ} (Holds : W → Type 0) (r : Result V) (f : V → Result W)
    → ((v : V) → r ≡ ok v → OnOk Holds (f v))
    → OnOk Holds (r >>= f)
bind-OnOk Holds (ok v) f h = h v refl
bind-OnOk Holds (err e) f h = tt
