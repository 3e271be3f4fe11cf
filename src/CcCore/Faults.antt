-- ===== src/CcCore/Faults.antt =====
-- Checks that report the first fault that they meet: Go's `if err != nil { return err }`.
use open_voip.Base.{String, ◌≡◌, ◌↔◌, refl, if◌then◌else◌, Bool, true, false, Option, none, some}
use open_voip.Errs.{ApiError, invalid_request_error}

abbrev pub fault : String → Option ApiError
fault message = some (invalid_request_error message)

-- `if err := f(); err != nil { return err }` and what follows it.
abbrev pub first_fault : Option ApiError → Option ApiError → Option ApiError
first_fault none later = later
first_fault (some e) later = some e

pub first_fault-none :
    (a b : Option ApiError) → (first_fault a b ≡ none) ↔ ((a ≡ none) × (b ≡ none))
first_fault-none none b = (λ h. (refl, h), λ h. h.1)
first_fault-none (some e) b = (λ h. absurd (cc h), λ h. absurd (cc h.0))

pub guard-none :
    (b : Bool) (message : String) (rest : Option ApiError)
    → ((if b then fault message else rest) ≡ none) ↔ ((b ≡ false) × (rest ≡ none))
guard-none true message rest = (λ h. absurd (cc h), λ h. absurd (cc h.0))
guard-none false message rest = (λ h. (refl, h), λ h. h.1)

-- Past a test that may report a fault.
pub otherwise :
    {G : Type 0} (b : Bool) (x y : Option ApiError)
    → (if b then x else y) ≡ none
    → (b ≡ true → G)
    → (b ≡ false → y ≡ none → G)
    → G
otherwise true x y h here later = here refl
otherwise false x y h here later = later refl h
