-- ===== src/Http.antt =====
-- Errors as values: the NestJS exceptions that the services throw, and results that may be one.
-- `billing_stop` is apps/api/src/billing/billing-stop.ts.
use optra.Prelude.{ℕ, Bool, true, false, String, ◌≡◌, refl, ◌⊎◌, inl, inr}

pub data BillingQuota : Type 0 where
  matched_lines photo_checks : BillingQuota

pub data BillingStop : Type 0 where
  subscription_required ai_budget_exceeded : BillingStop
  quota_exceeded : BillingQuota → BillingStop

pub data HttpError : Type 0 where
  bad_request unauthorized payment_required forbidden not_found conflict : String → HttpError
  unprocessable too_many_requests service_unavailable internal : String → HttpError
  billing_stop : BillingStop → HttpError

unfoldable pub status_of : HttpError → ℕ
status_of (bad_request _) = 400
status_of (unauthorized _) = 401
status_of (billing_stop _) = 402
status_of (payment_required _) = 402
status_of (forbidden _) = 403
status_of (not_found _) = 404
status_of (conflict _) = 409
status_of (unprocessable _) = 422
status_of (too_many_requests _) = 429
status_of (internal _) = 500
status_of (service_unavailable _) = 503

pub data Result {ℓ} (A : Type ℓ) : Type ℓ where
  ok : A → Result A
  fail : HttpError → Result A

infixl 5 ◌>>=◌ ◌>>◌
abbrev pub ◌>>=◌ {ℓ κ} : {A : Type ℓ} {B : Type κ} → Result A → (A → Result B) → Result B
ok a >>= f = f a
fail e >>= f = fail e

abbrev pub ◌>>◌ {ℓ} : {B : Type ℓ} → Result (Unit {0}) → Result B → Result B
m >> k = m >>= λ _. k

-- if (!condition) throw error
abbrev pub guard : Bool → HttpError → Result (Unit {0})
guard true e = ok tt
guard false e = fail e

pub Result-cases {ℓ} :
    {A : Type ℓ} (r : Result A) → ((e : HttpError) × (r ≡ fail e)) ⊎ ((a : A) × (r ≡ ok a))
Result-cases (ok a) = inr (a, refl)
Result-cases (fail e) = inl (e, refl)
