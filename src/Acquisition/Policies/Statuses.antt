-- ===== src/Acquisition/Policies/Statuses.antt =====
-- How `_default_status_classifier` classifies an answer.
use data_processing.Prelude.{
  ℕ, Bool, true, false, ◌||◌, ◌&&◌, ◌≡◌, ◌⊎◌, ◌↔◌, ◌≤◌, refl, arith, str_eq, leb, ◌==◌,
  if◌then◌else◌,
}
use data_processing.Acquisition.Policies.{RetryClassification, classify_status}

tested :
    (P : RetryClassification → Type 0) (b : Bool) (x y : RetryClassification)
    → (b ≡ true → P x)
    → (b ≡ false → P y)
    → P (if b then x else y)
tested P true x y f g = f refl
tested P false x y f g = g refl

module _ (status : ℕ) where
  Successful : RetryClassification → Type 0
  Successful c = (str_eq c.category "success" ≡ true) ↔ ((200 ≤ status) × (status ≤ 299))

  fails :
      (c : RetryClassification)
      → str_eq c.category "success" ≡ false
      → ((200 ≤ status) × (status ≤ 299) → ⊥)
      → Successful c
  unfolding Successful
  fails c n f = ((λ h. absurd (ground (arith, h, n))), (λ h. absurd (f h)))

  succeeds :
      (c : RetryClassification)
      → str_eq c.category "success" ≡ true
      → (200 ≤ status) × (status ≤ 299)
      → Successful c
  unfolding Successful
  succeeds c n r = ((λ _. r), (λ _. n))

  success_iff : Successful (classify_status status)
  unfolding classify_status
  success_iff =
      tested Successful (status == 401) _ _ (λ h. fails _ refl (λ r. ground (arith, h, r)))
        λ _.
          tested Successful (status == 403) _ _ (λ h. fails _ refl (λ r. ground (arith, h, r)))
            λ _.
              tested Successful (status == 404 || status == 410) _ _
                (λ h. fails _ refl (λ r. ground (arith, h, r)))
                λ _.
                  tested Successful (status == 429) _ _
                    (λ h. fails _ refl (λ r. ground (arith, h, r)))
                    λ _.
                      tested Successful
                        ((status == 408 || status == 425) || (leb 500 status && leb status 599)) _ _
                        (λ h. fails _ refl (λ r. ground (arith, h, r)))
                        λ _.
                          tested Successful (leb 200 status && leb status 299) _ _
                            (λ h. succeeds _ refl (ground (arith, h)))
                            (λ h. fails _ refl (λ r. ground (arith, h, r)))

-- An answer is a success exactly with a status from 200 to 299, and may be tried again exactly with 408,
-- 425, 429 or a status from 500 to 599.
pub classify_status-success :
    (status : ℕ)
    → ((str_eq (classify_status status).category "success" ≡ true)
        ↔ ((200 ≤ status) × (status ≤ 299)))
      × (((classify_status status).retryable ≡ true) ↔ (
          (status ≡ 408) ⊎ ((status ≡ 425) ⊎ ((status ≡ 429) ⊎ ((500 ≤ status) × (status ≤ 599))))))
unfolding classify_status Successful
classify_status-success status =
    (success_iff status, ((λ h. ground (arith, h)), (λ h. ground (arith, h))))
