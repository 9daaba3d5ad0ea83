-- ===== src/Acquisition/Transfer/Ranges.antt =====
-- The answer to a request for the rest of a file.
use data_processing.Prelude.{
  ℕ, String, Option, none, some, false, not, ◌||◌, ◌≡◌, ◌⊎◌, inl, inr, subst, ◌≤◌, ◌+◌, ◌-◌, arith,
  ltb, ◌==◌, if◌then◌else◌,
}
use data_processing.Effect.{Outcome, returned, raised, unfinished}
use data_processing.Acquisition.{Problem, transfer_failure}
use data_processing.Acquisition.Transfer.{
  Numbers, Response, content_length, content_range, check_length,
}
use data_processing.Acquisition.Transfer.Headers.{IsRange}

module _ (numbers : Numbers) (response : Response) (offset total : ℕ) where
  -- The answer names this range of bytes, and its length, if it states one, is that of the range.
  abbrev Follows : Option (ℕ × ℕ × Option ℕ) → Type 0
  Follows range =
      (end : ℕ) × (range ≡ some (offset, end, some total))
      × (offset ≤ end)
      × (total ≡ end + 1)
      × ((content_length numbers response ≡ returned none)
          ⊎ (content_length numbers response ≡ returned (some (total - offset))))

  abbrev pub Continues : Type 0
  Continues =
      (text : String) × (end : ℕ) × (response.content_range ≡ some text)
      × IsRange text offset end total
      × (offset ≤ end)
      × (total ≡ end + 1)
      × ((content_length numbers response ≡ returned none)
          ⊎ (content_length numbers response ≡ returned (some (total - offset))))

  checked :
      (start end t : ℕ) (o : Outcome Problem (Option ℕ))
      → check_length numbers start end t o ≡ returned total
      → (t ≡ total) × ((o ≡ returned none) ⊎ (o ≡ returned (some (end - start + 1))))
  unfolding check_length
  checked start end t (returned none) h = ground (arith, h)
  checked start end t (returned (some n)) h = ground (arith, h)
  checked start end t (raised x) h = absurd (ground (arith, h))
  checked start end t unfinished h = absurd (ground (arith, h))

  -- The tests of the code on a range that was read.
  in_range :
      (range : Option (ℕ × ℕ × Option ℕ))
      → elim range as (λ _. Outcome Problem ℕ) [
        | none ↦ raised (transfer_failure "source_changed" false)
        | some (start, end, none) ↦ raised (transfer_failure "source_changed" false)
        | some (start, end, some t) ↦
            if not (start == offset) || ltb end start
            then raised (transfer_failure "source_changed" false)
            else if not (t == end + 1)
            then raised (transfer_failure "source_changed" false)
            else check_length numbers start end t (content_length numbers response)
      ]
        ≡ returned total
      → Follows range
  in_range none h = absurd (ground (arith, h))
  in_range (some (start, end, none)) h = absurd (ground (arith, h))
  in_range (some (start, end, some t)) h =
      let p : start ≡ offset = ground (arith, h) in
      let (u, l) = checked start end t (content_length numbers response) (ground (arith, h)) in
      let low : start ≤ end = ground (arith, h) in
      let last : t ≡ end + 1 = ground (arith, h) in
      (
        end,
        (λ i. some (p i, end, some (u i))),
        omega (arith, p, low),
        omega (arith, u, last),
        elim l [
          | inl e ↦ inl e
          | inr e ↦ inr (
              subst (λ n. content_length numbers response ≡ returned (some n))
                (omega (arith, p, u, low, last)) e)
        ],
      )
