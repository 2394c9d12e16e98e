-- ===== src/Requests/Retry.antt =====
-- ProposeWithRetry ends.
use mathlib.Core.Path.{subst}
use kingbus.Common.{
  ℕ, zero, suc, ◌+◌, ◌-◌, ◌≤◌, ◌<◌, ◌≡◌, ◌≢◌, Bool, true, false, Option, none, some, arith, ltb,
  leb, Bool-cases, Option-cases, inl, inr, Error,
}
use kingbus.Requests.{
  Proposal, accepted, lost_lead, gave_up, propose_max_retry_count, propose_from, propose_with_retry,
}

-- The first k proposals were made while the server led, and failed.
abbrev pub Failed : (ℕ → Bool) → (ℕ → Option Error) → ℕ → Type 0
Failed leads answer k = (j : ℕ) → j < k → (leads j ≡ true) × (answer j ≢ none)

-- What happened where the retries ended so.
abbrev pub Explains : (ℕ → Bool) → (ℕ → Option Error) → Proposal → Type 0
Explains leads answer (accepted k) =
    (k < propose_max_retry_count) × (Failed leads answer k × ((leads k ≡ true) × (answer k ≡ none)))
Explains leads answer (lost_lead k) =
    (k < propose_max_retry_count) × (Failed leads answer k × (leads k ≡ false))
Explains leads answer (gave_up e) =
    Failed leads answer propose_max_retry_count × (answer (propose_max_retry_count - 1) ≡ some e)

module _ (leads : ℕ → Bool) (answer : ℕ → Option Error) where
  Failed-suc :
      (k : ℕ) (e : Error)
      → Failed leads answer k
      → leads k ≡ true
      → answer k ≡ some e
      → Failed leads answer (k + 1)
  Failed-suc k e f l a j lt = elim (Bool-cases (ltb j k)) [
    | inl before ↦ f j (ground (arith, before))
    | inr last ↦ let at : j ≡ k = ground (arith, last, lt) in rw at (l, λ q. cc)
  ]

  retry :
      (fuel k : ℕ)
      → k < propose_max_retry_count
      → propose_max_retry_count ≤ k + fuel
      → Failed leads answer k
      → (p : Proposal) × ((propose_from leads answer fuel k ≡ some p) × Explains leads answer p)
  unfolding propose_from
  retry zero k lt le f = absurd (omega arith)
  retry (suc fuel) k lt le f = elim (Bool-cases (leads k)) [
    | inr lost ↦ (lost_lead k, (ground (arith, lost, lt), (lt, (f, lost))))
    | inl l ↦ elim (Option-cases (answer k)) [
      | inl none_left ↦ (accepted k, (ground (arith, l, none_left, lt), (lt, (f, (l, none_left)))))
      | inr (e, a) ↦ elim (Bool-cases (leb propose_max_retry_count (k + 1))) [
        | inl over ↦
            let at : k ≡ propose_max_retry_count - 1 = ground (arith, over, lt) in
            (
              gave_up e,
              (
                ground (arith, l, a, lt, over),
                (
                  subst (λ n. Failed leads answer n) {x = k + 1} (omega (arith, at))
                      (Failed-suc k e f l a),
                  subst (λ n. answer n ≡ some e) at a,
                ),
              ),
            )
        | inr more ↦
            let (p, (run, why)) =
              retry fuel (k + 1) (ground (arith, more)) (omega arith) (Failed-suc k e f l a) in
            (p, (ground (arith, l, a, lt, more, run), why))
      ]
    ]
  ]

  -- ProposeWithRetry ends, whenever the server leads and whatever each proposal answers, and how it
  -- ends says why: a proposal is accepted behind fewer than 1000 that failed; or the lead is lost
  -- behind fewer than 1000 that failed; or 1000 have failed, and the error is that of the last.
  pub propose_with_retry-ends :
      (p : Proposal) × ((propose_with_retry leads answer ≡ some p) × Explains leads answer p)
  unfolding propose_with_retry
  propose_with_retry-ends =
      retry (suc propose_max_retry_count) 0 (omega arith) (omega arith)
        (λ j lt. absurd (omega arith))
