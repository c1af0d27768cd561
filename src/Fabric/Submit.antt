-- ===== src/Fabric/Submit.antt =====
-- internal/fabric/client.go: `SubmitTransactionWithPDC`, with its retries.
use kufi_chain.Prelude.{
  zero, suc, ◌+◌, not, ◌&&◌, is_some, [], ◌∷◌, if◌then◌else◌, ℕ, ◌≤◌, String, ◌≡◌, Bool, true,
  false, some, List, arith,
}
use kufi_chain.Prelude.Int.{ℤ}
use kufi_chain.Prelude.Dict.{Dict}
use kufi_chain.Fabric.Types.{SubmitResult, Proposal, RetryConfig}
use kufi_chain.Fabric.Host.{Float64, Proto, Round}
use kufi_chain.Fabric.Client.{◌⊕◌, proposal_of, submit_once}
use kufi_chain.Fabric.Retry.{is_retryable, Run, Weather, attempts_allowed, submit_with_retry}
use kufi_chain.Fabric.Retry.Bounds.{submit_with_retry_again}

-- What one call of `SubmitTransactionWithPDC` meets; `round p n` is what the network answers to the
-- proposal at the attempt `n`.
pub record Line (Bytes : Type 0) : Type 0 where
  pub acquired : Bool
  pub connected : Bool
  pub round : Proposal → ℕ → Round Bytes
  pub cancelled : ℕ → Bool
  pub context_error : String

module _ {Bytes : Type 0} where
  -- Whether an attempt hands its transaction to the orderer.
  abbrev pub hands_on : Round Bytes → Bool
  hands_on r =
      not (is_some r.proposal_error)
      && not (is_some r.endorse_error)
      && not (is_some r.submit_error)

  -- The ids of the transactions that so many attempts, from the attempt `n` on, hand to the orderer.
  abbrev pub submitted : (ℕ → Round Bytes) → ℕ → ℕ → List String
  submitted round n zero = []
  submitted round n (suc k) =
      let rest = submitted round (n + 1) k in
      if hands_on (round n) then (round n).tx_id ∷ rest else rest

  submitted_twice :
      (round : ℕ → Round Bytes) (k : ℕ)
      → 2 ≤ k
      → hands_on (round 1) ≡ true
      → hands_on (round 2) ≡ true
      → (rest : List String) × (submitted round 1 k ≡ (round 1).tx_id ∷ (round 2).tx_id ∷ rest)
  submitted_twice round zero few one two = absurd (ground arith)
  submitted_twice round (suc zero) few one two = absurd (ground arith)
  submitted_twice round (suc (suc k)) few one two = (submitted round 3 k, ground arith)

module _ (f : Float64) (to_lower : String → String) (p : Proto) (decimal : ℤ → String) where
  abbrev pub weather : Line p.Bytes → Proposal → Weather SubmitResult
  weather line proposal = record {
    acquired = line.acquired;
    connected = line.connected;
    attempt = λ n. submit_once p decimal (line.round proposal n);
    cancelled = line.cancelled;
    context_error = line.context_error;
  }

  -- `SubmitTransactionWithPDC`
  unfoldable pub submit_transaction_with_pdc :
      RetryConfig f.Float
      → Line p.Bytes
      → String
      → Dict String
      → List String
      → List String
      → Run SubmitResult
  submit_transaction_with_pdc cfg line function transient endorsing_orgs args =
      submit_with_retry f to_lower
        (weather line (proposal_of function transient endorsing_orgs args)) cfg

  -- A proposal that was endorsed and handed to the orderer at the first attempt, and whose commit
  -- status then failed with an error that the client takes for transient, is tried again, where a
  -- second attempt is allowed and the context is open. If the second attempt gets as far as the
  -- orderer, one call has handed it two transactions, each under the id of its own attempt.
  pub submit_transaction_with_pdc_again :
      (cfg : RetryConfig f.Float) (line : Line p.Bytes) (function : String)
      (transient : Dict String) (orgs args : List String) (e : String)
      → line.acquired ≡ true
      → line.connected ≡ true
      → hands_on (line.round (proposal_of function transient orgs args) 1) ≡ true
      → (line.round (proposal_of function transient orgs args) 1).status_error ≡ some e
      → is_retryable to_lower ("failed to get commit status: " ⊕ e) ≡ true
      → line.cancelled 1 ≡ false
      → 2
        ≤ attempts_allowed f to_lower (weather line (proposal_of function transient orgs args)) cfg
      → hands_on (line.round (proposal_of function transient orgs args) 2) ≡ true
      → let round = line.round (proposal_of function transient orgs args) in
        let tries = (submit_transaction_with_pdc cfg line function transient orgs args).tries in
        (2 ≤ tries)
        × ((rest : List String) × (submitted round 1 tries
              ≡ (round 1).tx_id ∷ (round 2).tx_id ∷ rest))
  unfolding submit_transaction_with_pdc submit_once
  submit_transaction_with_pdc_again cfg line function transient orgs args e slot up first late again
        alive allowed second =
      let proposal = proposal_of function transient orgs args in
      let tries =
        submit_with_retry_again f to_lower (weather line proposal) cfg
          ("failed to get commit status: " ⊕ e) slot up (ground (arith, first, late)) again alive
          allowed in
      (
        tries,
        submitted_twice (line.round proposal)
            (submit_with_retry f to_lower (weather line proposal) cfg).tries tries first second,
      )
