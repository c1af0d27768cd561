-- ===== src/Api/Gateway/Runs.antt =====
-- What one transfer request does to the stores, and runs of requests and rounds of the cleanups.
use kufi_chain.Prelude.{String, ◌≡◌, refl, ◌≢◌, inl, inr, List, [], ◌∷◌, arith, ap, ◌∙◌}
use kufi_chain.Prelude.Int.{ℤ, ◌≤ℤ◌}
use kufi_chain.Prelude.Action.{Result, ok, err}
use kufi_chain.Fabric.Types.{SubmitResult}
use kufi_chain.Receipt.Host.{Crypto}
use kufi_chain.Receipt.Build.{ReceiptBuilder}
use kufi_chain.Api.Models.{TransferRequest}
use kufi_chain.Api.Gateway.Host.{ClientCall, Settings, Library, Network, Clock}
use kufi_chain.Api.Gateway.Submit.{
  Storers, Stores, Reply, answered, admit_transfer, submit_all, finish_transfer, submit_transfer,
}
use kufi_chain.Api.Gateway.Gate.{Passes, admit_transfer-cases}

-- The times of one request come in their order.
abbrev pub InOrder : Clock → Type 0
InOrder t =
    (t.at_get ≤ℤ t.at_exists)
    × (t.at_exists ≤ℤ t.at_check)
    × (t.at_check ≤ℤ t.at_add)
    × (t.at_add ≤ℤ t.at_submit)
    × (t.at_submit ≤ℤ t.at_build)
    × (t.at_build ≤ℤ t.at_store)
    × (t.at_store ≤ℤ t.at_reply)

-- A request with what the network answers to it, or a round of a cleanup.
pub data Event : Type 0 where
  transfer : Network → Clock → Result String TransferRequest → Event
  clean_nonces : ℤ → Event
  clean_keys : ℤ → Event

-- The events happen one after the other between two times.
abbrev pub Chain : ℤ → List Event → ℤ → Type 0
Chain a [] b = a ≤ℤ b
Chain a (transfer n t bound ∷ es) b = (a ≤ℤ t.at_get) × InOrder t × Chain t.at_reply es b
Chain a (clean_nonces t ∷ es) b = (a ≤ℤ t) × Chain t es b
Chain a (clean_keys t ∷ es) b = (a ≤ℤ t) × Chain t es b

pub Chain-le : (a b : ℤ) (es : List Event) → Chain a es b → a ≤ℤ b
Chain-le a b [] h = h
Chain-le a b (transfer n t bound ∷ es) (x, order, rest) =
    omega (arith, x, order, Chain-le t.at_reply b es rest)
Chain-le a b (clean_nonces t ∷ es) (x, rest) = omega (arith, x, Chain-le t b es rest)
Chain-le a b (clean_keys t ∷ es) (x, rest) = omega (arith, x, Chain-le t b es rest)

module _ (c : Crypto) (l : Library) (h : Settings) (s : Storers) (rb : ReceiptBuilder) where
  abbrev pub reply_of : Network → Clock → Result String TransferRequest → Stores s → Reply
  reply_of n t bound st = (submit_transfer c l h n s rb t bound st).0

  abbrev pub stores_after : Network → Clock → Result String TransferRequest → Stores s → Stores s
  stores_after n t bound st = (submit_transfer c l h n s rb t bound st).1

  abbrev pub client_calls :
      Network → Clock → Result String TransferRequest → Stores s → List ClientCall
  client_calls n t bound st = (submit_transfer c l h n s rb t bound st).2

  unfoldable pub run : List Event → Stores s → Stores s
  run [] st = st
  run (transfer n t bound ∷ es) st = run es (stores_after n t bound st)
  run (clean_nonces t ∷ es) st = run es (record st { nonces = s.nonces.cleanup t st.nonces })
  run (clean_keys t ∷ es) st = run es (record st { keys = s.keys.cleanup t st.keys })

  -- A request that is answered before the submission changes nothing.
  pub submit_transfer-answered :
      (n : Network) (t : Clock) (bound : Result String TransferRequest) (st : Stores s)
      (reply : Reply)
      → admit_transfer s h t bound st ≡ answered reply
      → submit_transfer c l h n s rb t bound st ≡ (reply, st, [])
  unfolding submit_transfer
  submit_transfer-answered n t bound st reply e = ground arith

  -- One that gets past it leaves its nonce, and its receipt where the submission succeeds.
  pub submit_transfer-passed :
      (n : Network) (t : Clock) (bound : Result String TransferRequest) (st : Stores s)
      (req : TransferRequest)
      → Passes s h t bound st req
      → submit_transfer c l h n s rb t bound st ≡ (
          let st' = record st { nonces = s.nonces.add req.nonce t.at_add st.nonces } in
          (
            (finish_transfer c l h n s rb t req (submit_all c l h n req).0 st').0,
            (finish_transfer c l h n s rb t req (submit_all c l h n req).0 st').1,
            (submit_all c l h n req).1,
          ))
  unfolding submit_transfer
  submit_transfer-passed n t bound st req p = let passes = p.passes in ground (arith, passes)

  pub finish_transfer-nonces :
      (n : Network) (t : Clock) (req : TransferRequest) (r : Result String SubmitResult)
      (st : Stores s)
      → (finish_transfer c l h n s rb t req r st).1.nonces ≡ st.nonces
  unfolding finish_transfer
  finish_transfer-nonces n t req (ok r) st = refl
  finish_transfer-nonces n t req (err e) st = refl

  pub stores_after-nonces :
      (n : Network) (t : Clock) (bound : Result String TransferRequest) (st : Stores s)
      (req : TransferRequest)
      → Passes s h t bound st req
      → (stores_after n t bound st).nonces ≡ s.nonces.add req.nonce t.at_add st.nonces
  stores_after-nonces n t bound st req p =
      let st' = record st { nonces = s.nonces.add req.nonce t.at_add st.nonces } in
      ap (λ x. x.1.nonces) (submit_transfer-passed n t bound st req p)
      ∙ finish_transfer-nonces n t req (submit_all c l h n req).0 st'

  pub stores_after-answered :
      (n : Network) (t : Clock) (bound : Result String TransferRequest) (st : Stores s)
      (reply : Reply)
      → admit_transfer s h t bound st ≡ answered reply
      → stores_after n t bound st ≡ st
  stores_after-answered n t bound st reply e =
      ap (λ x. x.1) (submit_transfer-answered n t bound st reply e)

  -- A request that has reached the client got past the first part.
  pub client_calls-Passes :
      (n : Network) (t : Clock) (bound : Result String TransferRequest) (st : Stores s)
      → client_calls n t bound st ≢ []
      → (req : TransferRequest) × Passes s h t bound st req
  client_calls-Passes n t bound st reached = elim (admit_transfer-cases s h t bound st) [
    | inr found ↦ found
    | inl (reply, e) ↦
        absurd (reached (ap (λ x. x.2) (submit_transfer-answered n t bound st reply e)))
  ]
