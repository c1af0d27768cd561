-- ===== src/Api/Gateway/Replays.antt =====
-- Requests that come again with a nonce that has been used.
use kufi_chain.Prelude.{
  String, ◌≡◌, ◌≢◌, inl, inr, true, false, List, [], ◌∷◌, arith, ap, ◌∙◌, sym, subst,
}
use kufi_chain.Prelude.Int.{ℤ, ◌≤ℤ◌, ◌-ℤ◌, ltb_ℤ}
use kufi_chain.Prelude.Action.{Result, ok, ok_injective}
use kufi_chain.Receipt.Host.{Crypto}
use kufi_chain.Receipt.Build.{ReceiptBuilder}
use kufi_chain.Api.Models.{TransferRequest}
use kufi_chain.Api.Gateway.Host.{Settings, Library, Network, Clock}
use kufi_chain.Api.Gateway.Submit.{Storers, Stores}
use kufi_chain.Api.Gateway.Gate.{admit_transfer-cases}
use kufi_chain.Api.Gateway.Runs.{
  InOrder, Event, transfer, clean_nonces, clean_keys, Chain, Chain-le, stores_after, client_calls,
  run, stores_after-nonces, stores_after-answered, submit_transfer-answered, client_calls-Passes,
}

module _ (c : Crypto) (l : Library) (h : Settings) (s : Storers) (rb : ReceiptBuilder) where
  -- The nonce was used at `a` or later, and the window is the one at the start.
  abbrev Used : ℤ → ℤ → String → Stores s → Type 0
  Used a window nonce st =
      s.nonces.Recorded a nonce st.nonces × (s.nonces.window st.nonces ≡ window)

  Used-transfer :
      (a window : ℤ) (nonce : String) (n : Network) (t : Clock)
      (bound : Result String TransferRequest) (st : Stores s)
      → a ≤ℤ t.at_add
      → Used a window nonce st
      → Used a window nonce (stores_after c l h s rb n t bound st)
  Used-transfer a window nonce n t bound st later (there, w) =
      elim (admit_transfer-cases s h t bound st) [
        | inl (reply, e) ↦
            subst (Used a window nonce)
              (sym (stores_after-answered c l h s rb n t bound st reply e)) (there, w)
        | inr (req, p) ↦
            subst (λ x. s.nonces.Recorded a nonce x × (s.nonces.window x ≡ window))
              (sym (stores_after-nonces c l h s rb n t bound st req p))
              (
                s.nonces.Recorded-add a t.at_add nonce req.nonce st.nonces later there,
                s.nonces.window-add req.nonce t.at_add st.nonces ∙ w,
              )
      ]

  run-Used :
      (es : List Event) (a a' b window : ℤ) (nonce : String) (st : Stores s)
      → a ≤ℤ a'
      → Chain a' es b
      → ltb_ℤ (b -ℤ a) window ≡ true
      → Used a window nonce st
      → Used a window nonce (run c l h s rb es st)
  unfolding run
  run-Used [] a a' b window nonce st le chain inside used = used
  run-Used (transfer n t bound ∷ es) a a' b window nonce st le (x, order, chain) inside used =
      run-Used es a t.at_reply b window nonce (stores_after c l h s rb n t bound st)
        (omega (arith, le, x, order)) chain inside
        (Used-transfer a window nonce n t bound st (omega (arith, le, x, order)) used)
  run-Used (clean_nonces t ∷ es) a a' b window nonce st le (x, chain) inside (there, w) =
      run-Used es a t b window nonce (record st { nonces = s.nonces.cleanup t st.nonces })
        (omega (arith, le, x)) chain inside
        (
          s.nonces.Recorded-cleanup a b t nonce st.nonces (Chain-le t b es chain)
              (subst (λ v. ltb_ℤ (b -ℤ a) v ≡ true) (sym w) inside) there,
          s.nonces.window-cleanup t st.nonces ∙ w,
        )
  run-Used (clean_keys t ∷ es) a a' b window nonce st le (x, chain) inside used =
      run-Used es a t b window nonce (record st { keys = s.keys.cleanup t st.keys })
        (omega (arith, le, x)) chain inside used

  -- Once a request has reached the client, whether or not the submission then succeeded, no other
  -- request with the same nonce reaches it while less than a window has passed, whatever requests and
  -- rounds of the cleanups come in between, one after the other.
  pub submit_transfer-replay :
      (n n' : Network) (t t' : Clock) (req req' : TransferRequest) (st : Stores s) (es : List Event)
      → client_calls c l h s rb n t (ok req) st ≢ []
      → req'.nonce ≡ req.nonce
      → InOrder t
      → Chain t.at_reply es t'.at_exists
      → ltb_ℤ (t'.at_exists -ℤ t.at_add) (s.nonces.window st.nonces) ≡ true
      → client_calls c l h s rb n' t'
          (ok req')
          (run c l h s rb es (stores_after c l h s rb n t (ok req) st))
        ≡ []
  submit_transfer-replay n n' t t' req req' st es reached same order chain inside =
      let (first, p) = client_calls-Passes c l h s rb n t (ok req) st reached in
      let after = stores_after c l h s rb n t (ok req) st in
      let used : Used t.at_add (s.nonces.window st.nonces) first.nonce after =
        subst
          (λ x.
            s.nonces.Recorded t.at_add first.nonce x
            × (s.nonces.window x ≡ s.nonces.window st.nonces))
          (sym (stores_after-nonces c l h s rb n t (ok req) st first p))
          (
            s.nonces.Recorded-add_self first.nonce t.at_add st.nonces,
            s.nonces.window-add first.nonce t.at_add st.nonces,
          ) in
      let (there, w) =
        run-Used es t.at_add t.at_reply t'.at_exists (s.nonces.window st.nonces) first.nonce after
          (omega (arith, order)) chain inside used in
      let last = run c l h s rb es after in
      let found : s.nonces.exists t'.at_exists first.nonce last.nonces ≡ true =
        s.nonces.exists-Recorded t.at_add t'.at_exists first.nonce last.nonces
          (subst (λ v. ltb_ℤ (t'.at_exists -ℤ t.at_add) v ≡ true) (sym w) inside) there in
      elim (admit_transfer-cases s h t' (ok req') last) [
        | inl (reply, e) ↦
            ap (λ x. x.2) (submit_transfer-answered c l h s rb n' t' (ok req') last reply e)
        | inr (second, q) ↦
            let one : first ≡ req = ok_injective (sym p.is_bound) in
            let two : second ≡ req' = ok_injective (sym q.is_bound) in
            let equal : second.nonce ≡ first.nonce =
              ap (λ x. x.nonce) two ∙ same ∙ ap (λ x. x.nonce) (sym one) in
            let unused = q.is_unused in
            absurd (
              true_false (
                sym found
                ∙ sym (ap (λ k. s.nonces.exists t'.at_exists k last.nonces) equal)
                ∙ unused))
      ]
    where
      true_false : true ≢ false
      true_false e = cc
