-- ===== src/Api/Gateway/Repeats.antt =====
-- Requests with an idempotency key that has been used.
use kufi_chain.Prelude.{
  String, ◌≡◌, refl, ◌≢◌, inl, inr, true, false, none, some, List, [], ◌∷◌, arith, ap, ◌∙◌, sym,
  subst, Bool-cases, ◌==◌, eq_iff,
}
use kufi_chain.Prelude.Int.{ℤ, ◌≤ℤ◌, ◌+ℤ◌}
use kufi_chain.Prelude.Action.{Result, ok, err, ok_injective}
use kufi_chain.Fabric.Types.{SubmitResult}
use kufi_chain.Receipt.Types.{Receipt}
use kufi_chain.Receipt.Host.{Crypto}
use kufi_chain.Receipt.Build.{ReceiptBuilder, build, assemble}
use kufi_chain.Api.Models.{TransferRequest}
use kufi_chain.Api.Gateway.Host.{Settings, Library, Network, Clock}
use kufi_chain.Api.Gateway.Requests.{validate_transfer_request}
use kufi_chain.Api.Gateway.Submit.{
  Storers, Stores, admit_transfer, answered, submit_all, finish_transfer, build_input,
  respond_receipt,
}
use kufi_chain.Api.Gateway.Gate.{admit_transfer-cases}
use kufi_chain.Api.Gateway.Runs.{
  InOrder, Event, transfer, clean_nonces, clean_keys, Chain, Chain-le, reply_of, stores_after,
  client_calls, run, stores_after-answered, submit_transfer-answered, submit_transfer-passed,
  client_calls-Passes,
}

module _ (c : Crypto) (l : Library) (h : Settings) (s : Storers) (rb : ReceiptBuilder) where
  -- From `x` to the deadline the key answers with the receipt.
  abbrev Answers : ℤ → ℤ → String → Receipt → Stores s → Type 0
  Answers x deadline key r st = (y : ℤ) → x ≤ℤ y → y ≤ℤ deadline → s.keys.get y key st.keys ≡ some r

  Answers-later :
      (x x' deadline : ℤ) (key : String) (r : Receipt) (st : Stores s)
      → x ≤ℤ x'
      → Answers x deadline key r st
      → Answers x' deadline key r st
  Answers-later x x' deadline key r st le answers y from until =
      answers y (omega (arith, le, from)) until

  finish_transfer-keys :
      (n : Network) (t : Clock) (req : TransferRequest) (result : Result String SubmitResult)
      (st : Stores s) (y : ℤ) (key : String)
      → (req.idempotency_key == key) ≡ false
      → s.keys.get y key (finish_transfer c l h n s rb t req result st).1.keys
        ≡ s.keys.get y key st.keys
  unfolding finish_transfer
  finish_transfer-keys n t req (err e) st y key other = refl
  finish_transfer-keys n t req (ok r) st y key other =
      s.keys.get-store_other t.at_store y req.idempotency_key key
        (build c t.at_build rb (build_input c l h n t req r)) st.keys other

  Answers-transfer :
      (x deadline : ℤ) (key : String) (r : Receipt) (n : Network) (t : Clock)
      (bound : Result String TransferRequest) (st : Stores s)
      → x ≤ℤ t.at_get
      → t.at_get ≤ℤ deadline
      → Answers x deadline key r st
      → Answers x deadline key r (stores_after c l h s rb n t bound st)
  Answers-transfer x deadline key r n t bound st after before answers =
      elim (admit_transfer-cases s h t bound st) [
        | inl (reply, e) ↦
            subst (Answers x deadline key r)
              (sym (stores_after-answered c l h s rb n t bound st reply e)) answers
        | inr (req, p) ↦ elim (Bool-cases (req.idempotency_key == key)) [
          | inl same ↦
              let cached : s.keys.get t.at_get req.idempotency_key st.keys ≡ some r =
                subst (λ k. s.keys.get t.at_get k st.keys ≡ some r)
                  (sym ((eq_iff req.idempotency_key key).0 same)) (answers t.at_get after before) in
              absurd (none_some (sym p.is_new ∙ cached))
          | inr other ↦ λ y from until.
              let st' = record st { nonces = s.nonces.add req.nonce t.at_add st.nonces } in
              ap (λ out. s.keys.get y key out.1.keys)
                (submit_transfer-passed c l h s rb n t bound st req p)
              ∙ finish_transfer-keys n t req (submit_all c l h n req).0 st' y key other
              ∙ answers y from until
        ]
      ]
    where
      none_some : {a : Receipt} → none ≢ some a
      none_some e = cc

  run-Answers :
      (es : List Event) (x b deadline : ℤ) (key : String) (r : Receipt) (st : Stores s)
      → Chain x es b
      → b ≤ℤ deadline
      → Answers x deadline key r st
      → Answers b deadline key r (run c l h s rb es st)
  unfolding run
  run-Answers [] x b deadline key r st chain le answers =
      Answers-later x b deadline key r st chain answers
  run-Answers (transfer n t bound ∷ es) x b deadline key r st (from, order, chain) le answers =
      let next = stores_after c l h s rb n t bound st in
      let until = Chain-le t.at_reply b es chain in
      run-Answers es t.at_reply b deadline key r next chain le (
        Answers-later x t.at_reply deadline key r next (omega (arith, from, order)) (
          Answers-transfer x deadline key r n t bound st from (omega (arith, until, order, le))
            answers))
  run-Answers (clean_nonces t ∷ es) x b deadline key r st (from, chain) le answers =
      let next = record st { nonces = s.nonces.cleanup t st.nonces } in
      run-Answers es t b deadline key r next chain le
        (Answers-later x t deadline key r st from answers)
  run-Answers (clean_keys t ∷ es) x b deadline key r st (from, chain) le answers =
      run-Answers es t b deadline key r (record st { keys = s.keys.cleanup t st.keys }) chain le
        (λ y later until.
          s.keys.get-cleanup t y key st.keys later ∙ answers y (omega (arith, from, later)) until)

  finish_transfer-ok :
      (n : Network) (t : Clock) (req : TransferRequest) (result : Result String SubmitResult)
      (st : Stores s)
      → (finish_transfer c l h n s rb t req result st).0.body.success ≡ true
      → (r : Receipt) × ((finish_transfer c l h n s rb t req result st).0
          ≡ respond_receipt r r.tx_id t.at_reply)
        × ((finish_transfer c l h n s rb t req result st).1.keys
            ≡ s.keys.store t.at_store req.idempotency_key r st.keys)
  unfolding finish_transfer build assemble build_input
  finish_transfer-ok n t req (err e) st good = absurd (ground arith)
  finish_transfer-ok n t req (ok r) st good =
      (build c t.at_build rb (build_input c l h n t req r), refl, refl)

  admit_transfer-cached :
      (t : Clock) (req : TransferRequest) (st : Stores s) (r : Receipt)
      → validate_transfer_request req ≡ none
      → s.keys.get t.at_get req.idempotency_key st.keys ≡ some r
      → admit_transfer s h t (ok req) st ≡ answered (respond_receipt r r.tx_id t.at_reply)
  unfolding admit_transfer
  admit_transfer-cached t req st r valid cached = ground arith

  -- Once a transfer has reached the client and succeeded, a valid request with the same idempotency
  -- key is answered with success, the same transaction and the same receipt, without a submission,
  -- until the TTL of the key ends, whatever requests and rounds of the cleanups come in between, one
  -- after the other.
  pub submit_transfer-repeat :
      (n n' : Network) (t t' : Clock) (req req' : TransferRequest) (st : Stores s) (es : List Event)
      → client_calls c l h s rb n t (ok req) st ≢ []
      → (reply_of c l h s rb n t (ok req) st).body.success ≡ true
      → req'.idempotency_key ≡ req.idempotency_key
      → validate_transfer_request req' ≡ none
      → InOrder t
      → Chain t.at_reply es t'.at_get
      → t'.at_get ≤ℤ t.at_store +ℤ s.keys.ttl st.keys
      → let last = run c l h s rb es (stores_after c l h s rb n t (ok req) st) in
        ((reply_of c l h s rb n' t' (ok req') last).code ≡ 200)
        × ((reply_of c l h s rb n' t' (ok req') last).body.success ≡ true)
        × ((reply_of c l h s rb n' t' (ok req') last).body.tx_id
            ≡ (reply_of c l h s rb n t (ok req) st).body.tx_id)
        × ((reply_of c l h s rb n' t' (ok req') last).body.receipt
            ≡ (reply_of c l h s rb n t (ok req) st).body.receipt)
        × (client_calls c l h s rb n' t' (ok req') last ≡ [])
  submit_transfer-repeat n n' t t' req req' st es reached good same valid order chain inside =
      let (first, p) = client_calls-Passes c l h s rb n t (ok req) st reached in
      let one : first ≡ req = ok_injective (sym p.is_bound) in
      let st' = record st { nonces = s.nonces.add first.nonce t.at_add st.nonces } in
      let passed = submit_transfer-passed c l h s rb n t (ok req) st first p in
      let (r, replied, stored) =
        finish_transfer-ok n t first (submit_all c l h n first).0 st'
          (sym (ap (λ x. x.0.body.success) passed) ∙ good) in
      let after = stores_after c l h s rb n t (ok req) st in
      let deadline = t.at_store +ℤ s.keys.ttl st.keys in
      let answers : Answers t.at_reply deadline first.idempotency_key r after = λ y from until.
        ap (λ x. s.keys.get y first.idempotency_key x.1.keys) passed
        ∙ ap (λ k. s.keys.get y first.idempotency_key k) stored
        ∙ s.keys.get-store_self t.at_store y first.idempotency_key r st.keys until in
      let last = run c l h s rb es after in
      let later =
        run-Answers es t.at_reply t'.at_get deadline first.idempotency_key r after chain inside
          answers in
      let cached : s.keys.get t'.at_get req'.idempotency_key last.keys ≡ some r =
        subst (λ k. s.keys.get t'.at_get k last.keys ≡ some r)
          (ap (λ x. x.idempotency_key) one ∙ sym same) (later t'.at_get (omega arith) inside) in
      let e =
        submit_transfer-answered c l h s rb n' t' (ok req') last _
          (admit_transfer-cached t' req' last r valid cached) in
      let reply = ap (λ x. x.0) passed ∙ replied in
      (
        ap (λ x. x.0.code) e,
        ap (λ x. x.0.body.success) e,
        ap (λ x. x.0.body.tx_id) e ∙ sym (ap (λ x. x.body.tx_id) reply),
        ap (λ x. x.0.body.receipt) e ∙ sym (ap (λ x. x.body.receipt) reply),
        ap (λ x. x.2) e,
      )
