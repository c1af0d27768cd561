-- ===== src/Fabric/Endorsers.antt =====
-- The endorsements that the client reads off a transaction, and those that the ledger gives back.
use kufi_chain.Prelude.{
  String, ◌≡◌, refl, true, none, some, List, [], ◌∷◌, ◌++◌, arith, map, ap, Option-cases, inl, inr,
}
use kufi_chain.Fabric.Types.{Endorsement, EndorsementInfo, TransactionInfo}
use kufi_chain.Fabric.Host.{Proto}
use kufi_chain.Fabric.Client.{
  endorsements_of, action_loop, payload_endorsements, extract_endorsements,
}
use kufi_chain.Fabric.Query.{
  QueryProto, Processed, infos_of, info_loop, with_channel, with_creator, with_endorsements,
  parse_processed_transaction,
}

-- An endorsement without its time and its flags.
abbrev pub info_of : Endorsement → EndorsementInfo
info_of e = record { msp_id = e.msp_id; signature = e.signature; certificate = e.certificate }

map-append : (xs ys : List Endorsement) → map info_of (xs ++ ys) ≡ map info_of xs ++ map info_of ys
map-append [] ys = refl
map-append (x ∷ xs) ys = ap (λ rest. info_of x ∷ rest) (map-append xs ys)

module _ (p : Proto) (q : QueryProto p.Bytes) where
  infos_of-endorsements_of :
      (es : List (p.Bytes × String)) → map info_of (endorsements_of p es) ≡ infos_of p q es
  unfolding endorsements_of infos_of
  infos_of-endorsements_of [] = refl
  infos_of-endorsements_of ((endorser, signature) ∷ es) =
      elim (Option-cases (p.identity endorser)) [
        | inl unknown ↦ ground (arith, infos_of-endorsements_of es)
        | inr ((msp_id, certificate), known) ↦ ground (arith, infos_of-endorsements_of es)
      ]

  info_loop-action_loop :
      (actions : List p.Bytes) → map info_of (action_loop p actions) ≡ info_loop p q actions
  unfolding action_loop info_loop
  info_loop-action_loop [] = refl
  info_loop-action_loop (a ∷ actions) = elim (Option-cases (p.action_endorsements a)) [
    | inl broken ↦ ground (arith, info_loop-action_loop actions)
    | inr (none, empty) ↦ ground (arith, info_loop-action_loop actions)
    | inr (some es, full) ↦ ground (
      arith,
      map-append (endorsements_of p es) (action_loop p actions),
      infos_of-endorsements_of es,
      info_loop-action_loop actions,
    )
  ]

  -- A transaction that the client has submitted and the ledger gives back with the same payload
  -- carries the same endorsements in the same order, each with its MSP, certificate and signature.
  pub parse_processed_transaction-extract_endorsements :
      (envelope bytes payload : p.Bytes) (tx_id : String) (pt : Processed p.Bytes)
      (info : TransactionInfo)
      → p.envelope_payload envelope ≡ some payload
      → q.processed bytes ≡ some pt
      → pt.payload ≡ some payload
      → q.is_payload payload ≡ true
      → parse_processed_transaction p q bytes tx_id ≡ some info
      → info.endorsements ≡ map info_of (extract_endorsements p (some envelope))
  unfolding parse_processed_transaction extract_endorsements payload_endorsements with_channel
      with_creator with_endorsements
  parse_processed_transaction-extract_endorsements envelope bytes payload tx_id pt info sent read
        same whole e =
      elim (Option-cases (p.payload_data payload)) [
        | inl no_data ↦ ground arith
        | inr (txn, decoded) ↦ elim (Option-cases (p.transaction_actions txn)) [
          | inl no_actions ↦ ground arith
          | inr (actions, found) ↦ ground (arith, info_loop-action_loop actions)
        ]
      ]
