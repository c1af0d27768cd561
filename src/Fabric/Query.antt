-- ===== src/Fabric/Query.antt =====
-- internal/fabric/query.go: `parseBlock`, `ComputeBlockHeaderHash` and `parseProcessedTransaction`.
use kufi_chain.Prelude.{ℕ, String, Bool, Option, none, some, List, [], ◌∷◌, ◌++◌, if◌then◌else◌}
use kufi_chain.Prelude.Int.{ℤ, pos}
use kufi_chain.Fabric.Types.{EndorsementInfo, BlockInfo, TransactionInfo}
use kufi_chain.Fabric.Host.{Proto}

-- The fields of a block header and the number of its transactions; `none` where the block has no data.
pub record Header : Type 0 where
  pub number : ℕ
  pub previous_hash : String
  pub data_hash : String

pub record Block : Type 0 where
  pub header : Option Header
  pub entries : Option ℕ

-- What `chHdr` holds that the code reads.
pub record ChannelHeader : Type 0 where
  pub channel_id : String
  pub tx_id : String
  pub timestamp_ms : Option ℤ

-- A `ProcessedTransaction`: its code and the payload of its envelope, if it has one.
pub record Processed (Bytes : Type 0) : Type 0 where
  pub validation_code : ℤ
  pub payload : Option Bytes

-- The messages that only the queries read. A header that is missing or does not decode is `none`.
pub record QueryProto (Bytes : Type 0) : Type 0 where
  pub block : Bytes → Option Block
  pub processed : Bytes → Option (Processed Bytes)
  pub is_payload : Bytes → Bool
  pub channel_header : Bytes → Option ChannelHeader
  pub creator : Bytes → Option (String × String)
  pub hex : String → String
  pub asn1_header : ℕ → String → String → String
  pub sha256_hex : String → String

module _ (p : Proto) (q : QueryProto p.Bytes) where
  -- `ComputeBlockHeaderHash`
  unfoldable pub compute_block_header_hash : Header → String
  compute_block_header_hash h = q.sha256_hex (q.asn1_header h.number h.previous_hash h.data_hash)

  -- `parseBlock`; `none` is its error.
  unfoldable pub parse_block : p.Bytes → Option BlockInfo
  unfolding compute_block_header_hash
  parse_block bytes = elim (q.block bytes) [
    | none ↦ none
    | some block ↦ elim block.header [
      | none ↦ none
      | some h ↦ some (record {
        block_number = h.number;
        block_hash = compute_block_header_hash h;
        previous_hash = q.hex h.previous_hash;
        data_hash = q.hex h.data_hash;
        tx_count = elim block.entries [ none ↦ 0 | some n ↦ n ];
        timestamp = pos 0;
      })
    ]
  ]

  -- The inner loop of `parseProcessedTransaction`.
  unfoldable pub infos_of : List (p.Bytes × String) → List EndorsementInfo
  infos_of [] = []
  infos_of ((endorser, signature) ∷ es) = elim (p.identity endorser) [
    | none ↦ infos_of es
    | some (msp_id, certificate) ↦
        record { msp_id = msp_id; signature = signature; certificate = certificate } ∷ infos_of es
  ]

  -- The outer loop, over the actions.
  unfoldable pub info_loop : List p.Bytes → List EndorsementInfo
  info_loop [] = []
  info_loop (a ∷ actions) = elim (p.action_endorsements a) [
    | none ↦ info_loop actions
    | some none ↦ info_loop actions
    | some (some es) ↦ infos_of es ++ info_loop actions
  ]

  abbrev bare_info : String → ℤ → TransactionInfo
  bare_info tx_id code = record {
    tx_id = tx_id;
    validation_code = code;
    block_number = 0;
    tx_index = pos 0;
    channel_id = "";
    chaincode_id = "";
    endorsements = [];
    creator_msp_id = "";
    creator_cert = "";
    timestamp = pos 0;
  }

  -- The channel header's part.
  unfoldable pub with_channel : p.Bytes → TransactionInfo → TransactionInfo
  with_channel payload info = elim (q.channel_header payload) [
    | none ↦ info
    | some h ↦ record info {
      channel_id = h.channel_id;
      tx_id = h.tx_id;
      timestamp = elim h.timestamp_ms [ none ↦ info.timestamp | some ms ↦ ms ];
    }
  ]

  -- The creator's part.
  unfoldable pub with_creator : p.Bytes → TransactionInfo → TransactionInfo
  with_creator payload info = elim (q.creator payload) [
    | none ↦ info
    | some (msp_id, cert) ↦ record info { creator_msp_id = msp_id; creator_cert = cert }
  ]

  -- The endorsements' part.
  unfoldable pub with_endorsements : p.Bytes → TransactionInfo → TransactionInfo
  with_endorsements payload info = elim (p.payload_data payload) [
    | none ↦ info
    | some txn ↦ elim (p.transaction_actions txn) [
      | none ↦ info
      | some actions ↦ record info { endorsements = info.endorsements ++ info_loop actions }
    ]
  ]

  -- `parseProcessedTransaction`; `none` is its error.
  unfoldable pub parse_processed_transaction : p.Bytes → String → Option TransactionInfo
  parse_processed_transaction bytes tx_id = elim (q.processed bytes) [
    | none ↦ none
    | some pt ↦ elim pt.payload [
      | none ↦ some (bare_info tx_id pt.validation_code)
      | some payload ↦
          if q.is_payload payload
          then some (
              with_endorsements payload
                (with_creator payload (with_channel payload (bare_info tx_id pt.validation_code))))
          else some (bare_info tx_id pt.validation_code)
    ]
  ]
