-- ===== src/Payment/PrivateData.antt =====
-- Where `processPrivateData` puts the transfer details, and the collection names.
use kufi_chain.Prelude.{
  ◌+◌, ◌-◌, ◌<◌, String, ◌≡◌, ◌≢◌, Option, some, true, false, [], ◌∷◌, arith, eq_iff, ltb,
}
use kufi_chain.Prelude.Dict.{lookup, insert, lookup-insert_self}
use kufi_chain.Prelude.Action.{ok}
use kufi_chain.Payment.Types.{collection_intra_bank_prefix, resolve_intra_bank_collection}
use kufi_chain.Payment.Host.{Json, Ledger, Tx}
use kufi_chain.Payment.Contract.{pick_private, or_empty, put_private_data}
use Prim.Native.String
use Prim.Native.String.{len, slice}
use text.Mathlib.TextPositions.{len-append, slice-append_left, slice-append_right}

-- An organisation's collection carries the name of its MSP without the suffix "MSP".
pub resolve_intra_bank_collection_suffix :
    (org : String)
    → 0 < len org
    → resolve_intra_bank_collection (String.◌++◌ org "MSP")
      ≡ String.◌++◌ collection_intra_bank_prefix org
unfolding resolve_intra_bank_collection
resolve_intra_bank_collection_suffix org h =
    let n : len (String.◌++◌ org "MSP") ≡ len org + 3 = len-append org "MSP" in
    let m : len org + 3 - 3 ≡ len org = omega arith in
    let long : ltb 3 (len org + 3) ≡ true = ground arith in
    rw (n, m, long, slice-append_right org "MSP", slice-append_left org "MSP")

module _ (j : Json) where
  -- The details of a transaction in a collection.
  abbrev pub private_at : Ledger j.Bytes → String → String → Option j.Bytes
  private_at s collection k = lookup k (or_empty (lookup collection s.private_data))

  pub private_at-put :
      (t : Tx j.Bytes) (collection k : String) (v : j.Bytes) (s : Ledger j.Bytes)
      → t.put_private_fails collection k ≡ false
      → ((put_private_data t collection k v s).0 ≡ ok tt)
        × (private_at (put_private_data t collection k v s).1 collection k ≡ some v)
  unfolding put_private_data
  private_at-put t collection k v s writes =
      let inner = insert k v (or_empty (lookup collection s.private_data)) in
      ground (
        arith,
        lookup-insert_self collection inner s.private_data,
        lookup-insert_self k v (or_empty (lookup collection s.private_data)),
      )

  -- With two entries that are not empty and neither of them under the policy's collection, the
  -- collection that receives the data is the one that the iteration meets first: the two orders in
  -- which Go may visit the same map store it in different collections.
  pub pick_private_order :
      (collection n₁ n₂ : String) (v₁ v₂ : j.Bytes)
      → n₁ ≢ collection
      → n₂ ≢ collection
      → n₁ ≢ n₂
      → j.is_empty v₁ ≡ false
      → j.is_empty v₂ ≡ false
      → (pick_private j collection ((n₁, v₁) ∷ (n₂, v₂) ∷ []) ≡ some (n₁, v₁))
        × (pick_private j collection ((n₂, v₂) ∷ (n₁, v₁) ∷ []) ≡ some (n₂, v₂))
        × (pick_private j collection ((n₁, v₁) ∷ (n₂, v₂) ∷ [])
            ≢ pick_private j collection ((n₂, v₂) ∷ (n₁, v₁) ∷ []))
  unfolding pick_private lookup
  pick_private_order collection n₁ n₂ v₁ v₂ a b c e₁ e₂ = (
    ground (arith, eq_iff n₁ collection, eq_iff n₂ collection),
    ground (arith, eq_iff n₁ collection, eq_iff n₂ collection),
    ground (arith, eq_iff n₁ collection, eq_iff n₂ collection),
  )
