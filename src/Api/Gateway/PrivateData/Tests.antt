-- ===== src/Api/Gateway/PrivateData/Tests.antt =====
-- The private data of one transfer, from the gateway to the collection of the chaincode.
use kufi_chain.Prelude.{String, refl, [], ◌∷◌}
use kufi_chain.Prelude.Int.{pos}
use kufi_chain.Payment.Types.{text, float64}
use kufi_chain.Payment.Sample.{Doc, map_doc, json}
use kufi_chain.Api.Gateway.Requests.{private_data_of}
use kufi_chain.Api.Gateway.Sample.{library, request}
use kufi_chain.Api.Gateway.PrivateData.{Wired}

-- The map that the private data of the request reads back as.
abbrev decoded : String → Doc
decoded s = map_doc (
    ("amount_vnd", float64 (pos 500))
    ∷ ("from_id", text "alice")
    ∷ ("internal_ref", text "ref")
    ∷ ("memo", text "")
    ∷ ("timestamp", float64 (pos 1000))
    ∷ ("to_id", text "bob")
    ∷ [])

abbrev wired : Wired library json decoded (private_data_of request)
wired = record { number = λ x. x; exact = λ x low high. refl; nonempty = refl; decodes = refl }
