-- ===== src/Lib.antt =====
-- kufi-chain: a permissioned payment network on Hyperledger Fabric. This library models the two
-- chaincodes, the receipts that the gateway hands out and verifies, the handlers, stores and
-- guards of the gateway's HTTP layer, its client of Fabric, the node manager with its votes and
-- its server, and the lifecycle by which the nodes bring the payment chaincode onto the channel.
--
-- The parts. The payment chaincode (chaincode/payment/payment.go) keeps transfer intents on the
-- ledger; the governance chaincode (chaincode/governance/governance.go) keeps join requests,
-- votes, the voting policy and the registry of organisations. The gateway (internal/api) takes
-- transfer requests, guards them with an API key, a rate limit, a store of nonces and a store of
-- idempotency keys, submits them to the payment chaincode, and answers with a receipt
-- (internal/receipt) that anyone can verify offline. Beside the chaincodes each node runs a
-- manager (internal/nodemgr) which keeps join requests in files and passes requests and votes on
-- to the other nodes, and brings the payment chaincode onto the channel (internal/fabricops)
-- under a policy that covers the peers which it knows (cmd/kufichain).
--
-- Prelude: what the modules share. `Prelude` itself passes names on and has the Boolean tests;
-- Prelude/Lists, Int (whole numbers over the native naturals, and times), Dict (a Go map as an
-- association list), Action (calls that read and write a state and may return an error), Sweep (a
-- loop that deletes from the map it ranges over), Copy (one that fills another map) and Sort (the
-- order of texts).
--
-- Payment: chaincode/payment/payment.go. Types has TransferIntent, TransferDetails and the
-- helpers getString, getInt64, sanitizeQueryInput and resolveIntraBankCollection; Host what the
-- code calls of the Fabric stub and of encoding/json; Contract the operations
-- CreateTransferIntent, processPrivateData, SettleTransfer and CancelTransfer; Queries the
-- queries and VerifyCommitmentHash. Lifecycle, Chain, History, Effects, PrivateData and Injection
-- hold the proofs, Sample and Tests the runs.
--
-- Governance: chaincode/governance/governance.go. Types has its records and constants; Time
-- isExpired with the 64-bit Duration; Host the stub; Contract every operation that changes the
-- ledger. Quorum, Voting, Outcome, Admission, Registry, Policy and Chain hold the proofs, Sample
-- and Tests the runs.
--
-- Receipt: internal/receipt. Types has the records; Host what the code calls of the crypto and
-- encoding packages; Build the hashes and the builder of receipt.go; Endorsement and Verify the
-- verifier of verify.go. Verdict, Tamper and Policy hold the proofs, Tests the runs.
--
-- Api: internal/api. Models and Convert are the bodies of models.go and their conversions;
-- Nonces, Idempotency and Stores the stores of store.go with their interfaces, which
-- Stores/Memory fills; Files the stores of store_persistent.go, which the gateway uses, and
-- Files/Storers the interfaces filled by them; WorkerPool the jobs and workers of
-- store.go, with Order for any order of their steps; RateLimit and ApiKey the two guards of
-- middleware.go. Gateway has the handlers of handlers.go: Requests the checks of a transfer
-- request and the choices made for it, Submit SubmitTransfer in its three parts (admit_transfer,
-- submit_all and finish_transfer), Receipts GetReceipt, rebuildReceiptFromLedger and
-- VerifyReceipt, and Observe ObserveTransaction. The handlers take the stores as an interface,
-- and Gateway/Runs runs them one after the other with the rounds of the cleanups in between. The
-- other child modules hold the proofs, Sample and Tests the runs.
--
-- Fabric: internal/fabric. Client has one submission of SubmitTransactionWithPDC, the
-- endorsements that it extracts and formatGatewayError; Retry submitWithRetry and isRetryable;
-- Submit their composition; Query the parsing of query.go; Extractor endorsement.go.
-- Retry/Bounds, Endorsers and Policies hold the proofs, Host what the code calls of other
-- packages, Tests the runs. The handlers see a call of the client as what a Network answers to
-- it, with all its attempts.
--
-- Node: internal/nodemgr. Types has the records of types.go and the counts of a JoinRequest;
-- Manager the operations of manager.go, with what they use of store.go and gossip.go; Peers the
-- file of the known peers; Server the handlers and routes of server.go. Votes, Gossip and the
-- children of Server hold the proofs, Tests the runs.
--
-- Ops: internal/fabricops/chaincode.go, which drives the lifecycle of the payment chaincode.
-- Policy decodes the committed endorsement policy; Lifecycle has the steps and Lifecycle/Deploy
-- the two functions EnsureChaincodeDeployed and TryCommitIfReady that go through them.
-- Lifecycle/Steps says what may be run next and carries it through a call; the other children
-- hold the proofs.
--
-- Cmd: cmd/kufichain/main.go, as far as it tells the lifecycle what to aim at. Known has
-- collectKnownPeers, buildSignaturePolicy and buildPeerEndpoints; Members and Agreement hold the
-- proofs.
--
-- The state of a chaincode is the ledger under the keys that the code writes, and a transaction
-- carries, beside its id, caller and time, which calls of the peer fail on it. A call that
-- returns an error is not committed, which is what Fabric does with a transaction whose
-- endorsement fails; `Reach` in the two Chain modules is the closure of the committed calls. Two
-- reads within one transaction see the state before it, as no operation reads a key it has
-- written.
--
-- Numbers: Go's int64 amounts and times and its int settings are whole numbers, where the code
-- does no arithmetic on them that could wrap; the product of expiryHours and time.Hour wraps at
-- 2^64 as in Go. Counts of organisations and votes are naturals. Times are nanoseconds since the
-- epoch. The age of a request's time stamp, which the client chooses, wraps as int64 does. There
-- is no fuel: every loop ranges over a list or a map, and the retries of the client count down
-- the attempts that are left.
--
-- A store that writes files is what it has in memory, what is on the disk, and the writes that
-- wait in goroutines, each of which is a step of its own; a restart drops the first and the last.
-- The files of a node are what decodes in them: a write that returns an error leaves the file as it
-- was, with all of the text, or with a part of it, which does not decode. Every write of a call may
-- end in its own way, as may every query of a transaction.
--
-- The commands of Fabric's peer and of docker are run by name. The state of the lifecycle is the
-- history of what has been run, each command with its answer, and the answers may be any function
-- of that history: what other nodes do in between is part of it. The loops there count down the
-- rounds that are left: 24 approvals, 12 commits, and as many readiness checks as seconds are
-- allowed. The name of the channel, of the chaincode and its version are the same in every
-- command.
--
-- What is not under the repository is a parameter. The laws of `Payment.Host.Json` and
-- `Governance.Host.Json` are that decoding gives back what has been encoded; the laws of
-- `Receipt.Host.Crypto` are that two different commitments, or two different hashed contents,
-- have different encodings, which holds for texts of valid UTF-8; the law of
-- `Fabric.Host.Float64` is that truncating a minimum does not exceed its integer bound below
-- 2^53; the law of `Api.Files.Codec` is that decoding gives back what has been encoded; those of
-- `Api.Gateway.PrivateData.Wired` are how encoding/json reads a map back, with numbers as floats
-- that are exact up to 2^53. Nothing
-- is assumed of SHA-256: where the code relies on it, the theorem ends in a collision.
--
-- Not modelled: the node manager's executeApproval, which drives Fabric's tools and of which only
-- the start is recorded; the connection of the Fabric client, its events and the calls of its
-- queries; the gateway's routes, health check and output middleware; of the network
-- operations the contents of the chaincode package, the channel, the crypto material and the
-- containers, and of the commands the prompts and the start-up, which run docker and Fabric's
-- tools and write files. Each method of a store runs under its lock and is one step here; each
-- handler of the gateway and of the node manager is one step too, although two of them may
-- overlap between their reads and writes. A call of the lifecycle is a sequence of commands; two
-- calls of one node that overlap are not modelled.
pub mod Api
pub mod Cmd
pub mod Fabric
pub mod Governance
pub mod Node
pub mod Ops
pub mod Payment
pub mod Prelude
pub mod Receipt
