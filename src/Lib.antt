-- ===== src/Lib.antt =====
-- A verification library of the RL environment market.
--
-- Jurors (services/jurors-vercel/src/lib) is the hosted juror service, which runs one workflow for
-- each dispute. Jurors/Types has the data of types.ts, Jurors/Planner `planNext` of planner.ts and
-- Jurors/Batches its `batches`, Jurors/Memories `note` and `apply` of driver.ts, and Jurors/Driver
-- the loop `driveDispute`. In each iteration the driver reads a snapshot of the chain, asks the
-- planner for the actions that the snapshot and the workflow's memory call for, runs them in
-- batches, and folds their results into the memory. The chain, the steps and the clock are the
-- parameter `DriverIo` (`DriverIO`): functions on a type of worlds, with no law assumed.
--
-- Policy (agents/src/buyer/policy.ts) is the buyer agent's spending limit: the class
-- `SpendingPolicy`, whose state is the ledger in its file.
--
-- Deliberation (services/jurors/src/rubric.ts and decide.ts) is how a juror of the service for
-- processes comes to a decision. Deliberation/Extract is `extractJsonObject`, Parse
-- `parseJurorOutput`, Screen `screenText`, `screenDecision` and `privateCorpus`, Prompt
-- `parseRubric`, `sanitizeUntrusted` and `renderUserPrompt`, and Decide `decide`, whose loop
-- counts the attempts that are left. `JSON.parse` and the zod schema (`Readers`), the tests of the
-- regular expressions of the screening (`Patterns`) and the model client are parameters, with no
-- law assumed. A number of JSON is an exact fraction instead of a double. Text is matched without
-- regard to case on ASCII letters. The removal of `<think>` blocks and the replacements of a
-- prompt take the length of the text as fuel, which is enough since each round takes a unit at
-- least.
--
-- Publication (services/jurors/src/publish.ts) publishes a decision: Publication/Canonical is
-- `canonical`, Document `buildRationaleDoc`, and Upload `putBlob`, `postRationale` and
-- `publishRationale`. The HTTP answers, the digest of a text's bytes and the text of a number are
-- the parameter `UploadIo`. Values that are `undefined` do not occur in the documents.
--
-- JurorProcess (services/jurors/src/state.ts, commit.ts, market.ts and juror.ts) is the process
-- that votes. JurorProcess/Store is `JurorStore`: the state in memory beside what its file holds,
-- which `save` replaces whole. Commit is `prepareCommit`, Market `MarketIO.send`, Phases the
-- phases of a vote and Tick the tick of the process; the end of `makeDecision` is the step
-- `finish_job`. A function that may throw returns `Ran`, which says whether it threw. The state
-- has the list of the calls of `send` with the store at that time, for the theorems. The chain,
-- the clock, the random numbers and the configuration of a tick are the parameter `TickIo`;
-- `History` adds restarts, which load the file. Whether `stop` has been called is asked of `TickIo`
-- at each block that a scan comes to and each dispute that a tick comes to. A scan of the logs
-- takes the number of blocks to the head as fuel. The process is
-- modelled for runs in which no write of the state file fails. In the code such a write throws
-- with the change left in memory; it is modelled for `prepareCommit` alone, as
-- `prepare_commit_unsaved` (JurorProcess/Unsaved).
--
-- Commitments (packages/shared/src/commitments.ts, with `normalizeBytes32` of hash.ts) is the
-- commitment to a version's tasks. Commitments/Tree is the Merkle tree: `buildTaskTree`, its
-- checks, and the leaf, pair and proof functions, over the parameter `Crypto`, which stands for
-- viem's keccak256 and ABI encoder and for OpenZeppelin's `SimpleMerkleTree`; what is documented
-- of keccak256, and only where it is used, is the record `CryptoLaws`. Commitments/Masks has
-- `maskFromIndices`, `indicesFromMask` and `popcount`, for integer indices; `popcount` takes the
-- mask as fuel, which is enough since each pass halves it. `sort` by a text key is a stable
-- insertion sort (Base/Sorting).
--
-- Tar (packages/shared/src/tar.ts) is the canonical archive: Tar/Paths has `normalizeTarPath`,
-- Tar/Write `writeTar` and Tar/Read `readTar`. The header codec of the package tar-stream, with
-- the runtime's UTF-8 encoder, is the parameter `Codec`; its sizes are integers. What is
-- documented of it is the record `CodecLaws` (Tar/RoundTrip), which only the round trip assumes.
-- `readTar` takes the number of bytes plus one as fuel, which is enough since each pass takes at
-- least one block of 512 bytes (Tar/Read/Fuel). Offsets and paths in error messages are kept,
-- their wording is not.
--
-- Relay (services/tee/src/relay.ts) is the key delivery of the enclave: `handlePurchased` and
-- `serveDelivery`. A call reads the record of its purchase once; the rest of what it does is the
-- list of its effects (`save`, signing, submitting, logging), which `perform` applies to the store
-- of records. The chain, the clock, the uploaded keys, the random numbers and the cryptography of
-- one call are the parameter `RelayIo`, with no law assumed. The parts of the answer of
-- `serveDelivery` that are constants or configuration, and the log lines, are left out.
--
-- Rationales (services/tee/src/rationales.ts) is the publication of juror rationales:
-- `storeRationale`, whose checks are `check_rationale` and whose change of the state is
-- `put_rationale`, and `listRationales`. The state is the blob store (texts by hash) and the index
-- of each dispute; the chain, JSON and the cryptography of one request are the parameter
-- `RationaleIo`, with no law assumed. The status of an `HttpError` is kept as the error's
-- constructor.
--
-- Watcher (services/tee/src/watcher.ts) polls the chain for purchases and disputes. `poll_once` is
-- `pollOnce` with what `start` does about an error; its scan takes the number of blocks to the
-- head as fuel, which is enough since each range has a block. The head is kept as the block after
-- it (`stop`), which is 0 before the chain has enough blocks to confirm one. Handlers of disputes
-- run in the background, so that the ends of them are steps of their own (`Step`). The chain, the
-- clock and the relay's answer are the parameter `WatcherIo`.
--
-- Sweep (services/jurors-vercel/src/lib/sweep.ts) finds the disputes that want jurors,
-- `openDisputes`, and makes sure that each has a run of the workflow, `wake`. The chain and the
-- workflow library are the parameter `SweepIo`; of concurrent reads that fail, the error is that
-- of the first in order.
--
-- Delivery (agents/src/buyer/verify.ts) is the buyer's verification of what it was delivered:
-- Delivery/Checks is `verifyDelivery`, in the order of its checks, and Delivery/Private the
-- forbidden paths and contents, as segments of a path and as matchers of a text. It reads and
-- writes archives by `readTar` and `writeTar` of Tar. The digests, the key agreement, the
-- decryption and the schemas are the parameter `DeliveryIo`, with no law assumed. The list of the
-- checks that passed, which is for a human, is left out.
--
-- Base holds what these share. Strings are lists of code units (`Text`), and a JavaScript object
-- that serves as a map is the list of its entries (`Dict`). `show` writes a number in decimal; its
-- fuel, the number plus one, is enough since each round divides by ten. `bigint`s and counters
-- that the sources only ever hold non-negative are natural numbers; amounts that a caller passes
-- are signed. `batches` takes the number of pending actions as fuel for its outer loop, each round
-- of which takes at least one of them. The bound of `driveDispute` is its own parameter
-- `maxIterations`.
--
-- Not modelled: the web application (apps/web), the rest of the enclave service (services/tee), of
-- the juror service (services/jurors) the clients of model providers and of the enclave's
-- evidence, the registration, the lock and the command line, the agents other than the spending
-- policy and the verification of a delivery (agents/src), and of packages/shared what is not named
-- above: chain and model clients, schemas and cryptographic primitives. The contracts and the
-- harness are written in other languages. Extraction of archives to a file system and the
-- traversal of directories are I/O. Log lines that a human reads are kept only where the program
-- stores them.
pub mod Base
pub mod Policy
pub mod Jurors
pub mod Deliberation
pub mod Publication
pub mod JurorProcess
pub mod Commitments
pub mod Tar
pub mod Relay
pub mod Rationales
pub mod Watcher
pub mod Sweep
pub mod Delivery
