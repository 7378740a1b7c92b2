-- ===== src/Lib.antt =====
-- A verification library for stadtstack, a program that takes civic discussions through
-- suggestions, administration responses and reviews to a published brief, without any binding
-- decision of its own.
--
-- The parts and their files:
--
-- * Kernel models src/civic-kernel.ts, `createCivicKernel`. Its closure variables are the record
--   `KernelState` (Kernel/State): a Map is an association list in insertion order, `undefined` is
--   `none`. Kernel/Config is `snapshotCivicKernelConfig`, Kernel/Actors `normalizeCivicActor`,
--   Kernel/Provenance `normalizeDiscussionProvenance` with its helpers, Kernel/Shape
--   `assertParticipationResultShape` and `assertNoRawParticipationValues`, Kernel/Participation
--   `normalizeParticipationResult`. Kernel/Dispatch is `dispatch`, whose cases stand in
--   Kernel/Discussions and Kernel/Packages, and Kernel/Project is `project` and
--   `prepareCouncilDryRunBrief`.
-- * The proofs about it: Kernel/Authority, Kernel/Roles (who may do what), Kernel/Changes (what an
--   accepted command does, as one relation), Kernel/Invariant and Kernel/Runs (the invariant and the
--   states that commands reach), Kernel/Replay, Kernel/History, Kernel/Publication, Kernel/Privacy,
--   Kernel/Counts, Kernel/Screen, Kernel/Registry and Kernel/Reviews.
-- * City models src/city-control-plane.ts, `createCityControlPlane`, which checks callers and
--   requests, keeps ledgers and drives the kernel. City/Config is `normalizeConfig`, City/Requests
--   the checks, City/State the variables (`responseInputs`, `responseReviews`, `publishedBrief`,
--   `participation`), City/Operations and City/Publishing the operations, City/Ingestion
--   `ingestDiscussion`. City/Runs are its requests and the states that they reach,
--   City/Ledgers relates its four ledgers to the kernel; City/Access, City/Answers, City/Repeats and
--   City/Staffing are about what callers may rely on.
-- * CaseId models src/case-id.ts, on lists of character codes; SHA-256 is a parameter.
-- * Coordinator models the journal of src/civic-case-coordinator.ts. Coordinator/Canonical is
--   `canonicalize`, Coordinator/Journal `appendEvent`, `genesisChecksum` and the checks that
--   `replayJournal` makes of every event before it looks at the event's type, and
--   Coordinator/Commit the frame of `handle` without a journal port: the checks of case, policy
--   version, actor and policies, the replay, the fingerprint, idempotency, the expected version, the
--   append and the receipt. What a command's own branch gives is a function of the journal, the
--   object that its fingerprint covers as the payload is part of the command, and the checks of the
--   replay by event type are a function of the events; they come after the chain here, which matters
--   for which error a corrupted journal gives, and for nothing else. Coordinator/Headers, Evidence,
--   Receipts, Growth, Reached and Retry are proofs. Coordinator/Departments models the branches on
--   department packages: Departments/Replay those of `replayJournal`, Departments/Commands those of `handle`,
--   on payloads in the form that the normalizers `normalizeDepartmentPackage`, `...Draft`,
--   `...Review` and `...Retraction` leave.
-- * Staging models the lifecycles of the staging processes. Staging/Runtime is
--   src/staging-case-runtime-lifecycle.ts: its variables are the record `Runtime`, its promises how
--   far `start` and `close` have come, and an event of Runtime/Step is one turn of the event loop.
--   Staging/Process is src/staging-case-process-lifecycle.ts, whose children are such runtimes.
--   Staging/Listeners is src/staging-case-runtime-listener-capability.ts, and Staging/Config and
--   Process/Config are the two `captureConfig`. Runtime/Invariant, Turns, Closing and Phases,
--   Process/Turns with the files that it uses, Process/Promises, Process/Distinct and
--   Staging/Exposure are proofs.
-- * Text, Regex, Double and Value model what the source uses of its language: `trim`, regular
--   expressions, addition of binary64 integers, and `unknown` values with `JSON.stringify`. Base is
--   what the parts share.
--
-- How a command runs: `dispatch` takes the configuration, a state and a command, and gives the new
-- state or the error that the source throws, with the guards in the order of the source. In the
-- source every write of a command stands behind its last guard, so that a throw leaves the state;
-- here an error carries no state. An input that the source does not check at run time is taken at
-- its declared type; a field that is stored unchecked stays a dynamic value. Clones of the source
-- are equal values, since nothing here is shared and mutable. Dynamic values are finite trees, so
-- the errors for cyclic inputs cannot arise, and proxies and getters are not modelled. Two JSON
-- texts are compared as the trees that they write. Texts are strings of Unicode scalar values.
--
-- An operation of the control plane may write and then fail, so that its outcome has a state as well
-- as an answer. `ingestDiscussion` awaits the relay: its checks read the configuration alone, and
-- what follows the answer is one step on the state of that moment, so that other requests may come
-- in between.
--
-- A lifecycle runs one turn at a time: a call, an event of a server, a timer, or the continuation of
-- an `await` whose promise has settled. Turns come in any order, and one that nothing waits for
-- changes nothing. The handler that `close` has for errors of its own does what its regular end does,
-- so that it is no step of the model.
--
-- Bounds and fuel: counts are natural numbers, and a sum of counts is rounded at each step as
-- binary64 does it, ties to even. The unit in the last place is found by doubling at most 972
-- times, which covers every sum of two finite numbers. The end of a closing runtime is reached in as
-- many turns as its rank, which is at most 15.
--
-- Parameters: `Date.parse`, as a function that gives a time or nothing for a text; the relay's
-- address rules, as a function that gives the normalized address or nothing; the relay's answer, and
-- the discussion adapter as a function of an event and its relay references; the hexadecimal SHA-256
-- digest of a text; the checksum of a canonical value, which is `sha256:` and the hexadecimal SHA-256
-- of its JSON text; what a Node server answers, as arguments of the events.
--
-- Not modelled: `askCompanion`, which changes nothing of the case, and the rest of the program: the
-- coordinator's other commands, its normalizers and its projections, the adapters, which rest on
-- SQLite, and the servers, companions and control runtimes, which rest on HTTP, cryptography and the
-- file system. `canonicalize` does not tell -0 from 0, so that it does not refuse it as the source
-- does, and sorts integer-like keys as texts.
mod Base
pub mod Text
pub mod Regex
pub mod Double
pub mod Value
pub mod CaseId
pub mod Kernel
pub mod City
pub mod Staging
pub mod Coordinator
