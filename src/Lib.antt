-- ===== src/Lib.antt =====
-- Agent identity plane: a verification library for the identity plane of software agents.
--
-- The program mints short-lived delegation tokens. A workload proves its identity with an actor
-- token (internal/attest), presents a subject token of a user or of the service itself, and asks the
-- security token service (internal/sts) for a token for one audience. The service grants what the
-- registry of agents (internal/registry) and the denylist (internal/denylist) allow, narrows the
-- scope, extends the actor chain, consumes the subject token (internal/sts/replay.go), signs with
-- its keyring (internal/token) and writes an audit record (internal/audit) before it answers.
--
-- Files:
-- - Prelude and its children: shared types and lemmas. Text is a Go string as the list of its bytes,
--   Int is `int64` and ℤ over the native numbers, Fields, Words and Utf8 are what the code uses of
--   `strings` and `unicode/utf8`, Fold is `strings.EqualFold` with a name in ASCII, Assoc is a Go map with
--   string keys.
-- - Clock: `time.Time` and durations. Lines: `bufio.Scanner` on line files and the outcomes of a write.
-- - Jsonutil: internal/jsonutil/json.go over the decoder of encoding/json, which is a parameter.
-- - Token: internal/token. Claims has claims.go (ValidateTime is validate_time, AppendChain is
--   append_chain, and so on), Scope its scope sets, Keys has keys.go and the JWK part of jws.go, Jws
--   the verification (VerifyKey is verify_key), Keyring has keyring.go. Lifetime, Chain, Scope/Sets,
--   Scope/Sorting, Scope/Printing, Thumbprint, Jws/Signatures, Jws/Soundness and Keyring/Activation
--   prove.
-- - Attest: internal/attest/attest.go. Registry: internal/registry/registry.go. Denylist:
--   internal/denylist/denylist.go. Their children prove.
-- - Sts/Replay: internal/sts/replay.go; SingleUse, Recovery and Durable prove.
-- - Sts/Exchange: `exchange` of internal/sts/sts.go, cut at the replay cache into prepare,
--   consume_subject and mint; Scopes, Stages, Soundness, Minting and SingleUse prove.
-- - Sts/Service: `Exchange`, installIdentity and ReplaceKeyring of internal/sts/sts.go; Recorded
--   proves. Sts/Reload: internal/sts/reload.go; Atomic proves.
-- - Audit: internal/audit/logger.go; Canonical, Linked, Writing, Appending, History, Evidence
--   and Health prove. Audit/Trace: internal/audit/trace.go; Wanted, Sorting, Selection, Records and
--   Provenance prove.
-- - Sts/Http: the token endpoint of internal/sts/http.go; Granting proves.
-- - Verify: internal/verify/verify.go; Soundness proves. Verify/Keysets: jwks.go and oidc.go of
--   internal/verify; Trusted proves. Dpop: internal/dpop/dpop.go; Soundness,
--   Proving and SameProof prove. Dpop/Nonce: internal/dpop/nonce.go; Refinement proves.
-- - Visor: internal/visoradapter; Completeness proves. VisorSession: internal/visorsession/session.go;
--   Agreement and Launch prove. A2a: the credential of a request in
--   internal/a2a/a2a.go; A2a/Tripper: its round trip and middleware; Delegated proves.
-- - Gateway: internal/gateway/gateway.go, its state, events and refusals; Pep has handlePEP, Headers the
--   identity headers, Serving the checks of NewServer. Pep/Identity, Pep/Possession, Pep/Recording,
--   Pep/Traces, Pep/Soundness and Pep/SingleUse prove.
-- - Examples: concrete data and every theorem at an instance.
--
-- State and errors: a method that changes an object takes it and returns it. A nil pointer is `none`.
-- An error value is a constructor of the package's error type; what the code only prints of an error
-- is not kept, so an `ExchangeResult` has no description. Locks are left out: each method holds its
-- lock from its start to its end, so that the calls form a sequence. Clocks, random bytes and what
-- becomes of a write (synced, torn after some bytes, not synced) are arguments of each call.
--
-- Parameters: encoding/json (the codecs of Sts/Replay and Audit, the parsers of Primitives),
-- the hash and signature functions, net/url and `time.Parse`. Where a theorem needs a law of one of
-- them, as that a record is read back as it was written, the law is a field of a record named IsJson,
-- and the examples give a codec that has it.
--
-- Loops are by recursion on the data; no definition has fuel. The truncation of an event string
-- recurses on its bound of 4096 bytes.
--
-- A resource is reached through the gateway: it verifies a token of the service (internal/verify), maps
-- its chain (internal/visoradapter), asks for a proof of possession (internal/dpop), consumes the proof
-- and its nonce, writes an audit record and passes the request on with identity headers. A session
-- (internal/visorsession) asks the gateway for the mapping alone and starts visor with it.
--
-- Not modelled: the rate limiters, which count in floating point and whose answers are arguments; the
-- printing of a trace, the exchangers of internal/a2a and internal/identfile. The commands, the
-- demonstration world, file modes, key generation and network access, with the redirects that an HTTP
-- client follows, are left out.
pub mod Prelude
pub mod Clock
pub mod Token
pub mod Jsonutil
pub mod Denylist
pub mod Registry
pub mod Lines
pub mod Attest
pub mod Sts
pub mod Verify
pub mod Dpop
pub mod Visor
pub mod A2a
pub mod Gateway
pub mod VisorSession
pub mod Examples
pub mod Audit
