-- ===== src/Audit/Appending.antt =====
-- What `Append` of internal/audit/logger.go keeps of the chain.
use mathlib.Core.Path.{subst}
use agent_identity_plane.Prelude.{
  ℕ, suc, ◌^◌, ◌<◌, ◌≡◌, refl, sym, ap, ◌∙◌, Bool, true, false, ◌||◌, ◌==◌, List, [], ◌∷◌, ◌++◌,
  Option, none, some, arith, if◌then◌else◌, ok, ◌>>=◌, ◌>>◌, fail_if, All, ok-injective,
}
use agent_identity_plane.Prelude.Text.{Text, text_eq, text_eq_refl, is_empty, codes, hex}
use agent_identity_plane.Token.Claims.{contains}
use agent_identity_plane.Lines.{unlines, unlines-append, WriteOutcome}
use agent_identity_plane.Audit.{
  AuditError, Event, Logger, Codec, genesis_prev_hash, canonicalize_event, bound_event_string,
  next_index, payload_hash, digest, required, require_keys, decode_audit_record, verify_event,
  decode_and_verify, chained, append, event_canon_equal, recover,
}
use agent_identity_plane.Audit.Canonical.{
  IsBounded, IsCanonical, IsCanonical-with, event_canon_equal_refl, bound_event_string-IsBounded,
}
use agent_identity_plane.Audit.Linked.{
  IsJson, Entry, texts, texts-append, IsChain-append, IsStored, recover_of_stored,
}
use agent_identity_plane.Audit.Writing.{write_hashed-ok, append-healthy}

require_keys_of_All :
    (codec : Codec) (present ks : List Text)
    → All (λ k. contains present k ≡ true) ks
    → require_keys codec present ks ≡ ok tt
unfolding require_keys
require_keys_of_All codec present [] h = refl
require_keys_of_All codec present (k ∷ ks) (e, h) = rw e (require_keys_of_All codec present ks h)

verify_event_of :
    (codec : Codec) (e : Event) (prev : Text) (i : ℕ)
    → text_eq e.prev_hash prev ≡ true
    → (e.chain_index == i) ≡ true
    → event_canon_equal e (canonicalize_event e) ≡ true
    → payload_hash codec e ≡ ok e.hash
    → verify_event codec e prev i ≡ ok tt
unfolding verify_event
verify_event_of codec e prev i p q c k = rw (p, q, c, k, text_eq_refl e.hash) refl

module _ (codec : Codec) (json : IsJson codec) where
  -- The new record, with its hash.
  abbrev pub sealed : Logger → Text → Event → Text → Event
  sealed l stamp e h = record (chained codec l stamp e) { hash = h }

  sealed-IsCanonical :
      (l : Logger) (stamp : Text) (e : Event) (h : Text)
      → IsBounded stamp
      → IsBounded l.prev_hash
      → IsBounded h
      → IsCanonical (sealed l stamp e h)
  unfolding chained
  sealed-IsCanonical l stamp e h bs bp bh =
      IsCanonical-with e
        (if is_empty (canonicalize_event e).timestamp
          then stamp
          else (canonicalize_event e).timestamp)
        h l.prev_hash (next_index l.chain_index)
        (either (is_empty (canonicalize_event e).timestamp)) bh bp
    where
      either : (b : Bool) → IsBounded (if b then stamp else (canonicalize_event e).timestamp)
      either true = bs
      either false = unfold canonicalize_event in bound_event_string-IsBounded e.timestamp

  chained-IsCanonical :
      (l : Logger) (stamp : Text) (e : Event)
      → IsBounded stamp
      → IsBounded l.prev_hash
      → IsCanonical (chained codec l stamp e)
  chained-IsCanonical l stamp e bs bp =
      sealed-IsCanonical l stamp e (chained codec l stamp e).hash bs bp
        (unfold chained canonicalize_event in bound_event_string-IsBounded e.hash)

  -- The hash is not part of what is hashed.
  payload_hash-sealed :
      (l : Logger) (stamp : Text) (e : Event) (h : Text)
      → IsBounded stamp
      → IsBounded l.prev_hash
      → IsBounded h
      → payload_hash codec (sealed l stamp e h) ≡ payload_hash codec (chained codec l stamp e)
  unfolding payload_hash
  payload_hash-sealed l stamp e h bs bp bh =
      ap (λ c. digest codec (codec.marshal (record c { hash = [] })))
        (sealed-IsCanonical l stamp e h bs bp bh)
      ∙ sym (
          ap (λ c. digest codec (codec.marshal (record c { hash = [] })))
            (chained-IsCanonical l stamp e bs bp))

  digest-IsBounded :
      (o : Option Text) (h : Text) → digest codec o ≡ ok h → IsBounded h × (is_empty h ≡ false)
  digest-IsBounded none h e = cc
  digest-IsBounded (some p) h e =
      let same : (codes "sha256:" ++ hex (codec.sha256 p)) ≡ h = ok-injective _ h e in
      (subst IsBounded same (json.sha256-IsBounded p), sym (ap is_empty same))

  -- The two fields that the reader wants not to be empty.
  abbrev pub IsNamed : Event → Type 0
  IsNamed e =
      (is_empty (bound_event_string e.event_type) ≡ false)
      × (is_empty (bound_event_string e.reason_code) ≡ false)

  abbrev is_incomplete : Event → Bool
  is_incomplete e =
      is_empty e.event_type
      || is_empty e.reason_code
      || is_empty e.hash
      || is_empty e.prev_hash
      || e.chain_index == 0

  sealed_complete :
      (l : Logger) (stamp : Text) (e : Event) (h : Text)
      → is_empty l.prev_hash ≡ false
      → is_empty h ≡ false
      → IsNamed e
      → suc l.chain_index < 2 ^ 64
      → is_incomplete (sealed l stamp e h) ≡ false
  unfolding chained canonicalize_event
  sealed_complete l stamp e h np nh (nt, nr) small = rw (nt, nr, nh, np) (ground arith)

  verify_sealed :
      (l : Logger) (stamp : Text) (e : Event) (h : Text)
      → IsBounded stamp
      → IsBounded l.prev_hash
      → IsBounded h
      → payload_hash codec (chained codec l stamp e) ≡ ok h
      → verify_event codec (sealed l stamp e h) l.prev_hash (next_index l.chain_index) ≡ ok tt
  unfolding verify_event
  verify_sealed l stamp e h bs bp bh hashed =
      verify_event_of codec (sealed l stamp e h) l.prev_hash (next_index l.chain_index) linked_hash
        linked_index
        (ap (event_canon_equal (sealed l stamp e h)) (sealed-IsCanonical l stamp e h bs bp bh)
          ∙ event_canon_equal_refl (sealed l stamp e h))
        (payload_hash-sealed l stamp e h bs bp bh ∙ hashed)
    where
      linked_hash : text_eq (sealed l stamp e h).prev_hash l.prev_hash ≡ true
      linked_hash = unfold chained in text_eq_refl l.prev_hash

      linked_index : ((sealed l stamp e h).chain_index == next_index l.chain_index) ≡ true
      linked_index = unfold chained in ground arith

  decode_sealed :
      (l : Logger) (stamp : Text) (e : Event) (h t : Text)
      → IsBounded stamp
      → IsBounded l.prev_hash
      → is_empty l.prev_hash ≡ false
      → IsNamed e
      → suc l.chain_index < 2 ^ 64
      → payload_hash codec (chained codec l stamp e) ≡ ok h
      → codec.marshal (sealed l stamp e h) ≡ some t
      → decode_and_verify codec t l.prev_hash (next_index l.chain_index) ≡ ok (sealed l stamp e h)
  unfolding decode_and_verify decode_audit_record verify_event
  decode_sealed l stamp e h t bs bp np (nt, nr) small hashed written =
      let (bh, nh) =
        digest-IsBounded
          (codec.marshal (record (canonicalize_event (chained codec l stamp e)) { hash = [] })) h
          (unfold payload_hash in hashed) in
      let canonical = sealed-IsCanonical l stamp e h bs bp bh in
      let (ks, keyed, present) = json.keys-marshal (sealed l stamp e h) t written in
      let complete : (is_empty (sealed l stamp e h).event_type
            || is_empty (sealed l stamp e h).reason_code
            || is_empty (sealed l stamp e h).hash
            || is_empty (sealed l stamp e h).prev_hash
            || (sealed l stamp e h).chain_index == 0)
          ≡ false =
        sealed_complete l stamp e h np nh (nt, nr) small in
      rw
        (
          keyed,
          require_keys_of_All codec ks (required codec) present,
          json.strict-marshal (sealed l stamp e h) t written canonical,
        )
        (ap
            (λ b. fail_if b AuditError.incomplete_record >> ok (sealed l stamp e h) >>= λ f.
              verify_event codec f l.prev_hash (next_index l.chain_index) >> ok f)
            complete
          ∙ ap (λ v. v >> ok (sealed l stamp e h)) (verify_sealed l stamp e h bs bp bh hashed))

  recovered_log :
      (l : Logger) (content : Text)
      → l.file ≡ some content
      → l.poisoned ≡ false
      → record {
        file = some content;
        prev_hash = l.prev_hash;
        chain_index = l.chain_index;
        poisoned = false;
      }
        ≡ l
  recovered_log l content f p = λ i. record {
    file = sym f i;
    prev_hash = l.prev_hash;
    chain_index = l.chain_index;
    poisoned = sym p i;
  }

  -- A log that is stored and healthy recovers to itself.
  pub recover_of_healthy :
      (l : Logger) (es : List (Entry codec))
      → IsStored codec l es
      → l.poisoned ≡ false
      → recover codec (unlines (texts codec es)) ≡ ok l
  recover_of_healthy l es s healthy =
      recover_of_stored codec l es s
      ∙ ap ok (recovered_log l (unlines (texts codec es)) s.content healthy)

  -- What a successful append leaves: a log with one record more, that is healthy, stands one index
  -- further, and whose file recovers to it.
  abbrev pub IsAppended : Logger → List (Entry codec) → Text → Event → Logger → Type 0
  IsAppended l es stamp e l' =
      (h : Text) × (t : Text) × (payload_hash codec (chained codec l stamp e) ≡ ok h)
      × IsStored codec l' (es ++ (sealed l stamp e h, t) ∷ [])
      × (l'.poisoned ≡ false)
      × (l'.chain_index ≡ suc l.chain_index)
      × (recover codec (unlines (texts codec (es ++ (sealed l stamp e h, t) ∷ []))) ≡ ok l')

  next_index-suc : (i : ℕ) → suc i < 2 ^ 64 → next_index i ≡ suc i
  next_index-suc i small = omega arith

  -- An append to a stored log that succeeds, whatever has become of its write, for a record that names
  -- its type and its reason and below the last index, stores the log with one record more: the canonical
  -- event, with the log's last hash and the next index, sealed with its own hash. The file then recovers
  -- to exactly the log that the append has left.
  pub append-IsStored :
      (l : Logger) (es : List (Entry codec)) (stamp : Text) (e : Event) (outcome : WriteOutcome)
      → IsStored codec l es
      → l.poisoned ≡ false
      → IsBounded stamp
      → IsNamed e
      → suc l.chain_index < 2 ^ 64
      → (append codec l stamp e outcome).0 ≡ ok tt
      → IsAppended l es stamp e (append codec l stamp e outcome).1
  append-IsStored l es stamp e outcome s healthy bs named small k =
      let content = unlines (texts codec es) in
      let same = append-healthy codec l content stamp e outcome healthy s.content in
      let (h, t, hashed, written, short, out) =
        write_hashed-ok codec l content (chained codec l stamp e) outcome
          (payload_hash codec (chained codec l stamp e)) (sym (ap (λ r. r.0) same) ∙ k) in
      let (bh, nh) =
        digest-IsBounded
          (codec.marshal (record (canonicalize_event (chained codec l stamp e)) { hash = [] })) h
          (unfold payload_hash in hashed) in
      let (one_line, whole, nonempty) = json.marshal-IsLine (sealed l stamp e h) t written in
      let decoded = decode_sealed l stamp e h t bs s.bounded s.named named small hashed written in
      let (chain, end) =
        IsChain-append codec genesis_prev_hash 0 es (sealed l stamp e h) t s.chain
          (rw s.end decoded) (one_line, whole, short) nonempty in
      let left = ap (λ r. r.1) same ∙ out in
      let entries = es ++ (sealed l stamp e h, t) ∷ [] in
      let stored =
        subst (λ m. IsStored codec m entries) (sym left)
          (record {
            content = ap some (
                sym (unlines-append (texts codec es) (t ∷ []))
                ∙ ap unlines (sym (texts-append codec es (sealed l stamp e h) t)));
            chain = chain;
            end = end;
            bounded = bh;
            named = nh;
          }) in
      let well = ap (λ m. m.poisoned) left ∙ healthy in
      (
        h,
        t,
        hashed,
        stored,
        well,
        ap (λ m. m.chain_index) left ∙ (unfold chained in next_index-suc l.chain_index small),
        recover_of_healthy (append codec l stamp e outcome).1 entries stored well,
      )
