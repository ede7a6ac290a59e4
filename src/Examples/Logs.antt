-- ===== src/Examples/Logs.antt =====
-- Instances for internal/audit/logger.go and for `Exchange` of internal/sts/sts.go.
use agent_identity_plane.Token.Scope.{has, intersect, join_scopes, scope_set, sink, subset}
use agent_identity_plane.Token.Keys.{equal_fold, sign_claims, signer_jwk}
use agent_identity_plane.Token.Keyring.{allow_activation, ring_sign}
use agent_identity_plane.Token.Jws.{verify}
use agent_identity_plane.Token.Claims.{
  actor_subs, append_act, append_chain, confirm_jkt, contains, current_sub, depth,
  key_retirement_wait, nested_act, replay_until, single, single_audience, subs_of,
  validate_audience, validate_issuer, validate_subject, validate_time,
}
use agent_identity_plane.Registry.{authorize}
use agent_identity_plane.Prelude.Fields.{fields, join_words, trim_space}
use agent_identity_plane.Prelude.Assoc.{lookup, purge}
use agent_identity_plane.Denylist.{deny_exchange}
use agent_identity_plane.Clock.{after}
use agent_identity_plane.Prelude.{◌≡◌, refl, false, List, [], ◌∷◌, some, ok, err, arith}
use agent_identity_plane.Prelude.Int.{add_int64}
use agent_identity_plane.Prelude.Text.{
  Text, codes, contains_text, has_prefix, hex, text_eq, text_lt,
}
use agent_identity_plane.Prelude.Utf8.{
  is_valid, longest_valid, rune_width, to_valid, to_valid_from, valid_from,
}
use agent_identity_plane.Lines.{synced, torn, scan_lines}
use agent_identity_plane.Audit.{
  Event, Logger, AuditError, unhealthy, genesis_prev_hash, payload_hash, chained, recover, append,
  append_to, bound_event_string, canonicalize_event, close, decode_and_verify, decode_audit_record,
  event_canon_equal, recover_lines, require_keys, same_hops, verify_event, write_hashed, write_line,
  write_marshalled, write_synced,
}
use agent_identity_plane.Audit.Canonical.{IsBounded, bound_event_string-IsBounded}
use agent_identity_plane.Audit.Linked.{IsStored}
use agent_identity_plane.Audit.Appending.{append-IsStored, IsAppended, IsNamed}
use agent_identity_plane.Audit.History.{new_log, Recovers, appends_recover}
use agent_identity_plane.Audit.Evidence.{recover-Chained, Chained, last_of}
use agent_identity_plane.Audit.Health.{append-IsShut, IsShut, Fails}
use agent_identity_plane.Sts.Exchange.{exchange}
use agent_identity_plane.Sts.Service.{
  State, AuditEnv, handle, minted_event, event_of, count, denied_event, install_identity,
  reason_code, recorded, replace_keyring,
}
use agent_identity_plane.Sts.Service.Recorded.{handle-IsStored}
use agent_identity_plane.Sts.Replay.{new_replay_cache, consume}
use agent_identity_plane.Examples.Registries.{known_time}
use agent_identity_plane.Examples.Codecs.{codec}
use agent_identity_plane.Examples.Events.{events, events-IsJson, write_texts}
use agent_identity_plane.Examples.Exchanges.{std, config, request, env, minted}

abbrev pub stamp : Text
stamp = codes "2026-01-01T00:00:00Z"

abbrev pub empty_log : Logger
empty_log = record {
  file = some [];
  prev_hash = genesis_prev_hash;
  chain_index = 0;
  poisoned = false;
}

stamp-IsBounded : IsBounded stamp
unfolding is_valid
stamp-IsBounded = (refl, omega arith)

empty_log-IsStored : IsStored events empty_log []
unfolding is_valid
empty_log-IsStored = record {
  content = refl;
  chain = tt;
  end = refl;
  bounded = (refl, omega arith);
  named = refl;
}

bound_event_string-IsBounded_example :
    IsBounded (agent_identity_plane.Audit.bound_event_string (0xFF ∷ []))
bound_event_string-IsBounded_example = bound_event_string-IsBounded (0xFF ∷ [])

abbrev pub event : Event
event = minted_event request minted

appended : (append events empty_log stamp event synced).0 ≡ ok tt
unfolding depth append longest_valid handle hex write_texts
appended = refl

event-IsNamed : IsNamed events events-IsJson event
unfolding append longest_valid minted_event
event-IsNamed = (refl, refl)

append-IsStored_example :
    IsAppended events events-IsJson empty_log [] stamp event
      (append events empty_log stamp event synced).1
append-IsStored_example =
    append-IsStored events events-IsJson empty_log [] stamp event synced empty_log-IsStored refl
      stamp-IsBounded event-IsNamed (omega arith) appended

abbrev log_of_one : Logger
log_of_one = (append events new_log stamp event synced).1

abbrev log_of_two : Logger
log_of_two = (append events log_of_one stamp event synced).1

appended_again : (append events log_of_one stamp event synced).0 ≡ ok tt
unfolding depth append longest_valid handle hex write_texts
appended_again = refl

-- Two records of a new log.
appends_recover_example : Recovers events events-IsJson 2 log_of_two
appends_recover_example =
    appends_recover events events-IsJson ((stamp, event, synced) ∷ (stamp, event, synced) ∷ [])
      log_of_two ((stamp-IsBounded, event-IsNamed), ((stamp-IsBounded, event-IsNamed), tt))
      (omega arith) (appended, (appended_again, refl))

abbrev read_log : Logger
read_log = record {
  file = some [];
  prev_hash = genesis_prev_hash;
  chain_index = 0;
  poisoned = false;
}

recover-Chained_example :
    (es : List Event) × Chained events genesis_prev_hash 0 (scan_lines []) es
    × (last_of events genesis_prev_hash 0 es ≡ (read_log.prev_hash, read_log.chain_index))
    × (read_log.poisoned ≡ false)
recover-Chained_example = recover-Chained events [] read_log (unfold recover scan_lines in refl)

torn-Fails : Fails events (append events empty_log stamp event (torn 3)).0
unfolding confirm_jkt single contains single_audience replay_until key_retirement_wait validate_time
    validate_issuer validate_audience validate_subject subs_of current_sub actor_subs depth
    nested_act append_act append_chain text_eq text_lt has_prefix contains_text bound_event_string
    canonicalize_event same_hops event_canon_equal payload_hash require_keys decode_audit_record
    verify_event decode_and_verify recover_lines recover chained write_synced write_line
    write_marshalled write_hashed append_to append close rune_width valid_from is_valid
    to_valid_from to_valid longest_valid reason_code minted_event denied_event event_of count
    recorded handle install_identity replace_keyring hex write_texts
torn-Fails = λ e. cc

append-IsShut_example : IsShut events (append events empty_log stamp event (torn 3)).1
append-IsShut_example = append-IsShut events empty_log stamp event (torn 3) torn-Fails

abbrev service : State
service = record {
  replay = some new_replay_cache;
  audit = some empty_log;
  metrics = record { minted = 0; denied = 0; replays = 0 };
}

abbrev good_log : AuditEnv
good_log = record { stamp = stamp; outcome = synced }

abbrev bad_log : AuditEnv
bad_log = record { stamp = stamp; outcome = torn 0 }

answered :
    (handle std (codec 0) events known_time config service request env good_log).0 ≡ ok minted
unfolding exchange has agent_identity_plane.Token.Scope.add scope_set sink join_scopes subset
    intersect replay_until validate_time validate_audience validate_subject depth nested_act
    append_chain verify equal_fold signer_jwk sign_claims allow_activation ring_sign authorize
    deny_exchange new_replay_cache consume trim_space fields join_words text_eq lookup purge
    add_int64 after agent_identity_plane.Clock.add append longest_valid handle write_texts
answered = refl

failed :
    (append events empty_log stamp
      (event_of request
        (exchange std (codec 0) known_time config (some new_replay_cache) request env).0)
      (torn 0)).0
    ≡ err AuditError.write_failed
unfolding exchange has agent_identity_plane.Token.Scope.add scope_set sink join_scopes subset
    intersect replay_until validate_time validate_audience validate_subject depth nested_act
    append_chain verify equal_fold signer_jwk allow_activation ring_sign authorize deny_exchange
    new_replay_cache consume trim_space fields join_words text_eq lookup purge add_int64 after
    append longest_valid handle write_texts
failed = refl

handle-IsStored_example :
    (l' : Logger) × ((handle std
        (codec 0)
        events
        known_time
        config
        service
        request
        env
        good_log).1.audit
      ≡ some l')
    × IsAppended events events-IsJson empty_log [] stamp event l'
handle-IsStored_example =
    handle-IsStored std (codec 0) events known_time events-IsJson config service empty_log []
      request env good_log minted refl empty_log-IsStored refl stamp-IsBounded (omega arith)
      answered
