-- ===== src/Sts/Service/Recorded.antt =====
-- The record of a token that internal/sts/sts.go answers with, where a log is configured.
use agent_identity_plane.Prelude.{
  suc, ◌^◌, ◌<◌, ◌≡◌, refl, sym, ap, ◌∙◌, false, List, Option, none, some, arith, Result, ok, err,
}
use agent_identity_plane.Prelude.Text.{Text, is_empty, codes}
use agent_identity_plane.Prelude.Utf8.{is_valid}
use agent_identity_plane.Token.Keys.{Primitives}
use agent_identity_plane.Clock.{Time}
use agent_identity_plane.Sts.Request.{Config, ExchangeRequest, Env, Denial, Minted}
use agent_identity_plane.Sts.Exchange.{exchange}
use agent_identity_plane.Sts.Service.{
  State, AuditEnv, audit_unavailable, minted_event, event_of, recorded, settle, handle,
}
use agent_identity_plane.Audit.{Logger, Codec, AuditError, append}
use agent_identity_plane.Audit.Canonical.{IsBounded, bound_event_string_of_bounded}
use agent_identity_plane.Audit.Linked.{IsJson, Entry, IsStored}
use agent_identity_plane.Audit.Appending.{IsNamed, IsAppended, append-IsStored}
use agent_identity_plane.Sts.Replay

module _ (codec : Codec) where
  settle-ok :
      (s : State) (out : Result Denial Minted) (m : Minted) (r : Result AuditError Unit × Logger)
      → (settle codec s out r).0 ≡ ok m
      → (out ≡ ok m) × (r.0 ≡ ok tt) × ((settle codec s out r).1.audit ≡ some r.1)
  unfolding settle
  settle-ok s out m (ok u, l) h = (h, refl, refl)
  settle-ok s out m (err e, l) h = cc

  pub recorded-ok :
      (s : State) (log : Option Logger) (req : ExchangeRequest) (aenv : AuditEnv)
      (out : Result Denial Minted) (m : Minted)
      → (recorded codec s log req aenv out).0 ≡ ok m
      → out ≡ ok m
  unfolding recorded
  recorded-ok s none req aenv out m h = h
  recorded-ok s (some l) req aenv out m h =
      (settle-ok s out m (append codec l aenv.stamp (event_of req out) aenv.outcome) h).0

  settle-err :
      (s : State) (out : Result Denial Minted) (e : AuditError)
      (r : Result AuditError Unit × Logger)
      → r.0 ≡ err e
      → (settle codec s out r).0 ≡ err audit_unavailable
  unfolding settle
  settle-err s out e (ok u, l) h = cc
  settle-err s out e (err f, l) h = refl

event_of_ok : (req : ExchangeRequest) (m : Minted) → event_of req (ok m) ≡ minted_event req m
unfolding event_of
event_of_ok req m = refl

minted_event-IsNamed :
    (codec : Codec) (json : IsJson codec) (req : ExchangeRequest) (m : Minted)
    → IsNamed codec json (minted_event req m)
unfolding minted_event
minted_event-IsNamed codec json req m = (
  ap is_empty (bound_event_string_of_bounded (codes "token_minted") minted_bounded),
  ap is_empty (bound_event_string_of_bounded (codes "ok") ok_bounded),
)
  where
    minted_bounded : IsBounded (codes "token_minted")
    minted_bounded = (unfold is_valid in refl, omega arith)

    ok_bounded : IsBounded (codes "ok")
    ok_bounded = (unfold is_valid in refl, omega arith)

module _ (std : Primitives) (replays : agent_identity_plane.Sts.Replay.Codec) (events : Codec)
    (parse_rfc3339 : Text → Option Time) where
  abbrev decided : Config → State → ExchangeRequest → Env → Result Denial Minted
  decided c s req env = (exchange std replays parse_rfc3339 c s.replay req env).0

  handle-settle :
      (c : Config) (s : State) (l : Logger) (req : ExchangeRequest) (env : Env) (aenv : AuditEnv)
      → s.audit ≡ some l
      → handle std replays events parse_rfc3339 c s req env aenv
        ≡ settle events
            (record s { replay = (exchange std replays parse_rfc3339 c s.replay req env).1 })
            (decided c s req env)
            (append events l aenv.stamp (event_of req (decided c s req env)) aenv.outcome)
  unfolding handle recorded
  handle-settle c s l req env aenv a =
      ap
        (λ o.
          recorded events
            (record s { replay = (exchange std replays parse_rfc3339 c s.replay req env).1 }) o req
            aenv (decided c s req env))
        a

  -- Where the log cannot take the record, the answer is the error of an unavailable audit, whatever
  -- the exchange has decided.
  pub handle_of_failed_append :
      (c : Config) (s : State) (l : Logger) (req : ExchangeRequest) (env : Env) (aenv : AuditEnv)
      (e : AuditError)
      → s.audit ≡ some l
      → (append events l aenv.stamp
          (event_of req (exchange std replays parse_rfc3339 c s.replay req env).0)
          aenv.outcome).0
        ≡ err e
      → (handle std replays events parse_rfc3339 c s req env aenv).0 ≡ err audit_unavailable
  handle_of_failed_append c s l req env aenv e a h =
      ap (λ r. r.0) (handle-settle c s l req env aenv a)
      ∙ settle-err events
          (record s { replay = (exchange std replays parse_rfc3339 c s.replay req env).1 })
          (decided c s req env) e
          (append events l aenv.stamp (event_of req (decided c s req env)) aenv.outcome) h

  module _ (json : IsJson events) where
    -- Where a token is answered and a log is configured, which is stored and healthy and below its last
    -- index, the token's record has been written, whatever has become of the write: the log that follows
    -- is stored and healthy, with one record more, which is the sealed event of that token, and its file
    -- recovers to it.
    pub handle-IsStored :
        (c : Config) (s : State) (l : Logger) (es : List (Entry events)) (req : ExchangeRequest)
        (env : Env) (aenv : AuditEnv) (m : Minted)
        → s.audit ≡ some l
        → IsStored events l es
        → l.poisoned ≡ false
        → IsBounded aenv.stamp
        → suc l.chain_index < 2 ^ 64
        → (handle std replays events parse_rfc3339 c s req env aenv).0 ≡ ok m
        → (l' : Logger) × ((handle std replays events parse_rfc3339 c s req env aenv).1.audit
            ≡ some l')
          × IsAppended events json l es aenv.stamp (minted_event req m) l'
    handle-IsStored c s l es req env aenv m a stored healthy bs small answered =
        let s' : State = record s {
          replay = (exchange std replays parse_rfc3339 c s.replay req env).1;
        } in
        let settled = handle-settle c s l req env aenv a in
        let (same, written, log) =
          settle-ok events s' (decided c s req env) m
            (append events l aenv.stamp (event_of req (decided c s req env)) aenv.outcome)
            (sym (ap (λ r. r.0) settled) ∙ answered) in
        let appended : append events l aenv.stamp (event_of req (decided c s req env)) aenv.outcome
            ≡ append events l aenv.stamp (minted_event req m) aenv.outcome =
          ap (λ x. append events l aenv.stamp (event_of req x) aenv.outcome) same
          ∙ ap (λ x. append events l aenv.stamp x aenv.outcome) (event_of_ok req m) in
        (
          (append events l aenv.stamp (minted_event req m) aenv.outcome).1,
          ap (λ r. r.1.audit) settled ∙ log ∙ ap (λ r. some r.1) appended,
          append-IsStored events json l es aenv.stamp (minted_event req m) aenv.outcome stored
              healthy bs (minted_event-IsNamed events json req m) small
              (sym (ap (λ r. r.0) appended) ∙ written),
        )
