-- ===== src/Gateway/Serving.antt =====
-- internal/gateway/gateway.go: what a server is made with. The net package's part is in Sts/Http.
use agent_identity_plane.Prelude.{
  Bool, true, false, not, ◌&&◌, ◌||◌, Option, none, some, if◌then◌else◌, Result, ok, err, ◌>>◌,
  fail_if,
}
use agent_identity_plane.Prelude.Text.{Text, is_empty, codes}
use agent_identity_plane.Prelude.Fields.{is_blank}
use agent_identity_plane.Denylist.{Url}
use agent_identity_plane.Verify.{Verifier}
use agent_identity_plane.Dpop.{web_scheme}
use agent_identity_plane.Sts.Http.{Net, validate_bind}

pub data ServerError : Type 0 where
  bad_bind tls_pair verifier_required audit_required replay_required : ServerError
  backend_required bad_backend : ServerError

-- The fields of a `Config` that `NewServer` reads; of the log and the cache, whether they are there.
pub record ServerConfig : Type 0 where
  pub bind : Text
  pub tls_cert_file : Text
  pub tls_key_file : Text
  pub verifier : Option Verifier
  pub audience : Text
  pub has_audit : Bool
  pub has_replay : Bool
  pub identity_only : Bool
  pub backend : Option Url

abbrev is_web : Option Text → Bool
is_web none = false
is_web (some s) = true

-- `CheckBackend`
unfoldable pub check_backend : Option Url → Result ServerError Unit
unfolding web_scheme
check_backend none = ok tt
check_backend (some u) = do
  fail_if (is_empty u.host) bad_backend
  fail_if (not (is_web (web_scheme u.scheme))) bad_backend

abbrev no_issuer : Option Verifier → Bool
no_issuer none = true
no_issuer (some v) = is_blank v.issuer

abbrev absent : {A : Type 0} → Option A → Bool
absent none = true
absent (some a) = false

abbrev or_bad_bind : {E A : Type 0} → Result E A → Result ServerError A
or_bad_bind (ok a) = ok a
or_bad_bind (err e) = err bad_bind

abbrev one_of_two : Text → Text → Bool
one_of_two a b = if is_empty a then not (is_empty b) else is_empty b

-- `NewServer` but for the server that it makes: the address that is bound, and whether it is TLS.
unfoldable pub new_server : Net → ServerConfig → Result ServerError (Text × Bool)
unfolding validate_bind check_backend
new_server net c =
    let bind = if is_empty c.bind then codes "127.0.0.1:8090" else c.bind in
    do
      or_bad_bind (validate_bind net bind)
      fail_if (one_of_two c.tls_cert_file c.tls_key_file) tls_pair
      fail_if (is_empty c.audience || no_issuer c.verifier) verifier_required
      fail_if (not c.has_audit) audit_required
      fail_if (not c.has_replay) replay_required
      fail_if (not c.identity_only && absent c.backend) backend_required
      check_backend c.backend
      ok (bind, not (is_empty c.tls_cert_file))
