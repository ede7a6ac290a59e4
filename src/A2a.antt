-- ===== src/A2a.antt =====
-- internal/a2a/a2a.go: the credential of a request.
pub mod Tripper
use agent_identity_plane.Prelude.{
  ◌&&◌, ltb, List, [], ◌∷◌, Option, none, some, if◌then◌else◌, length, take, drop,
}
use agent_identity_plane.Prelude.Text.{Text, codes}
use agent_identity_plane.Prelude.Fields.{trim_space}
use agent_identity_plane.Token.Keys.{equal_fold}

-- One turn of the loop of `AccessToken`.
unfoldable pub credential : Text → Text → Option Text
unfolding equal_fold
credential h p =
    if ltb (length p) (length h) && equal_fold (take (length p) h) p
    then some (trim_space (drop (length p) h))
    else none

unfoldable pub first_credential : Text → List Text → Text
unfolding credential
first_credential h [] = []
first_credential h (p ∷ ps) = elim (credential h p) [ some t ↦ t | none ↦ first_credential h ps ]

-- `AccessToken`, which is `BearerToken` too
unfoldable pub access_token : Text → Text
unfolding first_credential
access_token h = first_credential (trim_space h) (codes "Bearer " ∷ codes "DPoP " ∷ [])
