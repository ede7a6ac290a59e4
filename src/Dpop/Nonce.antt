-- ===== src/Dpop/Nonce.antt =====
-- internal/dpop/nonce.go: the nonces that the gateway has issued. `now` is the instant that a method
-- uses: its argument, or the clock's where that is the zero time.
pub mod Refinement
use agent_identity_plane.Prelude.{
  ℕ, ◌*◌, Bool, true, false, not, ◌&&◌, List, [], ◌∷◌, ◌++◌, Option, none, some, if◌then◌else◌,
  ◌==◌,
}
use agent_identity_plane.Prelude.Int.{ℤ, ltb_ℤ, leb_ℤ}
use agent_identity_plane.Prelude.Text.{Text, codes, hex, contains_text}
use agent_identity_plane.Prelude.Fields.{is_blank, trim_space}
use agent_identity_plane.Prelude.Assoc.{Assoc, lookup, insert, erase, purge}
use agent_identity_plane.Clock.{Time, unix, add, second}

-- `NonceTTL`, in nanoseconds
abbrev pub nonce_ttl : ℕ
nonce_ttl = 120 * second

-- `issued`, with the last second of each nonce
pub record NonceCache : Type 0 where
  pub issued : Assoc ℤ

unfoldable pub new_nonce_cache : NonceCache
new_nonce_cache = record { issued = [] }

unfoldable pub gc_locked : NonceCache → ℤ → NonceCache
gc_locked c now = record c { issued = purge (λ until. ltb_ℤ until now) c.issued }

unfoldable pub new_nonce : List ℕ → Text
unfolding hex
new_nonce bytes = codes "n-" ++ hex bytes

-- The nonce is remembered to 120 seconds after the instant.
unfoldable pub store_nonce : NonceCache → Text → Time → NonceCache
unfolding gc_locked
store_nonce c n now = record c {
  issued = insert n (unix (add now nonce_ttl)) (gc_locked c (unix now)).issued;
}

-- `Issue` on the bytes that it has read
unfoldable pub issue : Option NonceCache → Time → List ℕ → Text × Option NonceCache
unfolding store_nonce new_nonce
issue none now bytes = ([], none)
issue (some c) now bytes = (new_nonce bytes, some (store_nonce c (new_nonce bytes) now))

abbrev pub unexpired : ℤ → Option ℤ → Bool
unexpired now none = false
unexpired now (some until) = leb_ℤ now until

unfoldable pub has : Option NonceCache → Text → Time → Bool
has none nonce now = false
has (some c) nonce now = not (is_blank nonce) && unexpired (unix now) (lookup nonce c.issued)

abbrev forget : NonceCache → Text → NonceCache
forget c nonce = record c { issued = erase nonce c.issued }

-- `Consume`: the nonce goes, whether it was valid or not.
unfoldable pub consume : Option NonceCache → Text → Time → Bool × Option NonceCache
consume none nonce now = (false, none)
consume (some c) nonce now =
    if is_blank nonce
    then (false, some c)
    else (unexpired (unix now) (lookup nonce c.issued), some (forget c nonce))

-- What a client reads of a response.
pub record Response : Type 0 where
  pub status : ℕ
  pub www_authenticate : Text
  pub dpop_nonce : Text

unfoldable pub nonce_from_challenge : Option Response → Text
unfolding contains_text
nonce_from_challenge none = []
nonce_from_challenge (some r) =
    if not (r.status == 401)
    then []
    else if not (contains_text r.www_authenticate (codes "use_dpop_nonce"))
    then []
    else trim_space r.dpop_nonce
