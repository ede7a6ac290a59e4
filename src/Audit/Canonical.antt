-- ===== src/Audit/Canonical.antt =====
-- The canonical form of an event of internal/audit/logger.go.
use agent_identity_plane.Prelude.{
  ℕ, zero, suc, ◌≤◌, ◌≡◌, refl, true, List, [], ◌∷◌, map, arith, length, take,
}
use agent_identity_plane.Prelude.Text.{Text, text_eq_refl}
use agent_identity_plane.Prelude.Utf8.{is_valid, to_valid}
use agent_identity_plane.Prelude.Utf8.Repair.{
  longest_valid-is_valid, length-longest_valid, to_valid-is_valid,
}
use agent_identity_plane.Audit.{
  Event, bound_event_string, canonicalize_event, max_event_string, max_event_hops, same_hops,
  event_canon_equal,
}

-- Valid UTF-8 and within the bound.
abbrev pub IsBounded : Text → Type 0
IsBounded s = (is_valid s ≡ true) × (length s ≤ max_event_string)

-- A bounded text is valid UTF-8 of at most 4096 bytes, whatever it was.
pub bound_event_string-IsBounded : (s : Text) → IsBounded (bound_event_string s)
unfolding bound_event_string
bound_event_string-IsBounded s = ground (
  arith,
  longest_valid-is_valid max_event_string s,
  length-longest_valid max_event_string s,
  longest_valid-is_valid max_event_string (to_valid s),
  length-longest_valid max_event_string (to_valid s),
  to_valid-is_valid s,
)

pub bound_event_string_of_bounded : (s : Text) → IsBounded s → bound_event_string s ≡ s
unfolding bound_event_string
bound_event_string_of_bounded s (v, n) = rw v (ground arith)

bound_twice : (s : Text) → bound_event_string (bound_event_string s) ≡ bound_event_string s
bound_twice s =
    bound_event_string_of_bounded (bound_event_string s) (bound_event_string-IsBounded s)

bound_hops :
    (n : ℕ) (hs : List Text)
    → map bound_event_string (take n (map bound_event_string (take n hs)))
      ≡ map bound_event_string (take n hs)
bound_hops zero hs = refl
bound_hops (suc n) [] = refl
bound_hops (suc n) (h ∷ hs) = rw (bound_twice h, bound_hops n hs) refl

-- An event that the canonical form leaves as it is.
abbrev pub IsCanonical : Event → Type 0
IsCanonical e = canonicalize_event e ≡ e

-- A canonical event stays one with another bounded time, bounded hashes and another index.
pub IsCanonical-with :
    (e : Event) (stamp h prev : Text) (i : ℕ)
    → IsBounded stamp
    → IsBounded h
    → IsBounded prev
    → IsCanonical (record (canonicalize_event e) {
      timestamp = stamp;
      hash = h;
      prev_hash = prev;
      chain_index = i;
    })
unfolding canonicalize_event
IsCanonical-with e stamp h prev i bs bh bp =
    rw
      (
        bound_event_string_of_bounded stamp bs,
        bound_event_string_of_bounded h bh,
        bound_event_string_of_bounded prev bp,
        bound_twice e.event_type,
        bound_twice e.reason_code,
        bound_twice e.txn,
        bound_twice e.jti,
        bound_twice e.agent_id,
        bound_twice e.workload,
        bound_twice e.principal,
        bound_twice e.audience,
        bound_twice e.scope,
        bound_hops max_event_hops e.hops,
      )
      refl

same_hops_refl : (hs : List Text) → same_hops hs hs ≡ true
unfolding same_hops
same_hops_refl [] = refl
same_hops_refl (h ∷ hs) = rw (text_eq_refl h, same_hops_refl hs) refl

pub event_canon_equal_refl : (e : Event) → event_canon_equal e e ≡ true
unfolding event_canon_equal
event_canon_equal_refl e = simp (text_eq_refl, same_hops_refl)
