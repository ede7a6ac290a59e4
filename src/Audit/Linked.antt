-- ===== src/Audit/Linked.antt =====
-- The chain that `Append` of internal/audit/logger.go extends and `recover` checks.
use agent_identity_plane.Prelude.{
  ℕ, ◌≡◌, ◌≢◌, refl, ap, true, false, List, [], ◌∷◌, ◌++◌, map, none, some, ok, All,
}
use agent_identity_plane.Prelude.Text.{Text, is_empty, codes, hex}
use agent_identity_plane.Token.Claims.{contains}
use agent_identity_plane.Lines.{line, IsLine, IsReadable, drop_cr, unlines, scan_lines-unlines}
use agent_identity_plane.Audit.{
  Event, Logger, Codec, genesis_prev_hash, next_index, required, decode_and_verify, recover_lines,
  recover,
}
use agent_identity_plane.Audit.Canonical.{IsBounded, IsCanonical}

-- What the code relies on of encoding/json and SHA-256: an event is marshalled to one line that is not
-- empty, whose keys have the required ones, and from which a canonical event is read back; a digest
-- in hexadecimal is a bounded text.
pub record IsJson (codec : Codec) : Type 0 where
  pub marshal-total : (e : Event) → codec.marshal e ≢ none
  pub marshal-IsLine :
      (e : Event) (t : Text)
      → codec.marshal e ≡ some t
      → IsLine t × (drop_cr t ≡ t) × (is_empty t ≡ false)
  pub keys-marshal :
      (e : Event) (t : Text)
      → codec.marshal e ≡ some t
      → (ks : List Text) × (codec.keys t ≡ some ks)
        × All (λ k. contains ks k ≡ true) (required codec)
  pub strict-marshal :
      (e : Event) (t : Text) → codec.marshal e ≡ some t → IsCanonical e → codec.strict t ≡ ok e
  pub sha256-IsBounded : (p : Text) → IsBounded (codes "sha256:" ++ hex (codec.sha256 p))

module _ (codec : Codec) where
  -- A record with its line.
  abbrev pub Entry : Type 0
  Entry = Event × Text

  -- The lines decode to the records, each of which follows from the hash and the index before it.
  abbrev pub IsChain : Text → ℕ → List Entry → Type 0
  IsChain prev index [] = Unit
  IsChain prev index ((e, t) ∷ es) =
      (decode_and_verify codec t prev (next_index index) ≡ ok e)
      × IsReadable t
      × (is_empty t ≡ false)
      × IsChain e.hash e.chain_index es

  -- The hash and the index at the end of a chain.
  abbrev pub chain_end : Text → ℕ → List Entry → Text × ℕ
  chain_end prev index [] = (prev, index)
  chain_end prev index ((e, t) ∷ es) = chain_end e.hash e.chain_index es

  abbrev pub texts : List Entry → List Text
  texts [] = []
  texts ((e, t) ∷ es) = t ∷ texts es

  texts-IsReadable :
      (prev : Text) (index : ℕ) (es : List Entry)
      → IsChain prev index es
      → All IsReadable (texts es)
  texts-IsReadable prev index [] h = tt
  texts-IsReadable prev index ((e, t) ∷ es) (d, r, n, h) =
      (r, texts-IsReadable e.hash e.chain_index es h)

  recover_lines-IsChain :
      (prev : Text) (index : ℕ) (es : List Entry)
      → IsChain prev index es
      → recover_lines codec prev index (map line (texts es)) ≡ ok (chain_end prev index es)
  unfolding recover_lines
  recover_lines-IsChain prev index [] h = refl
  recover_lines-IsChain prev index ((e, t) ∷ es) (d, r, n, h) =
      rw n (rw d (recover_lines-IsChain e.hash e.chain_index es h))

  pub IsChain-append :
      (prev : Text) (index : ℕ) (es : List Entry) (e : Event) (t : Text)
      → IsChain prev index es
      → (let (p, i) = chain_end prev index es in decode_and_verify codec t p (next_index i) ≡ ok e)
      → IsReadable t
      → is_empty t ≡ false
      → IsChain prev index (es ++ (e, t) ∷ [])
        × (chain_end prev index (es ++ (e, t) ∷ []) ≡ (e.hash, e.chain_index))
  IsChain-append prev index [] e t h d r n = ((d, r, n, tt), refl)
  IsChain-append prev index ((f, u) ∷ es) e t (a, b, c, h) d r n =
      let (chain, last) = IsChain-append f.hash f.chain_index es e t h d r n in
      ((a, b, c, chain), last)

  pub texts-append :
      (es : List Entry) (e : Event) (t : Text) → texts (es ++ (e, t) ∷ []) ≡ texts es ++ t ∷ []
  texts-append [] e t = refl
  texts-append ((f, u) ∷ es) e t = ap (λ l. u ∷ l) (texts-append es e t)

  -- A logger whose file is a chain that ends where the logger stands.
  pub record IsStored (l : Logger) (es : List Entry) : Type 0 where
    pub content : l.file ≡ some (unlines (texts es))
    pub chain : IsChain genesis_prev_hash 0 es
    pub end : chain_end genesis_prev_hash 0 es ≡ (l.prev_hash, l.chain_index)
    pub bounded : IsBounded l.prev_hash
    pub named : is_empty l.prev_hash ≡ false

  -- The file of a stored log recovers to a logger that stands where the log stood.
  pub recover_of_stored :
      (l : Logger) (es : List Entry)
      → IsStored l es
      → recover codec (unlines (texts es))
        ≡ ok (record {
          file = some (unlines (texts es));
          prev_hash = l.prev_hash;
          chain_index = l.chain_index;
          poisoned = false;
        })
  unfolding recover
  recover_of_stored l es s =
      rw (scan_lines-unlines (texts es) (texts-IsReadable genesis_prev_hash 0 es s.chain))
        (rw (recover_lines-IsChain genesis_prev_hash 0 es s.chain) (rw s.end refl))
