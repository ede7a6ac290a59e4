-- ===== src/Jsonutil.antt =====
-- internal/jsonutil/json.go: one JSON value and nothing after it. The decoder of encoding/json is
-- `next_value`, which reads one value of a type from the input and returns the rest of the input,
-- reports the end of the input, or fails with a message.
use agent_identity_plane.Prelude.{Bool, true, false, [], ◌∷◌, Result, ok, err}
use agent_identity_plane.Prelude.Text.{Text}

pub data Decoded (A : Type 0) : Type 0 where
  value : A → Text → Decoded A
  eof : Decoded A
  failed : Text → Decoded A

pub data JsonError : Type 0 where
  trailing : JsonError
  trailing_after : Text → JsonError
  message : Text → JsonError

-- The text of `io.EOF`.
abbrev eof_text : Text
eof_text = b'E' ∷ b'O' ∷ b'F' ∷ []

module _ {A : Type 0} (next_value : Bool → Text → Decoded A) (next_raw : Text → Decoded Text) where
  after_first : A → Decoded Text → Result JsonError A
  after_first v eof = ok v
  after_first v (value extra rest) = err trailing
  after_first v (failed e) = err (trailing_after e)

  unfoldable pub decode : Bool → Text → Result JsonError A
  unfolding after_first
  decode strict raw = elim (next_value strict raw) [
    | value v rest ↦ after_first v (next_raw rest)
    | eof ↦ err (message eof_text)
    | failed e ↦ err (message e)
  ]

  unfoldable pub unmarshal : Text → Result JsonError A
  unfolding decode
  unmarshal = decode false

  unfoldable pub unmarshal_strict : Text → Result JsonError A
  unfolding decode
  unmarshal_strict = decode true
