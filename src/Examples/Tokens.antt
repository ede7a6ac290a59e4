-- ===== src/Examples/Tokens.antt =====
-- Instances for internal/token: the time check, the actor chain.
use agent_identity_plane.Prelude.{◌≡◌, refl, ◌↔◌, [], ◌∷◌, none, some, ok, err, arith}
use agent_identity_plane.Prelude.Int.{pos, ◌≤ℤ◌, int64_max, add_int64}
use agent_identity_plane.Prelude.Text.{codes}
use agent_identity_plane.Clock.{Time, unix}
use agent_identity_plane.Token.Errors.{expired}
use agent_identity_plane.Token.Claims.{
  root, Claims, actor_subs, nested_act, append_chain, validate_time, replay_until,
}
use agent_identity_plane.Token.Lifetime.{validate_time_iff_replay_until, validate_time_overflow}

abbrev pub noon : Time
noon = record { sec = pos 1000; nsec = 0 }

-- Alice's token after one hop, by the agent `a`.
abbrev pub hop_one : Claims
hop_one = record {
  iss = codes "sts";
  sub = codes "alice";
  aud = codes "agent://b" ∷ [];
  exp = pos 1120;
  nbf = pos 0;
  iat = pos 1000;
  jti = codes "jti-1";
  txn = codes "txn-1";
  act = some (root (codes "sts") (codes "agent://a"));
  act_chain = [];
  scope = codes "read write";
  purp = [];
  cnf = none;
}

abbrev hop_two : Claims
hop_two = record hop_one {
  act = some (nested_act (codes "sts") (codes "agent://b") hop_one.act);
  act_chain = append_chain hop_one;
}

hop_two_test : actor_subs hop_two ≡ codes "agent://a" ∷ codes "agent://b" ∷ []
unfolding actor_subs append_chain nested_act
hop_two_test = refl

-- The token is valid at the last second of the skew, so its deadline has not passed.
abbrev last_second : Time
last_second = record { sec = pos 1150; nsec = 999_999_999 }

valid_to_the_end : validate_time hop_one last_second 0 ≡ ok tt
unfolding validate_time add_int64
valid_to_the_end = refl

validate_time_iff_replay_until_example :
    (validate_time hop_one noon 0 ≡ ok tt) ↔ (unix noon ≤ℤ replay_until hop_one.exp)
validate_time_iff_replay_until_example =
    validate_time_iff_replay_until hop_one noon (omega arith) refl

abbrev everlasting : Claims
everlasting = record hop_one { exp = pos int64_max }

validate_time_overflow_example : validate_time everlasting noon 0 ≡ err expired
validate_time_overflow_example =
    validate_time_overflow everlasting noon int64_max refl (omega arith) (omega arith) (omega arith)
