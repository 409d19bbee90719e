-- ===== src/ControlApi/Keys/Rotation.antt =====
-- Who can rotate an API key through RotateAPIKey of apps/control-api/internal/handler/handler.go.
use openserve.Prelude.{Bytes, codes, Option, none, [], ◌∷◌, ◌++◌, some, ◌≡◌, refl}
use openserve.Prelude.Hex.{hex_encode}
use openserve.Gateway.Auth.Hash.{Argon2}
use openserve.Keys.{
  key_prefix, prefix, phc, generate, time_param, memory_param, threads_param, key_len_param,
}
use openserve.ControlApi.Tables.{ApiKey, Fields, key_of, text}
use openserve.ControlApi.Tables.Rows.{find-update_where_same}
use openserve.ControlApi.Database.{
  State, Outcome, next, replied, Action, serve, write_json, signed_in, write_audit_log, continue,
  some_or, give, Response, ◌>>=◌, ◌>>◌,
}
use openserve.ControlApi.Keys.{rotate_api_key, set_secret}

-- The state in which all statements to come are answered.
abbrev pub quiet : State → State
quiet s = record s { verdicts = [] }

-- Two runs with the same outcome and the same tables.
abbrev pub Alike : {A : Type 0} → Outcome A × State → Outcome A × State → Type 0
Alike x y = (x.0 ≡ y.0) × (x.1.db ≡ y.1.db)

-- Two handlers that are alike in every state.
record AreAlike {A : Type 0} (m n : Action A) : Type 0 where
  at : (s : State) → Alike (m s) (n s)

module _ {A B : Type 0} (k k' : A → Action B) where
  continue-Alike :
      (o : Outcome A) (s : State)
      → ((a : A) → AreAlike (k a) (k' a))
      → Alike (continue o k s) (continue o k' s)
  unfolding continue
  continue-Alike (next a) s same = (same a).at s
  continue-Alike (replied r) s same = (refl, refl)

  -- Handlers that begin with the same step are alike if their rests are.
  bind-AreAlike : (m : Action A) → ((a : A) → AreAlike (k a) (k' a)) → AreAlike (m >>= k) (m >>= k')
  unfolding ◌>>=◌
  bind-AreAlike m same = record { at = λ s. continue-Alike (m s).0 (m s).1 same }

  signed_in-AreAlike :
      (a b : A) (m n : Action A)
      → m ≡ give a
      → n ≡ give b
      → AreAlike (k a) (k' b)
      → AreAlike (m >>= k) (n >>= k')
  unfolding ◌>>=◌ continue give
  signed_in-AreAlike a b m n e f same = rw (e, f) same

audit_log-AreAlike :
    (org_id subject other action resource_type id : Bytes) (details : Option Fields) (r : Response)
    → AreAlike
        (write_audit_log org_id subject action resource_type id details >> give r)
        (write_audit_log org_id other action resource_type id details >> give r)
unfolding write_audit_log ◌>>=◌ continue give
audit_log-AreAlike org_id subject other action resource_type id details r = record {
  at = λ s. (refl, refl);
}

rotate_api_key-AreAlike :
    (argon2 : Argon2) (subject other id : Bytes) (random random_salt : Option Bytes)
    → AreAlike
        (rotate_api_key argon2 (some subject) id random random_salt)
        (rotate_api_key argon2 (some other) id random random_salt)
unfolding rotate_api_key signed_in some_or
rotate_api_key-AreAlike argon2 subject other id random random_salt =
    signed_in-AreAlike _ _ subject other _ _ refl refl (
      bind-AreAlike _ _ _ λ k. bind-AreAlike _ _ _ λ (raw_key, key_hash).
        bind-AreAlike _ _ _ λ _. audit_log-AreAlike k.org_id subject other _ _ id none _)

module _ (argon2 : Argon2) (subject id key_bytes salt : Bytes) where
  -- The key that `Generate` makes of these random bytes, and its hash.
  abbrev pub new_raw_key : Bytes
  new_raw_key = key_prefix ++ hex_encode key_bytes

  abbrev pub new_hash : Bytes
  new_hash =
      phc salt (argon2.id_key new_raw_key salt time_param memory_param threads_param key_len_param)

  -- Where the database answers every statement and both reads of random bytes succeed, whoever is
  -- signed in, a member of the key's org or not, gets a new secret for any key that there is, and the
  -- row is then that of the new secret: the old one is gone. And in every state `t`, whatever its
  -- statements meet and the random source gives, the reply and the tables behind it are those that
  -- any other signed-in caller gets.
  pub rotate_api_key-any_caller :
      (s t : State) (k : ApiKey) (other : Bytes) (random random_salt : Option Bytes)
      → key_of id s.db ≡ some k
      → let (r, s') =
          serve (rotate_api_key argon2 (some subject) id (some key_bytes) (some salt)) (quiet s) in
        (r ≡ write_json 200 ((codes "key", text new_raw_key) ∷ []))
        × (key_of id s'.db
            ≡ some (record k { key_prefix = prefix new_raw_key; key_hash = new_hash }))
        × Alike
            (rotate_api_key argon2 (some subject) id random random_salt t)
            (rotate_api_key argon2 (some other) id random random_salt t)
  unfolding rotate_api_key ◌>>=◌ signed_in set_secret generate write_audit_log key_of
  rotate_api_key-any_caller s t k other random random_salt e =
      let alike = (rotate_api_key-AreAlike argon2 subject other id random random_salt).at t in
      rw e (
        refl,
        find-update_where_same (λ (y : ApiKey). y.id) id
            (λ y. record y { key_prefix = prefix new_raw_key; key_hash = new_hash }) s.db.api_keys k
            (λ y. refl) e,
        alike,
      )
