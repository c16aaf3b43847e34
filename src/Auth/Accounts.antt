-- ===== src/Auth/Accounts.antt =====
-- Which accounts are made, and that their owners can log in.
use mhserver.Common.{
  ℕ, ◌≤◌, ◌≡◌, ◌⊎◌, refl, ◌∙◌, leb→le, true, leb, some, Text, arith, ok, inl, inr, Option-cases,
  Bool-cases,
}
use mhserver.Auth.{
  AuthEnv, AuthService, RegisterUser, Row, row, no_rows, scan_error, byte_length,
  user_name_max_length, new_claims, login, register,
}

-- What the service relies on: a user that is inserted under a new name is found again, removing a key keeps the users, and
-- a password matches its hash.
pub record HasAccounts (env : AuthEnv) : Type 0 where
  pub inserted :
      (name hash : Text) (db db' : env.Db)
      → env.select_user_id name db ≡ no_rows
      → env.insert_user name hash db ≡ (db', true)
      → env.select_user name db' ≡ row (name, hash)
  pub users_kept :
      (name : Text) (id : ℕ) (db db' : env.Db)
      → env.delete_registration_secret_key id db ≡ (db', true)
      → env.select_user name db' ≡ env.select_user name db
  pub password_matches :
      (salt password hash : Text)
      → env.generate_from_password salt password ≡ some hash
      → env.compare_hash_and_password hash password ≡ true

pub Row-cases :
    {A : Type 0} (r : Row A) → ((a : A) × (r ≡ row a)) ⊎ ((r ≡ no_rows) ⊎ (r ≡ scan_error))
Row-cases (row a) = inl (a, refl)
Row-cases no_rows = inr (inl refl)
Row-cases scan_error = inr (inr refl)

module _ (env : AuthEnv) where
  -- What lets Register write to the database: a short new name and a key that is in the table, or
  -- whose lookup failed for another reason than a missing row.
  pub record IsAccepted (salt : Text) (user : RegisterUser) (s : AuthService env) : Type 0 where
    pub short : byte_length user.user.name ≤ user_name_max_length
    pub new : env.select_user_id user.user.name s.db ≡ no_rows
    pub key_id : ℕ
    pub keyed :
        (env.select_register_secret_key user.key s.db ≡ row key_id)
        ⊎ (env.select_register_secret_key user.key s.db ≡ scan_error)
    pub hash : Text
    pub hashed : env.generate_from_password salt user.user.password ≡ some hash

  -- Register changes the database or the folders only for a request that is accepted.
  pub register_guarded :
      (salt : Text) (user : RegisterUser) (s : AuthService env)
      → ((register env salt user s).0 ≡ s) ⊎ IsAccepted salt user s
  unfolding register
  register_guarded salt user s =
      elim (Bool-cases (leb (byte_length user.user.name) user_name_max_length)) [
        | inr long ↦ inl (ground (arith, long))
        | inl short ↦ elim (Option-cases (env.generate_from_password salt user.user.password)) [
          | inl e ↦ inl (ground (arith, e))
          | inr (hash, e) ↦ elim (Row-cases (env.select_user_id user.user.name s.db)) [
            | inl (_, e') ↦ inl (ground (arith, e'))
            | inr (inr e') ↦ inl (ground (arith, e'))
            | inr (inl new) ↦ elim (Row-cases (env.select_register_secret_key user.key s.db)) [
              | inr (inl e') ↦ inl (ground (arith, e'))
              | inl (id, e') ↦ inr (record {
                short = leb→le _ _ short;
                new = new;
                key_id = id;
                keyed = inl e';
                hash = hash;
                hashed = e;
              })
              | inr (inr e') ↦ inr (record {
                short = leb→le _ _ short;
                new = new;
                key_id = 0;
                keyed = inr e';
                hash = hash;
                hashed = e;
              })
            ]
          ]
        ]
      ]

  -- What a registration that succeeds has done.
  record IsRegistered (salt : Text) (user : RegisterUser) (s s' : AuthService env) : Type 0 where
    hash : Text
    key_id : ℕ
    with_user : env.Db
    new : env.select_user_id user.user.name s.db ≡ no_rows
    hashed : env.generate_from_password salt user.user.password ≡ some hash
    inserted : env.insert_user user.user.name hash s.db ≡ (with_user, true)
    deleted : env.delete_registration_secret_key key_id with_user ≡ (s'.db, true)
    same_cfg : s'.cfg ≡ s.cfg

  register_ok :
      (salt : Text) (user : RegisterUser) (s : AuthService env)
      → (register env salt user s).1 ≡ ok tt
      → IsRegistered salt user s (register env salt user s).0
  unfolding register
  register_ok salt user s registered =
      elim (Option-cases (env.generate_from_password salt user.user.password)) [
        | inl e ↦ absurd (ground (arith, e))
        | inr (hash, e) ↦ elim (Row-cases (env.select_user_id user.user.name s.db)) [
          | inl (_, e') ↦ absurd (ground (arith, e, e'))
          | inr (inr e') ↦ absurd (ground (arith, e, e'))
          | inr (inl new) ↦
              let (db, success) = env.insert_user user.user.name hash s.db in
              elim (Row-cases (env.select_register_secret_key user.key s.db)) [
                | inr (inl e') ↦ absurd (ground (arith, e, e', new))
                | inl (id, e') ↦ record {
                  hash = hash;
                  key_id = id;
                  with_user = db;
                  new = new;
                  hashed = e;
                  inserted = ground (arith, e, e', new);
                  deleted = ground (arith, e, e', new);
                  same_cfg = ground (arith, e, e', new);
                }
                | inr (inr e') ↦ record {
                  hash = hash;
                  key_id = 0;
                  with_user = db;
                  new = new;
                  hashed = e;
                  inserted = ground (arith, e, e', new);
                  deleted = ground (arith, e, e', new);
                  same_cfg = ground (arith, e, e', new);
                }
              ]
        ]
      ]

  -- After a registration that succeeds, its owner logs in with the same name and password and gets
  -- the signed token for that name, valid for a day.
  pub register-login :
      (laws : HasAccounts env) (salt : Text) (user : RegisterUser) (now : ℕ) (token : Text)
      (s : AuthService env)
      → (register env salt user s).1 ≡ ok tt
      → env.signed_string (new_claims user.user.name now) s.cfg.jwt_signature ≡ some token
      → (login env now user.user (register env salt user s).0).1 ≡ ok token
  unfolding login
  register-login laws salt user now token s registered signed =
      let r = register_ok salt user s registered in
      let s' = (register env salt user s).0 in
      let found =
        laws.users_kept user.user.name r.key_id r.with_user s'.db r.deleted
        ∙ laws.inserted user.user.name r.hash s.db r.with_user r.new r.inserted in
      ground (
        arith,
        found,
        laws.password_matches salt user.user.password r.hash r.hashed,
        r.same_cfg,
        signed,
      )
