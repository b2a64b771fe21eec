-- ===== src/Login/Database.antt =====
-- The tables accounts and sessions, as far as the login server reads and writes them (src/Database/osirose.sql).
-- The database server is not part of the sources: SHA2, the comparison of texts, what it makes of the text that the
-- query has for the password's hash, and the stored procedure create_account, which draws a salt there, are arguments. A select gives rows in the order of the table.
use os_irose_new.Common.{
  ℕ, ◌+◌, Bool, true, false, ◌&&◌, List, [], ◌∷◌, ◌++◌, Option, ◌==◌, if◌then◌else◌,
}

pub record Account : Type 0 where
  pub id : ℕ
  pub username : List ℕ
  pub password : List ℕ
  pub salt : List ℕ
  pub access : Option ℕ
  pub online : Bool
  pub login_count : ℕ
  pub lastip : List ℕ
  pub lasttime : ℕ

pub record Session : Type 0 where
  pub id : ℕ
  pub userid : ℕ
  pub channelid : ℕ
  pub time : ℕ

pub record Database : Type 0 where
  pub accounts : List Account
  pub sessions : List Session

pub record Sql : Type 0 where
  -- SHA2(CONCAT(password, salt), 256)
  pub sha2 : List ℕ → List ℕ → List ℕ
  -- The comparison of two texts under the collation of the column.
  pub same : List ℕ → List ℕ → Bool
  -- The rows with a user name and with the password that a text of the query, parsed by the server, stands for.
  pub account_rows : List ℕ → List ℕ → List Account → List Account
  pub create_account : List ℕ → List ℕ → Database → Database

-- A where clause, and a set clause under one.
unfoldable pub select {ℓ} : {A : Type ℓ} → (A → Bool) → List A → List A
select test [] = []
select test (row ∷ rows) = let rest = select test rows in if test row then row ∷ rest else rest

unfoldable pub update {ℓ} : {A : Type ℓ} → (A → Bool) → (A → A) → List A → List A
update test set [] = []
update test set (row ∷ rows) = (if test row then set row else row) ∷ update test set rows

-- SHA2(CONCAT('...', salt), 256), with the password between the quotes as it is.
unfoldable pub hash_text : List ℕ → List ℕ
hash_text password =
    (83 ∷ 72 ∷ 65 ∷ 50 ∷ 40 ∷ 67 ∷ 79 ∷ 78 ∷ 67 ∷ 65 ∷ 84 ∷ 40 ∷ 39 ∷ [])
    ++ password
    ++ (39 ∷ 44 ∷ 32 ∷ 115 ∷ 97 ∷ 108 ∷ 116 ∷ 41 ∷ 44 ∷ 32 ∷ 50 ∷ 53 ∷ 54 ∷ 41 ∷ [])

-- The account that has the user name and the password.
abbrev pub has_password : Sql → List ℕ → List ℕ → Account → Bool
has_password sql username password a =
    sql.same a.username username && sql.same a.password (sql.sha2 password a.salt)

abbrev pub has_id : ℕ → Account → Bool
has_id id a = a.id == id

abbrev pub of_user : ℕ → Session → Bool
of_user userid s = s.userid == userid

abbrev pub of_session : ℕ → Session → Bool
of_session id s = s.id == id

-- table.online = 1, and what a login sets with it.
abbrev pub logged_in_row : List ℕ → ℕ → Account → Account
logged_in_row ip now a = record a {
  online = true;
  login_count = a.login_count + 1;
  lastip = ip;
  lasttime = now;
}

abbrev pub logged_out_row : Account → Account
logged_out_row a = record a { online = false }
