-- ===== src/Char/Tables.antt =====
-- The tables of the char server and two of its stored procedures (src/Database/osirose.sql). The procedure
-- create_char, which takes an id from the database, is an argument; `none` is its error.
use os_irose_new.Common.{
  ℕ, Bool, true, false, not, ◌&&◌, List, [], ◌∷◌, Option, ◌==◌, if◌then◌else◌,
}
use os_irose_new.Login.Database.{Account, select, update}

pub record Session : Type 0 where
  pub id : ℕ
  pub userid : ℕ
  pub channelid : ℕ
  pub time : ℕ
  pub charid : ℕ

pub record Character : Type 0 where
  pub id : ℕ
  pub userid : ℕ
  pub name : List ℕ
  pub race : ℕ
  pub level : ℕ
  pub job : ℕ
  pub face : ℕ
  pub hair : ℕ
  pub delete_date : ℕ
  pub map_id : ℕ

pub record ItemRow : Type 0 where
  pub char_id : ℕ
  pub slot : ℕ
  pub itemid : ℕ

pub record CharDb : Type 0 where
  pub accounts : List Account
  pub sessions : List Session
  pub characters : List Character
  pub inventory : List ItemRow

pub record Procedures : Type 0 where
  -- SHA2(CONCAT(password, salt), 256)
  pub sha2 : List ℕ → List ℕ → List ℕ
  -- The comparison of two texts under the collation of the column.
  pub same : List ℕ → List ℕ → Bool
  pub create_char : List ℕ → ℕ → ℕ → ℕ → ℕ → ℕ → CharDb → Option CharDb

unfoldable pub update_session_with_character : ℕ → ℕ → CharDb → CharDb
update_session_with_character session_id char_id db = record db {
  sessions =
      update (λ (s : Session). s.id == session_id) (λ (s : Session). record s { charid = char_id })
        db.sessions;
}

unfoldable pub delete_character : Procedures → ℕ → List ℕ → CharDb → CharDb
delete_character procedures char_id name db = record db {
  characters =
      select (λ (c : Character). not ((c.id == char_id) && procedures.same c.name name))
        db.characters;
}

-- Whether a session's user has the password.
unfoldable pub has_account : Procedures → List ℕ → List Account → ℕ → Bool
has_account procedures password [] userid = false
has_account procedures password (a ∷ accounts) userid =
    let rest = has_account procedures password accounts userid in
    if (a.id == userid) && procedures.same a.password (procedures.sha2 password a.salt)
    then true
    else rest
