-- ===== src/Login/Access/Selections.antt =====
-- ChannelList and ServerSelect keep what a player can have got.
use os_irose_new.Common.{
  ℕ, ◌+◌, ◌-◌, ◌%◌, ◌^◌, ◌≡◌, refl, sym, subst, ap, ◌∙◌, Bool, true, false, ◌&&◌, List, [], ◌∷◌,
  Option, none, some, ◌==◌, if◌then◌else◌, Bool-cases, inl, inr, arith,
}
use os_irose_new.Messages.Reply.{srv_srv_select_reply}
use os_irose_new.Messages.Account.{CliChannelListReq, CliSrvSelectReq}
use os_irose_new.Login.Isc.{LoginIsc, char_type}
use os_irose_new.Login.Database.{Session, Database, Sql}
use os_irose_new.Login.Client.{
  State, default, logged_in, transfering, reply, LoginClient, Env, channel_list, insert_session,
  selected, select_in, server_select,
}
use os_irose_new.Login.Access.{is_ok, is_selection, IsIn, IsPlayer, count-snoc}

if-true {ℓ} : {A : Type ℓ} {b : Bool} {x : A} (y : A) → b ≡ true → (if b then x else y) ≡ x
if-true y e = rw e refl

if-false {ℓ} : {A : Type ℓ} {b : Bool} (x : A) {y : A} → b ≡ false → (if b then x else y) ≡ y
if-false x e = rw e refl

abbrev got : {A : Type 0} → A → Option A → A
got d none = d
got d (some x) = x

some-injective : {A : Type 0} {x y : A} → some x ≡ some y → x ≡ y
some-injective {x} e = ap (got x) e

pub moved : {q r : Bool × LoginClient × Database} → IsPlayer q.1 → some q ≡ some r → IsPlayer r.1
moved v e = subst (λ (q : Bool × LoginClient × Database). IsPlayer q.1) (some-injective e) v

module _ (sql : Sql) (env : Env) where
  pub channel_list-in :
      (p : CliChannelListReq) (c : LoginClient) (st : State)
      → IsPlayer (record c { login_state = st })
      → IsPlayer (channel_list sql env p (record c { login_state = st }))
  unfolding channel_list
  channel_list-in p c logged_in v = (
    v.0,
    count-snoc is_ok c.sent _ ∙ omega (arith, v.1),
    count-snoc is_selection c.sent _ ∙ omega (arith, v.2),
  )
  channel_list-in p c default v = v
  channel_list-in p c transfering v = v

  -- The first server that is selected gets one answer.
  selected-IsPlayer :
      (s : LoginIsc) (c : LoginClient) (o : Option Database) (r : Bool × LoginClient × Database)
      → c.login_state ≡ transfering
      → IsIn logged_in c.access_rights c.sent
      → selected sql env s c o ≡ some r
      → IsIn transfering r.1.access_rights r.1.sent × (r.1.login_state ≡ transfering)
  unfolding selected
  selected-IsPlayer s c none r t v e = absurd (ground arith)
  selected-IsPlayer s c (some db) r t v e =
      subst
        (λ (q : Bool × LoginClient × Database).
          IsIn transfering q.1.access_rights q.1.sent × (q.1.login_state ≡ transfering))
        (some-injective e)
        (
          (
            v.0,
            count-snoc is_ok c.sent _ ∙ omega (arith, v.1),
            omega (
              arith,
              count-snoc is_selection c.sent (
                  reply (
                    srv_srv_select_reply (record {
                      result = 0;
                      session_id = c.session_id;
                      crypt_val = 0;
                      ip = s.address;
                      port = s.port;
                    }))),
              v.2,
            ),
          ),
          t,
        )

  select_in-IsPlayer :
      (server_id channel_id : ℕ) (list : List LoginIsc) (c : LoginClient) (db : Database)
      (r : Bool × LoginClient × Database)
      → c.login_state ≡ transfering
      → IsIn logged_in c.access_rights c.sent
      → select_in sql env server_id channel_id list c db ≡ some r
      → IsIn transfering r.1.access_rights r.1.sent × (r.1.login_state ≡ transfering)
  unfolding select_in
  select_in-IsPlayer sid cid [] c db r t v e = ground (arith, e, t, v)
  select_in-IsPlayer sid cid (s ∷ list) c db r t v e =
      let session : Session = record {
        id = c.session_id;
        userid = c.userid;
        channelid = cid;
        time = env.now;
      } in
      elim (Bool-cases ((s.type_ == char_type) && (s.id == sid))) [
        | inl here ↦
            selected-IsPlayer s c (insert_session sql env session db) r t v
              (sym (if-true _ here) ∙ e)
        | inr there ↦ select_in-IsPlayer sid cid list c db r t v (sym (if-false _ there) ∙ e)
      ]

  pub server_select-in :
      (p : CliSrvSelectReq) (c : LoginClient) (db : Database) (st : State)
      (r : Bool × LoginClient × Database)
      → IsPlayer (record c { login_state = st })
      → server_select sql env p (record c { login_state = st }) db ≡ some r
      → IsPlayer r.1
  unfolding server_select
  server_select-in p c db logged_in r v e =
      let (sent, t) =
        select_in-IsPlayer ((p.server_id + (2 ^ 32 - 1)) % 2 ^ 32) ((p.channel_id + 255) % 256)
          env.isc_list (record c { login_state = transfering }) db r refl v e in
      subst (λ (st : State). IsIn st r.1.access_rights r.1.sent) (sym t) sent
  server_select-in p c db default r v e = moved v e
  server_select-in p c db transfering r v e = moved v e
