-- ===== src/Map/Party.antt =====
-- PartyBase (src/rosecommon/include/partybase.h). An entity is its number; whether it is valid is an argument.
pub mod Members
use os_irose_new.Common.{
  ℕ, zero, suc, ◌^◌, ◌-◌, ◌*◌, ◌+◌, Bool, true, false, List, [], ◌∷◌, ◌++◌, Option, none, some,
  ◌==◌, if◌then◌else◌,
}
use os_irose_new.Common.{count, without}

-- The three ids of last receivers are `int`s, kept as 32-bit patterns.
pub record PartyBase : Type 0 where
  pub xp : ℕ
  pub range : ℕ
  pub level : ℕ
  pub leader : ℕ
  pub members : List ℕ
  pub options : ℕ
  pub last_item : ℕ
  pub last_etc : ℕ
  pub last_zuly : ℕ
  pub capacity : ℕ

-- PartyBase(leader)
unfoldable pub party_of : ℕ → PartyBase
party_of leader = record {
  xp = 0;
  range = 7;
  level = 1;
  leader = leader;
  members = leader ∷ [];
  options = 0;
  last_item = 2 ^ 32 - 1;
  last_etc = 2 ^ 32 - 1;
  last_zuly = 2 ^ 32 - 1;
  capacity = 5;
}

-- std::find up to the end.
unfoldable pub is_member : PartyBase → ℕ → Bool
is_member p e = if count e p.members == 0 then false else true

unfoldable pub add_member : (ℕ → Bool) → PartyBase → ℕ → Bool × PartyBase
add_member is_valid p e =
    let joined : PartyBase = record p { members = p.members ++ e ∷ [] } in
    let refused : Bool × PartyBase = (false, p) in
    if is_valid e then (if is_member p e then refused else (true, joined)) else refused

-- members_[0]
unfoldable pub first_of : List ℕ → Option ℕ
first_of [] = none
first_of (e ∷ es) = some e

-- leader_ = that element.
unfoldable pub led_by : PartyBase → Option ℕ → Option (Bool × PartyBase)
led_by p none = none
led_by p (some e) = some (true, record p { leader = e })

-- `none` is the access to members_[0] of no members.
unfoldable pub remove_member : PartyBase → ℕ → Option (Bool × PartyBase)
remove_member p e =
    let left : PartyBase = record p { members = without e p.members } in
    let kept : Option (Bool × PartyBase) = some (true, left) in
    let handed = led_by left (first_of left.members) in
    if is_member p e then (if p.leader == e then handed else kept) else some (false, p)

unfoldable pub change_leader : PartyBase → ℕ → Bool × PartyBase
change_leader p e =
    let led : PartyBase = record p { leader = e } in
    let refused : Bool × PartyBase = (false, p) in
    if is_member p e then (if e == p.leader then refused else (true, led)) else refused
