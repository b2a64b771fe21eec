-- ===== src/Map/Party/Members.antt =====
-- A party's members are distinct, and its leader is one of them.
use os_irose_new.Common.{
  ℕ, ◌≤◌, ◌<◌, ◌≡◌, refl, ap, Bool, List, [], ◌∷◌, none, some, arith, ◌⊎◌, inl, inr,
}
use os_irose_new.Common.{count, without, count-without, count-append}
use os_irose_new.Map.Party.{
  PartyBase, party_of, is_member, add_member, remove_member, change_leader, first_of, led_by,
}

pub record IsParty (p : PartyBase) : Type 0 where
  pub distinct : (e : ℕ) → count e p.members ≤ 1
  pub led : 0 < count p.leader p.members

-- What the party system does to a party, by PartyBase's operations. It cannot take the last member away.
pub data Reaches (is_valid : ℕ → Bool) : PartyBase → Type 0 where
  founded : (leader : ℕ) → Reaches is_valid (party_of leader)
  added :
      {p : PartyBase} (e : ℕ) → Reaches is_valid p → Reaches is_valid (add_member is_valid p e).1
  removed :
      {p p' : PartyBase} (e : ℕ) (done : Bool)
      → Reaches is_valid p
      → remove_member p e ≡ some (done, p')
      → Reaches is_valid p'
  handed_over :
      {p : PartyBase} (e : ℕ) → Reaches is_valid p → Reaches is_valid (change_leader p e).1

party_of-IsParty : (leader : ℕ) → IsParty (party_of leader)
unfolding party_of
party_of-IsParty leader = record { distinct = λ e. ground arith; led = ground arith }

add_member-IsParty :
    (is_valid : ℕ → Bool) (p : PartyBase) (e : ℕ) → IsParty p → IsParty (add_member is_valid p e).1
unfolding add_member is_member
add_member-IsParty is_valid p e v = record {
  distinct = λ x. ground (arith, v.distinct x, v.distinct e, count-append x p.members (e ∷ []));
  led = ground (arith, v.led, count-append p.leader p.members (e ∷ []));
}

change_leader-IsParty : (p : PartyBase) (e : ℕ) → IsParty p → IsParty (change_leader p e).1
unfolding change_leader is_member
change_leader-IsParty p e v = record {
  distinct = λ x. ground (arith, v.distinct x);
  led = ground (arith, v.led);
}

first_of-cases :
    (ms : List ℕ) → (first_of ms ≡ none) ⊎ ((x : ℕ) × (first_of ms ≡ some x) × (0 < count x ms))
unfolding first_of
first_of-cases [] = inl refl
first_of-cases (x ∷ ms) = inr (x, refl, ground arith)

-- A removal that does not read past the end keeps a party well-formed.
remove_member-IsParty :
    (p p' : PartyBase) (e : ℕ) (done : Bool)
    → IsParty p
    → remove_member p e ≡ some (done, p')
    → IsParty p'
unfolding remove_member is_member led_by
remove_member-IsParty p p' e done v r = elim (first_of-cases (without e p.members)) [
  | inl nobody ↦ record {
    distinct = λ x. ground (arith, v.distinct x, v.led, count-without e x p.members, nobody, r);
    led = ground (arith, v.led, count-without e p.leader p.members, nobody, r);
  }
  | inr first ↦ record {
    distinct = λ x. ground (arith, v.distinct x, v.led, count-without e x p.members, first.1, r);
    led = ground (arith, v.led, count-without e p.leader p.members, first.1, first.2, r);
  }
]

-- Whatever is done to a party by PartyBase's operations, as long as none reads past the members, its
-- members are distinct and its leader is one of them.
pub Reaches-IsParty : (is_valid : ℕ → Bool) (p : PartyBase) → Reaches is_valid p → IsParty p
Reaches-IsParty is_valid p (founded leader) = party_of-IsParty leader
Reaches-IsParty is_valid p (added {p = q} e r) =
    add_member-IsParty is_valid q e (Reaches-IsParty is_valid q r)
Reaches-IsParty is_valid p (removed {p = q} {p' = q'} e done r eq) =
    remove_member-IsParty q q' e done (Reaches-IsParty is_valid q r) eq
Reaches-IsParty is_valid p (handed_over {p = q} e r) =
    change_leader-IsParty q e (Reaches-IsParty is_valid q r)

without-empty :
    (e : ℕ) (ms : List ℕ) → first_of (without e ms) ≡ none → 0 < count e ms → ms ≡ e ∷ []
unfolding first_of
without-empty e [] n h = absurd (omega arith)
without-empty e (x ∷ []) n h = ground (arith, n, h)
without-empty e (x ∷ y ∷ ms) n h = ground (arith, n, h)

-- If removeMember reads past the end of the members of a party, the one that leaves was the only member.
pub remove_member_last : (p : PartyBase) (e : ℕ) → remove_member p e ≡ none → p.members ≡ e ∷ []
unfolding remove_member is_member led_by
remove_member_last p e n = elim (first_of-cases (without e p.members)) [
  | inl nobody ↦ ground (arith, n, without-empty e p.members nobody)
  | inr first ↦ ground (arith, n, first.1)
]

-- When the only member of a well-formed party leaves, removeMember reads past the end of the members.
pub remove_member_overrun :
    (p : PartyBase) (e : ℕ) → IsParty p → p.members ≡ e ∷ [] → remove_member p e ≡ none
unfolding remove_member is_member led_by first_of
remove_member_overrun p e v only = rw only (ground (arith, ap (count p.leader) only, v.led))
