-- ===== src/Map/Systems.antt =====
-- SystemManager (src/map/include/systemmanager.h, src/map/src/systemmanager.cpp), and the queues of EntitySystem
-- (src/map/src/entitysystem.cpp). `E` stands for the entities, `P` for the packets, and `W` for everything that a
-- handler, a system or a command changes.
pub mod Unregistered
pub mod Order
use os_irose_new.Common.{
  ℕ, zero, suc, ◌+◌, Bool, true, false, not, ◌&&◌, List, [], ◌∷◌, ◌++◌, Option, none, some, ◌==◌,
  if◌then◌else◌,
}

-- An entry of dispatch_: a packet type, and a handler with its answer.
pub record Entry (E P W : Type 0) : Type 0 where
  pub packet_type : ℕ
  pub handler : E → P → W → Bool × W

-- EntitySystem: the entries are those of its SystemManager. A command is what it does.
pub record Queues (E P W : Type 0) : Type 0 where
  pub create_commands : List (W → W)
  pub to_dispatch : List (E × ℕ × P)
  pub delete_commands : List (W → W)
  pub entries : List (Entry E P W)

module _ {W : Type 0} where
  -- The loops over the commands.
  unfoldable pub execute : List (W → W) → W → W
  execute [] w = w
  execute (command ∷ commands) w = execute commands (command w)

module _ {E P W : Type 0} where
  -- equal_range is empty or not.
  unfoldable pub would_dispatch : ℕ → List (Entry E P W) → Bool
  would_dispatch t [] = false
  would_dispatch t (entry ∷ entries) =
      let later = would_dispatch t entries in if entry.packet_type == t then true else later

  -- The loop over the range of the type. What is erased is left out of the entries.
  unfoldable pub call_handlers : ℕ → E → P → List (Entry E P W) → W → List (Entry E P W) × W
  call_handlers t e p [] w = ([], w)
  call_handlers t e p (entry ∷ entries) w =
      let called = entry.handler e p w in
      let after = call_handlers t e p entries called.1 in
      let other = call_handlers t e p entries w in
      if entry.packet_type == t
      then ((if called.0 then entry ∷ after.0 else after.0), after.1)
      else (entry ∷ other.0, other.1)

  -- The answer of the first handler of the range.
  unfoldable pub first_kept : ℕ → E → P → List (Entry E P W) → W → Bool
  first_kept t e p [] w = true
  first_kept t e p (entry ∷ entries) w =
      let later = first_kept t e p entries w in
      if entry.packet_type == t then (entry.handler e p w).0 else later

  -- SystemManager::dispatch. `none` is a distance from res.first when it is the iterator of an erased entry.
  unfoldable pub dispatch :
      ℕ → E → P → List (Entry E P W) → W → Option Bool × List (Entry E P W) × W
  unfolding would_dispatch call_handlers first_kept
  dispatch t e p entries w =
      let called = call_handlers t e p entries w in
      if would_dispatch t entries
      then ((if first_kept t e p entries w then some true else none), called.0, called.1)
      else (some false, entries, w)

  -- EntitySystem::dispatch
  unfoldable pub enqueue : (E → Bool) → E → ℕ → P → Queues E P W → Bool × Queues E P W
  enqueue is_valid e t p q =
      if not (is_valid e)
      then (false, q)
      else if would_dispatch t q.entries
      then (true, record q { to_dispatch = q.to_dispatch ++ (e, t, p) ∷ [] })
      else (false, q)

  -- The loop over toDispatch_. `none` as in `dispatch`.
  unfoldable pub dispatch_all :
      List (E × ℕ × P) → List (Entry E P W) → W → Option (List (Entry E P W) × W)
  dispatch_all [] entries w = some (entries, w)
  dispatch_all ((e, t, p) ∷ packets) entries w =
      let done = dispatch t e p entries w in
      let rest = dispatch_all packets done.1 done.2 in
      elim done.0 [ none ↦ none | some answer ↦ rest ]

  -- EntitySystem::update. `update_systems` is SystemManager::update.
  unfoldable pub update : (W → W) → Queues E P W → W → Option (Queues E P W × W)
  update update_systems q w =
      elim (dispatch_all q.to_dispatch q.entries (execute q.create_commands w)) [
        | none ↦ none
        | some done ↦ some (
          record { create_commands = []; to_dispatch = []; delete_commands = []; entries = done.0 },
          execute q.delete_commands (update_systems done.1),
        )
      ]

module _ {E P W C : Type 0} where
  -- The function that registerDispatcher stores.
  unfoldable pub call_method :
      (W → Bool) → (E → W → Bool) → (E → W → Option C) → (C → E → P → W → W) → E → P → W → Bool × W
  call_method has_system is_valid get_client method e p w =
      if not (has_system w)
      then (false, w)
      else if not (is_valid e w)
      then (false, w)
      else elim (get_client e w) [ none ↦ (false, w) | some c ↦ (true, method c e p w) ]

  -- registerDispatcher: `has_system` is get<T>(), `is_valid` and `get_client` are asked of the entity.
  unfoldable pub register_dispatcher :
      ℕ
      → (W → Bool)
      → (E → W → Bool)
      → (E → W → Option C)
      → (C → E → P → W → W)
      → List (Entry E P W)
      → List (Entry E P W)
  register_dispatcher t has_system is_valid get_client method entries =
      entries
      ++ record { packet_type = t; handler = call_method has_system is_valid get_client method }
        ∷ []
