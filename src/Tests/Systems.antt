-- ===== src/Tests/Systems.antt =====
-- The results about the dispatch of packets in the map server, each applied at a concrete input: entities, packets
-- and clients are numbers, and a handler adds what it gets to a sum.
use os_irose_new.Common.{
  ℕ, ◌+◌, ◌≡◌, refl, Bool, List, [], ◌∷◌, Option, none, some, true, if◌then◌else◌, ◌==◌,
}
use os_irose_new.Map.Systems.{
  Entry, Queues, would_dispatch, dispatch, dispatch_all, enqueue, register_dispatcher,
}
use os_irose_new.Map.Systems.Unregistered.{dispatch-register_dispatcher}
use os_irose_new.Map.Systems.Order.{dispatch_all-enqueue}

-- Entity 4 has left.
abbrev client_of : ℕ → ℕ → Option ℕ
client_of e w = if e == 4 then none else some e

abbrev added : ℕ → ℕ → ℕ → ℕ → ℕ
added c e p w = w + p

abbrev always : ℕ → Bool
always n = true

abbrev other_entries : List (Entry ℕ ℕ ℕ)
other_entries = record { packet_type = 7; handler = λ e p w. (true, w) } ∷ []

dispatch-register_dispatcher_example :
    dispatch 9 4 5 (register_dispatcher 9 always (λ e w. true) client_of added other_entries) 1
    ≡ (none, other_entries, 1)
unfolding would_dispatch
dispatch-register_dispatcher_example =
    dispatch-register_dispatcher always (λ e w. true) client_of added 9 4 5 other_entries 1 refl

abbrev waiting : Queues ℕ ℕ ℕ
waiting = record {
  create_commands = [];
  to_dispatch = (1, 7, 2) ∷ [];
  delete_commands = [];
  entries = other_entries;
}

dispatch_all-enqueue_example :
    dispatch_all (enqueue always 2 7 3 waiting).1.to_dispatch other_entries 10
    ≡ some (other_entries, 10)
unfolding would_dispatch dispatch_all dispatch
dispatch_all-enqueue_example = dispatch_all-enqueue always 2 7 3 waiting 10
