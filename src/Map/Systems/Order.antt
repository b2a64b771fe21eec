-- ===== src/Map/Systems/Order.antt =====
-- The order in which the packets of the queue are dispatched.
use os_irose_new.Common.{
  ℕ, ◌≡◌, refl, Bool, ◌&&◌, List, [], ◌∷◌, ◌++◌, Option, none, some, if◌then◌else◌, arith,
}
use os_irose_new.Common.{Bool-cases, inl, inr}
use os_irose_new.Map.Systems.{Entry, Queues, would_dispatch, dispatch, dispatch_all, enqueue}

abbrev pub then_do : {A B : Type 0} → (A → Option B) → Option A → Option B
then_do f none = none
then_do f (some a) = f a

chained :
    {A B : Type 0} (o : Option Bool) (later : Option A) (f : A → Option B) (rest : Option B)
    → rest ≡ then_do f later
    → ◌≡◌ {A = Option B}
        (elim o [ none ↦ none | some b ↦ rest ])
        (then_do f (elim o [ none ↦ none | some b ↦ later ]))
chained none later f rest e = refl
chained (some b) later f rest e = e

module _ {E P W : Type 0} where
  dispatch_all-append :
      (xs ys : List (E × ℕ × P)) (entries : List (Entry E P W)) (w : W)
      → dispatch_all (xs ++ ys) entries w
        ≡ then_do
            (λ (d : List (Entry E P W) × W). dispatch_all ys d.0 d.1)
            (dispatch_all xs entries w)
  unfolding dispatch_all
  dispatch_all-append [] ys entries w = refl
  dispatch_all-append ((e, t, p) ∷ xs) ys entries w =
      let done : Option Bool × List (Entry E P W) × W = dispatch t e p entries w in
      chained done.0 (dispatch_all xs done.1 done.2)
        (λ (d : List (Entry E P W) × W). dispatch_all ys d.0 d.1)
        (dispatch_all (xs ++ ys) done.1 done.2) (dispatch_all-append xs ys done.1 done.2)

  -- A packet that EntitySystem::dispatch takes comes after all that wait: update dispatches it with the state and the
  -- handlers that they leave. A packet of a type without a handler, or of an entity that is not valid, does not
  -- change what is dispatched.
  pub dispatch_all-enqueue :
      (is_valid : E → Bool) (e : E) (t : ℕ) (p : P) (q : Queues E P W) (w : W)
      → dispatch_all (enqueue is_valid e t p q).1.to_dispatch q.entries w ≡ (
          if is_valid e && would_dispatch t q.entries
          then then_do
              (λ (d : List (Entry E P W) × W). dispatch_all ((e, t, p) ∷ []) d.0 d.1)
              (dispatch_all q.to_dispatch q.entries w)
          else dispatch_all q.to_dispatch q.entries w)
  unfolding enqueue
  dispatch_all-enqueue is_valid e t p q w = elim (Bool-cases (is_valid e)) [
    | inr bad ↦ ground (arith, bad)
    | inl good ↦ elim (Bool-cases (would_dispatch t q.entries)) [
      | inr nowhere ↦ ground (arith, good, nowhere)
      | inl taken ↦
          rw (good, taken) (dispatch_all-append q.to_dispatch ((e, t, p) ∷ []) q.entries w)
    ]
  ]
