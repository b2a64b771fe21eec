-- ===== src/Map/Systems/Unregistered.antt =====
-- What a packet does to the handlers of its type.
use os_irose_new.Common.{
  ℕ, ◌≡◌, refl, ap, ◌∙◌, Bool, true, false, not, ◌&&◌, List, [], ◌∷◌, ◌++◌, Option, none, some,
  ◌==◌, if◌then◌else◌, arith,
}
use os_irose_new.Map.Systems.{
  Entry, would_dispatch, call_handlers, first_kept, dispatch, call_method, register_dispatcher,
}

consed :
    {A : Type 0} (b : Bool) (x : A) (ys zs : List A)
    → x ∷ (if b then ys else zs) ≡ (if b then x ∷ ys else x ∷ zs)
consed true x ys zs = refl
consed false x ys zs = refl

answered :
    {A B : Type 0} (b : Bool) (x y : A) (z : B)
    → ◌≡◌ {A = Option Bool × A × B}
        ((if b then some true else none), (if b then x else y), z)
        (if b then (some true, x, z) else (none, y, z))
answered true x y z = refl
answered false x y z = refl

called :
    {A W C : Type 0} (a v : Bool) (o : Option C) (x y : A) (f : C → W) (w : W)
    → (let r : Bool × W =
          if not a
          then (false, w)
          else if not v
          then (false, w)
          else elim o [ none ↦ (false, w) | some c ↦ (true, f c) ] in
        ◌≡◌ {A = Option Bool × A × W} (if r.0 then (some true, x, r.1) else (none, y, r.1)) (
          if a && v
          then elim o [ none ↦ (none, y, w) | some c ↦ (some true, x, f c) ]
          else (none, y, w)))
called false v o x y f w = refl
called true false o x y f w = refl
called true true none x y f w = refl
called true true (some c) x y f w = refl

module _ {E P W : Type 0} (t : ℕ) (e : E) (p : P) (h : E → P → W → Bool × W) where
  abbrev alone : List (Entry E P W)
  alone = record { packet_type = t; handler = h } ∷ []

  would-append : (entries : List (Entry E P W)) → would_dispatch t (entries ++ alone) ≡ true
  unfolding would_dispatch
  would-append [] = ground (arith)
  would-append (entry ∷ entries) = ground (arith, would-append entries)

  call-append :
      (entries : List (Entry E P W)) (w : W)
      → would_dispatch t entries ≡ false
      → call_handlers t e p (entries ++ alone) w
        ≡ ((if (h e p w).0 then entries ++ alone else entries), (h e p w).1)
  unfolding would_dispatch call_handlers
  call-append [] w n = ground (arith)
  call-append (entry ∷ entries) w n =
      let other : (entry.packet_type == t) ≡ false = ground (arith, n) in
      let rest : would_dispatch t entries ≡ false = ground (arith, n) in
      let later : call_handlers t e p (entries ++ alone) w
          ≡ ((if (h e p w).0 then entries ++ alone else entries), (h e p w).1) =
        call-append entries w rest in
      rw other (
        ap (λ (r : List (Entry E P W) × W). (entry ∷ r.0, r.1)) later
        ∙ ap (λ (xs : List (Entry E P W)). (xs, (h e p w).1))
            (consed (h e p w).0 entry (entries ++ alone) entries))

  first-append :
      (entries : List (Entry E P W)) (w : W)
      → would_dispatch t entries ≡ false
      → first_kept t e p (entries ++ alone) w ≡ (h e p w).0
  unfolding would_dispatch first_kept
  first-append [] w n = ground (arith)
  first-append (entry ∷ entries) w n = ground (arith, n, first-append entries w)

  dispatch-append :
      (entries : List (Entry E P W)) (w : W)
      → would_dispatch t entries ≡ false
      → dispatch t e p (entries ++ alone) w ≡ (
          if (h e p w).0
          then (some true, entries ++ alone, (h e p w).1)
          else (none, entries, (h e p w).1))
  unfolding dispatch
  dispatch-append entries w n =
      rw (would-append entries, first-append entries w n, call-append entries w n)
        (answered (h e p w).0 (entries ++ alone) entries (h e p w).1)

module _ {E P W C : Type 0} (has_system : W → Bool) (is_valid : E → W → Bool)
    (get_client : E → W → Option C) (method : C → E → P → W → W) where
  -- The packets of a type that only this handler is registered for. With the system, a valid entity and its client the
  -- handler runs and stays. Otherwise, so for a player who has left since the packet came, the state stays, the
  -- handler is taken out, and dispatch measures from the iterator of what it has erased.
  pub dispatch-register_dispatcher :
      (t : ℕ) (e : E) (p : P) (entries : List (Entry E P W)) (w : W)
      → would_dispatch t entries ≡ false
      → dispatch t e p (register_dispatcher t has_system is_valid get_client method entries) w ≡ (
          if has_system w && is_valid e w
          then elim (get_client e w) [
            | none ↦ (none, entries, w)
            | some c ↦ (
              some true,
              register_dispatcher t has_system is_valid get_client method entries,
              method c e p w,
            )
          ]
          else (none, entries, w))
  unfolding register_dispatcher call_method
  dispatch-register_dispatcher t e p entries w n =
      dispatch-append t e p (call_method has_system is_valid get_client method) entries w n
      ∙ called (has_system w) (is_valid e w) (get_client e w)
          (register_dispatcher t has_system is_valid get_client method entries) entries
          (λ (c : C). method c e p w) w
