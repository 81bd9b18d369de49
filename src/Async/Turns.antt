-- ===== src/Async/Turns.antt =====
-- A turn of the loop of `poll_all`: what it does to the slot and to the others.
use native.Mathlib.Decide.{ℕ_discrete}
use mos_rust.Config.{async_pool_max}
use mos_rust.Prelude.{
  ℕ, zero, suc, ◌≤◌, ◌<◌, ◌≡◌, ◌≢◌, refl, sym, ap, ap₂, subst, ◌∙◌, ◌⊎◌, inl, inr, List, [], ◌∷◌,
  Bool, true, false, Option, none, some, ◌||◌, if◌then◌else◌, length, get_elem?, set, Run, ok,
  Bool-cases, Option-cases, arith,
}
use mos_rust.Async.{TaskSlot, Executor, poll_slot}
use mos_rust.Async.Expiry.{roused}

module _ {ℓ} {A : Type ℓ} where
  get_elem?-set_self :
      (xs : List A) (i : ℕ) (s v : A) → get_elem? xs i ≡ some s → get_elem? (set xs i v) i ≡ some v
  get_elem?-set_self [] i s v h = cc
  get_elem?-set_self (x ∷ xs) zero s v h = refl
  get_elem?-set_self (x ∷ xs) (suc i) s v h = get_elem?-set_self xs i s v h

  get_elem?-set_other :
      (xs : List A) (i j : ℕ) (v : A) → i ≢ j → get_elem? (set xs i v) j ≡ get_elem? xs j
  get_elem?-set_other [] i j v ne = refl
  get_elem?-set_other (x ∷ xs) zero zero v ne = absurd (ne refl)
  get_elem?-set_other (x ∷ xs) zero (suc j) v ne = refl
  get_elem?-set_other (x ∷ xs) (suc i) zero v ne = refl
  get_elem?-set_other (x ∷ xs) (suc i) (suc j) v ne =
      get_elem?-set_other xs i j v (λ e. ne (ap suc e))

module _ {ℓ} {F : Type ℓ} where
  -- The slot `j` is as it was, or also woken.
  abbrev pub Kept : ℕ → Executor F → Executor F → Type ℓ
  Kept j x x' = (b : Bool) × (get_elem? x'.pool j ≡ roused b (get_elem? x.pool j))

  roused-twice :
      (b c : Bool) (o : Option (TaskSlot F)) → (d : Bool) × (roused b (roused c o) ≡ roused d o)
  roused-twice b c none = (b, refl)
  roused-twice true c (some s) = (true, refl)
  roused-twice false c (some s) = (c, refl)

  pub Kept-trans : (j : ℕ) (x y z : Executor F) → Kept j x y → Kept j y z → Kept j x z
  Kept-trans j x y z (b, e) (c, f) =
      let (d, g) = roused-twice c b (get_elem? x.pool j) in (d, f ∙ ap (roused c) e ∙ g)

  pub roused_not : (o : Option (TaskSlot F)) → o ≡ roused false o
  roused_not none = refl
  roused_not (some s) = refl

  pub Kept-refl : (j : ℕ) (x : Executor F) → Kept j x x
  Kept-refl j x = (false, roused_not (get_elem? x.pool j))

  -- The pool has all its slots.
  unfoldable pub HasSlots : Executor F → Type ℓ
  HasSlots x = (j : ℕ) → j < async_pool_max → (s : TaskSlot F) × (get_elem? x.pool j ≡ some s)

  -- A future that is asked wakes tasks, and leaves the slots alone else.
  module _ (poll : ℕ → F → Executor F → Bool × F × Executor F)
      (wakes_only : (i : ℕ) (f : F) (x : Executor F) (j : ℕ) → Kept j x (poll i f x).2) where
    -- The future in slot `idx` was polled in the state `y`, and the slot left as that asks for.
    pub record Polled (idx : ℕ) (f : F) (x' : Executor F) : Type ℓ where
      pub before : Executor F
      pub woken : Bool
      pub asked : get_elem? before.pool idx ≡ some (record { future = some f; ready = false })
      pub left :
          get_elem? x'.pool idx
          ≡ some (
              if (poll idx f before).0
              then record { future = none; ready = woken }
              else record { future = some (poll idx f before).1; ready = woken })

    -- What a round of the loop does to slot `idx`.
    pub record Turn (idx : ℕ) (x : Executor F) (r : Run (Bool × Executor F)) : Type ℓ where
      pub work : Bool
      pub after : Executor F
      pub returned : r ≡ ok (work, after)
      pub kept : (j : ℕ) → idx ≢ j → Kept j x after
      pub stays :
          (s : TaskSlot F)
          → get_elem? x.pool idx ≡ some s
          → (t : TaskSlot F) × (get_elem? after.pool idx ≡ some t)
      pub polled :
          (f : F)
          → get_elem? x.pool idx ≡ some (record { future = some f; ready = true })
          → (work ≡ true) × Polled idx f after

    poll_slot-idle :
        (idx : ℕ) (x : Executor F) (s : TaskSlot F)
        → get_elem? x.pool idx ≡ some s
        → (s.future ≡ none) ⊎ (s.ready ≡ false)
        → poll_slot poll idx x ≡ ok (false, x)
    unfolding poll_slot
    poll_slot-idle idx x s e (inl free) = rw (e, free, poll_slot) refl
    poll_slot-idle idx x s e (inr still) = elim (Option-cases s.future) [
      | inl free ↦ rw (e, free, poll_slot) refl
      | inr (f, there) ↦ rw (e, there, still, poll_slot) refl
    ]

    abbrev asking : ℕ → F → Executor F → Executor F
    asking idx f x = record x { pool = set x.pool idx (record { future = some f; ready = false }) }

    poll_slot-busy :
        (idx : ℕ) (x : Executor F) (f : F) (s1 : TaskSlot F)
        → get_elem? x.pool idx ≡ some (record { future = some f; ready = true })
        → get_elem? (poll idx f (asking idx f x)).2.pool idx ≡ some s1
        → poll_slot poll idx x
          ≡ ok (
            true,
            record (poll idx f (asking idx f x)).2 {
              pool = set (poll idx f (asking idx f x)).2.pool idx (
                  if (poll idx f (asking idx f x)).0
                  then record { future = none; ready = false }
                  else record s1 { future = some (poll idx f (asking idx f x)).1 });
            },
          )
    unfolding poll_slot
    poll_slot-busy idx x f s1 e e1 = rw (e, e1, poll_slot) refl

    Turn-idle :
        (idx : ℕ) (x : Executor F) (s : TaskSlot F)
        → get_elem? x.pool idx ≡ some s
        → (s.future ≡ none) ⊎ (s.ready ≡ false)
        → Turn idx x (poll_slot poll idx x)
    Turn-idle idx x s e idle = record {
      work = false;
      after = x;
      returned = poll_slot-idle idx x s e idle;
      kept = λ j ne. Kept-refl j x;
      stays = λ t there. (t, there);
      polled = λ f busy. absurd (not_idle s f (some_eq s _ (sym e ∙ busy)) idle);
    }
      where
        some_eq : (s t : TaskSlot F) → some s ≡ some t → s ≡ t
        some_eq s t p = cc

        not_idle :
            (s : TaskSlot F) (f : F)
            → s ≡ record { future = some f; ready = true }
            → (s.future ≡ none) ⊎ (s.ready ≡ false)
            → ⊥
        not_idle s f p (inl none_) = ground (arith, ap (λ t. t.future) p)
        not_idle s f p (inr false_) = ground (arith, ap (λ t. t.ready) p)

    future_of : F → Option (TaskSlot F) → F
    future_of f none = f
    future_of f (some s) = elim s.future [ none ↦ f | some g ↦ g ]

    -- What is left in the slot, in one equation.
    abbrev after_poll : Bool → F → Bool → Bool → TaskSlot F
    after_poll done f1 b c =
        if done then record { future = none; ready = b } else record { future = some f1; ready = c }

    settled :
        (done : Bool) (f1 : F) (b : Bool)
        → (woken : Bool) × (after_poll done f1 false b ≡ after_poll done f1 woken woken)
    settled true f1 b = (false, refl)
    settled false f1 b = (b, refl)

    Turn-busy :
        (idx : ℕ) (x : Executor F) (f : F)
        → get_elem? x.pool idx ≡ some (record { future = some f; ready = true })
        → Turn idx x (poll_slot poll idx x)
    unfolding future_of
    Turn-busy idx x f e =
        let y = asking idx f x in
        let slot : TaskSlot F = record { future = some f; ready = false } in
        let (done, f1, z) = poll idx f y in
        let at : get_elem? y.pool idx ≡ some slot = get_elem?-set_self x.pool idx _ slot e in
        let (b, mine) = wakes_only idx f y idx in
        let s1 : TaskSlot F = record { future = some f; ready = b || false } in
        let e1 : get_elem? z.pool idx ≡ some s1 = mine ∙ ap (roused b) at in
        let (woken, final) = settled done f1 (b || false) in
        let v : TaskSlot F =
          if done
          then record { future = none; ready = false }
          else record s1 { future = some f1 } in
        let end : Executor F = record z { pool = set z.pool idx v } in
        let there : get_elem? end.pool idx ≡ some v = get_elem?-set_self z.pool idx s1 v e1 in
        record {
          work = true;
          after = end;
          returned = poll_slot-busy idx x f s1 e e1;
          kept = λ j ne.
              let (c, other) = wakes_only idx f y j in
              (
                c,
                get_elem?-set_other z.pool idx j v ne
                    ∙ other
                    ∙ ap (roused c) (get_elem?-set_other x.pool idx j slot ne),
              );
          stays = λ t was. (v, there);
          polled = λ g busy.
              let same : f ≡ g = ap (future_of f) (sym e ∙ busy) in
              subst (λ h. (true ≡ true) × Polled idx h end) same
                (
                  refl,
                  record { before = y; woken = woken; asked = at; left = there ∙ ap some final },
                );
        }

    pub poll_slot-Turn :
        (idx : ℕ) (x : Executor F) (s : TaskSlot F)
        → get_elem? x.pool idx ≡ some s
        → Turn idx x (poll_slot poll idx x)
    poll_slot-Turn idx x s e = elim (Option-cases s.future) [
      | inl free ↦ Turn-idle idx x s e (inl free)
      | inr (f, there) ↦ elim (Bool-cases s.ready) [
        | inr still ↦ Turn-idle idx x s e (inr still)
        | inl on ↦
            Turn-busy idx x f (e ∙ ap₂ (λ a b. some (record { future = a; ready = b })) there on)
      ]
    ]

    roused-after :
        (c done : Bool) (f1 : F) (w : Bool)
        → roused c (some (after_poll done f1 w w)) ≡ some (after_poll done f1 (c || w) (c || w))
    roused-after c true f1 w = refl
    roused-after c false f1 w = refl

    -- What was polled stays so while other slots are polled.
    pub Polled-kept :
        (idx : ℕ) (f : F) (x x' : Executor F) → Polled idx f x → Kept idx x x' → Polled idx f x'
    Polled-kept idx f x x' p (c, e) = record {
      before = p.before;
      woken = c || p.woken;
      asked = p.asked;
      left =
          e
          ∙ ap (roused c) p.left
          ∙ roused-after c (poll idx f p.before).0 (poll idx f p.before).1 p.woken;
    }

    pub Turn-HasSlots :
        (idx : ℕ) (x : Executor F) (r : Run (Bool × Executor F)) (t : Turn idx x r)
        → HasSlots x
        → HasSlots t.after
    unfolding HasSlots
    Turn-HasSlots idx x r t has j lt =
        let (s, e) = has j lt in
        elim (ℕ_discrete idx j) [
          | yes same ↦ let (v, there) = t.stays s (rw same e) in (v, rw (← same) there)
          | no other ↦
              let (b, kept) = t.kept j other in
              (record s { ready = b || s.ready }, kept ∙ ap (roused b) e)
        ]

slot_at {ℓ} :
    {F : Type ℓ} (xs : List (TaskSlot F)) (i : ℕ)
    → i < length xs
    → (s : TaskSlot F) × (get_elem? xs i ≡ some s)
slot_at [] i p = absurd (omega arith)
slot_at (s ∷ xs) zero p = (s, refl)
slot_at (s ∷ xs) (suc i) p = slot_at xs i (omega arith)

-- A pool of the source's size has all its slots.
pub HasSlots-length {ℓ} :
    {F : Type ℓ} (x : Executor F) → async_pool_max ≤ length x.pool → HasSlots x
unfolding HasSlots
HasSlots-length x h j lt = slot_at x.pool j (omega arith)
