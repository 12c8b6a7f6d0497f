-- ===== src/Workflow/Triples.antt =====
-- Rules for what holds when a part of the workflow goes on, returns or throws (workflow.ts).
use maman_agent.Prelude.{
  ◌≡◌, if◌then◌else◌, ℕ, ◌+◌, List, [], ◌∷◌, inl, inr, Bool-cases, refl, Bool, true, false,
}
use maman_agent.Workflow.State.{
  Signal, Vars, Entry, World, finalized, final, FinalStatus, RunStatus, status_recorded, handle,
  deliver, await, noted, Flow, next, returned, thrown, ◌>>=◌, bookkeep, finish, record_status,
}

-- `N` holds where the flow goes on, and `S` where it stops.
abbrev pub Ensures : (Vars → Type 0) → (Vars → Type 0) → Flow → Type 0
Ensures N S (next v) = N v
Ensures N S (returned s v) = S v
Ensures N S (thrown v) = S v

-- The variables with which a flow ends.
abbrev pub vars_of : Flow → Vars
vars_of (next v) = v
vars_of (returned s v) = v
vars_of (thrown v) = v

pub Ensures-vars_of : (P : Vars → Type 0) (f : Flow) → Ensures P P f → P (vars_of f)
Ensures-vars_of P (next v) h = h
Ensures-vars_of P (returned s v) h = h
Ensures-vars_of P (thrown v) h = h

pub Ensures->>= :
    (N N' S : Vars → Type 0) (m : Flow) (k : Vars → Flow)
    → Ensures N S m
    → ((v : Vars) → N v → Ensures N' S (k v))
    → Ensures N' S (m >>= k)
Ensures->>= N N' S (next v) k h g = g v h
Ensures->>= N N' S (returned s v) k h g = h
Ensures->>= N N' S (thrown v) k h g = h

pub Ensures-mono :
    (N N' S S' : Vars → Type 0) (m : Flow)
    → ((v : Vars) → N v → N' v)
    → ((v : Vars) → S v → S' v)
    → Ensures N S m
    → Ensures N' S' m
Ensures-mono N N' S S' (next v) f g h = f v h
Ensures-mono N N' S S' (returned s v) f g h = g v h
Ensures-mono N N' S S' (thrown v) f g h = g v h

pub Ensures-if :
    (N S : Vars → Type 0) (b : Bool) (x y : Flow)
    → (b ≡ true → Ensures N S x)
    → (b ≡ false → Ensures N S y)
    → Ensures N S (if b then x else y)
Ensures-if N S true x y f g = f refl
Ensures-if N S false x y f g = g refl

-- What no signal and no await can break.
pub record IsStable (P : Vars → Type 0) : Type 0 where
  pub handled : (s : Signal) (v : Vars) → P v → P (handle s v)
  pub counted : (v : Vars) (n : ℕ) → P v → P (record v { awaits = n })

module _ (P : Vars → Type 0) (stable : IsStable P) (w : World) where
  deliver-keeps : (ss : List Signal) (v : Vars) → P v → P (deliver ss v)
  unfolding deliver
  deliver-keeps [] v h = h
  deliver-keeps (s ∷ ss) v h = deliver-keeps ss (handle s v) (stable.handled s v h)

  pub await-keeps : (v : Vars) → P v → P (await w v)
  unfolding await
  await-keeps v h = deliver-keeps (w.signals v.awaits) _ (stable.counted v (v.awaits + 1) h)

  pub bookkeep-Ensures : (e : Entry) (v : Vars) → P (noted e v) → Ensures P P (bookkeep w e v)
  unfolding bookkeep
  bookkeep-Ensures e v h = elim (Bool-cases (w.recorded v.awaits)) [
    | inl done ↦ rw done (await-keeps (noted e v) h)
    | inr lost ↦ rw lost (await-keeps (noted e v) h)
  ]

  pub record_status-Ensures :
      (s : RunStatus) (v : Vars)
      → P (noted (status_recorded s) (record v { status = s }))
      → Ensures P P (record_status w s v)
  record_status-Ensures s v h = bookkeep-Ensures (status_recorded s) (record v { status = s }) h

  pub finish-Ensures :
      (N : Vars → Type 0) (s : FinalStatus) (v : Vars)
      → P (noted (finalized s) (record v { status = final s }))
      → Ensures N P (finish w s v)
  unfolding finish
  finish-Ensures N s v h =
      Ensures->>= P N P (bookkeep w (finalized s) (record v { status = final s }))
        (λ u. returned s u) (bookkeep-Ensures (finalized s) (record v { status = final s }) h)
        (λ u p. p)
