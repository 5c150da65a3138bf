-- ===== src/Spinlock.antt =====
-- `spinlock` (include/boost/green_thread/detail/spinlock.hpp): threads that lock and unlock it, with
-- each operation on the atomic `state_` as one step.
mod Examples
use boost_green_thread.Base.{
  ℕ, suc, ◌<◌, ◌≤◌, Bool, true, false, ◌≡◌, ◌≢◌, ◌⊎◌, inl, inr, refl, update, ◌==◌, if◌then◌else◌,
  arith,
}

-- `LockState`
pub data LockState : Type 0 where
  locked unlocked : LockState

pub data Pc : Type 0 where
  outside spinning inside : Pc

pub record System : Type 0 where
  pub state : LockState
  pub pc : ℕ → Pc

-- `spinlock()`
abbrev pub init : System
init = record { state = unlocked; pc = λ _. outside }

-- `state_.exchange(Locked)`: the new state and the old one.
unfoldable pub exchange : LockState → LockState → LockState × LockState
exchange new old = (new, old)

abbrev pub enters : LockState → Pc
enters locked = spinning
enters unlocked = inside

-- One turn of the loop in `lock`
unfoldable pub try : ℕ → System → System
unfolding exchange
try i s = let r = exchange locked s.state in record { state = r.0; pc = update s.pc i (enters r.1) }

unfoldable pub unlock : ℕ → System → System
unlock i s = record { state = unlocked; pc = update s.pc i outside }

-- Only the thread that has locked it unlocks it.
pub data Step (s : System) : System → Type 0 where
  locks : (i : ℕ) → s.pc i ≡ outside → Step s (try i s)
  spins : (i : ℕ) → s.pc i ≡ spinning → Step s (try i s)
  unlocks : (i : ℕ) → s.pc i ≡ inside → Step s (unlock i s)

pub data Reach : System → Type 0 where
  start : Reach init
  later : {s t : System} → Reach s → Step s t → Reach t

record Inv (s : System) : Type 0 where
  held : (i : ℕ) → s.pc i ≡ inside → s.state ≡ locked
  one : (i j : ℕ) → s.pc i ≡ inside → s.pc j ≡ inside → i ≡ j
  owner : s.state ≡ locked → (i : ℕ) × (s.pc i ≡ inside)

LockState-cases : (l : LockState) → (l ≡ locked) ⊎ (l ≡ unlocked)
LockState-cases locked = inl refl
LockState-cases unlocked = inr refl

try-Inv : (i : ℕ) (s : System) → s.pc i ≢ inside → Inv s → Inv (try i s)
unfolding try
try-Inv i s e v = record {
  held = λ j q. refl;
  one = λ j k q r. ground (arith, v.one j k, v.held j, v.held k);
  owner = λ q. elim (LockState-cases s.state) [
    | inl l ↦ let (k, h) = v.owner l in (k, ground (arith, h, l))
    | inr l ↦ (i, ground (arith, l))
  ];
}

unlock-Inv : (i : ℕ) (s : System) → s.pc i ≡ inside → Inv s → Inv (unlock i s)
unfolding unlock
unlock-Inv i s e v = record {
  held = λ j q. ground (arith, v.one i j);
  one = λ j k q r. ground (arith, v.one j k, v.one i j);
  owner = λ q. ground arith;
}

Reach-Inv : {s : System} → Reach s → Inv s
Reach-Inv start = record {
  held = λ i q. ground arith;
  one = λ i j q. ground arith;
  owner = λ q. ground arith;
}
Reach-Inv (later {s} r (locks i e)) = try-Inv i s (λ q. ground arith) (Reach-Inv r)
Reach-Inv (later {s} r (spins i e)) = try-Inv i s (λ q. ground arith) (Reach-Inv r)
Reach-Inv (later {s} r (unlocks i e)) = unlock-Inv i s e (Reach-Inv r)

Pc-cases : (p : Pc) → (p ≡ inside) ⊎ (p ≢ inside)
Pc-cases inside = inl refl
Pc-cases outside = inr (ground arith)
Pc-cases spinning = inr (ground arith)

-- The spinlock excludes, and is free when nobody has it: a thread `i` that tries gets it when no thread
-- has it, and otherwise spins; then one thread `k` has it and no other does.
pub spin_exclusion :
    {s : System} (i j : ℕ)
    → Reach s
    → s.pc i ≢ inside
    → (((try i s).pc i ≡ inside) × (s.pc j ≢ inside))
      ⊎ ((k : ℕ) × ((try i s).pc i ≡ spinning) × (s.pc k ≡ inside) × ((k ≡ j) ⊎ (s.pc j ≢ inside)))
unfolding try
spin_exclusion {s} i j r e =
    let v = Reach-Inv r in
    elim (LockState-cases s.state) [
      | inr l ↦ inl (ground (arith, l), ground (arith, l, Inv.held v j))
      | inl l ↦
          let (k, h) = Inv.owner v l in
          inr (
            k,
            ground (arith, l),
            h,
            elim (Pc-cases (s.pc j)) [ inl q ↦ inl (Inv.one v k j h q) | inr q ↦ inr q ],
          )
    ]
