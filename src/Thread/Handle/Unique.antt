-- ===== src/Thread/Handle/Unique.antt =====
-- Any program over `n` variables of the class `thread`.
use boost_green_thread.Base.{
  ℕ, ◌<◌, ◌≤◌, Bool, true, Option, none, some, update, points_to, ◌≡◌, refl, arith,
}
use boost_green_thread.Base.Counts.{refs, refs-update, refs_none, refs_one}
use boost_green_thread.Thread.Handle.{
  Threads, returns, start_in, start, move_construct, move_assign, swap, detach, destroy,
}

abbrev pub init : Threads
init = record { next = 0; sched = λ _. 0; impl = λ _. none }

-- A variable that is constructed has represented nothing; `current` is the calling thread.
pub data Step (n : ℕ) (s : Threads) : Threads → Type 0 where
  starts : (current : Option ℕ) (a : ℕ) → a < n → s.impl a ≡ none → Step n s (start current a s)
  starts_in : (k a : ℕ) → a < n → s.impl a ≡ none → Step n s (start_in k a s)
  moves : (a b : ℕ) → a < n → b < n → s.impl b ≡ none → Step n s (move_construct a b s)
  assigns :
      (a b : ℕ) → a < n → b < n → (move_assign a b s).1 ≡ returns → Step n s (move_assign a b s).0
  swaps : (a b : ℕ) → a < n → b < n → Step n s (swap a b s)
  detaches : (current : Option ℕ) (a : ℕ) → a < n → Step n s (detach current a s).0
  ends : (a : ℕ) → a < n → Step n s (destroy a s)

pub data Reach (n : ℕ) : Threads → Type 0 where
  begin : Reach n init
  later : {s t : Threads} → Reach n s → Step n s t → Reach n t

abbrev pub any : ℕ → Bool
any _ = true

record Inv (n : ℕ) (s : Threads) : Type 0 where
  old : (a p : ℕ) → points_to (s.impl a) p ≡ true → p < s.next
  one : (p : ℕ) → refs any n s.impl p ≤ 1

module _ (n : ℕ) {s : Threads} (v : Inv n s) where
  open v use {old, one}

  start_in-Inv : (k a : ℕ) → a < n → s.impl a ≡ none → Inv n (start_in k a s)
  unfolding start_in
  start_in-Inv k a h e = record {
    old = λ b p q. ground (arith, old b p);
    one = λ p.
        let new = refs_none any n s.impl s.next (λ b. ground (arith, old b s.next)) in
        ground (arith, one p, refs-update any n s.impl a (some s.next) p h, new);
  }

  move_construct-Inv : (a b : ℕ) → a < n → b < n → s.impl b ≡ none → Inv n (move_construct a b s)
  unfolding move_construct
  move_construct-Inv a b h l e = record {
    old = λ c p q. ground (arith, old c p, old a p);
    one = λ p. ground (
      arith,
      one p,
      refs-update any n s.impl b (s.impl a) p l,
      refs-update any n (update s.impl b (s.impl a)) a none p h,
    );
  }

  move_assign-Inv :
      (a b : ℕ) → a < n → b < n → (move_assign a b s).1 ≡ returns → Inv n (move_assign a b s).0
  unfolding move_assign
  move_assign-Inv a b h l e = record {
    old = λ c p q. ground (arith, old c p, old a p);
    one = λ p. ground (
      arith,
      one p,
      refs-update any n s.impl a none p h,
      refs-update any n (update s.impl a none) b (s.impl a) p l,
    );
  }

  swap-Inv : (a b : ℕ) → a < n → b < n → Inv n (swap a b s)
  unfolding swap
  swap-Inv a b h l = record {
    old = λ c p q. ground (arith, old c p, old a p, old b p);
    one = λ p. ground (
      arith,
      one p,
      refs-update any n s.impl a (s.impl b) p h,
      refs-update any n (update s.impl a (s.impl b)) b (s.impl a) p l,
    );
  }

  detach-Inv : (current : Option ℕ) (a : ℕ) → a < n → Inv n (detach current a s).0
  unfolding detach
  detach-Inv current a h = record {
    old = λ c p q. ground (arith, old c p);
    one = λ p. ground (arith, one p, refs-update any n s.impl a none p h);
  }

  destroy-Inv : (a : ℕ) → a < n → Inv n (destroy a s)
  unfolding destroy
  destroy-Inv a h = record {
    old = λ c p q. ground (arith, old c p);
    one = λ p. ground (arith, one p, refs-update any n s.impl a none p h);
  }

Step-Inv : (n : ℕ) {s t : Threads} → Step n s t → Inv n s → Inv n t
unfolding start
Step-Inv n (starts none a h e) v = start_in-Inv n v _ a h e
Step-Inv n (starts (some i) a h e) v = start_in-Inv n v _ a h e
Step-Inv n (starts_in k a h e) v = start_in-Inv n v k a h e
Step-Inv n (moves a b h l e) v = move_construct-Inv n v a b h l e
Step-Inv n (assigns a b h l e) v = move_assign-Inv n v a b h l e
Step-Inv n (swaps a b h l) v = swap-Inv n v a b h l
Step-Inv n (detaches current a h) v = detach-Inv n v current a h
Step-Inv n (ends a h) v = destroy-Inv n v a h

Reach-Inv : (n : ℕ) {s : Threads} → Reach n s → Inv n s
Reach-Inv n begin = record {
  old = λ a p q. ground arith;
  one = λ p. ground (arith, refs_none any n (λ _. none) p (λ h. refl));
}
Reach-Inv n (later r st) = Step-Inv n st (Reach-Inv n r)

-- A thread is never represented twice: whatever a program does with its variables of the class
-- `thread`, starting, moving, assigning, swapping, detaching and ending them, at most one of them
-- represents a given thread, and it is one that has been started.
pub represented_once :
    (n : ℕ) {s : Threads} (a p : ℕ)
    → Reach n s
    → a < n
    → s.impl a ≡ some p
    → (p < s.next) × (refs any n s.impl p ≡ 1)
represented_once n {s} a p r h e =
    let v = Reach-Inv n r in
    ground (arith, Inv.old v a p, Inv.one v p, refs_one any n s.impl p a h refl)
