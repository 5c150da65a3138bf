-- ===== src/Condition/Monitor/AnyLoses.antt =====
-- How `condition_variable_any` loses a wakeup.
use boost_green_thread.Base.{ℕ, true, false, ◌≡◌, refl, arith}
use boost_green_thread.Condition.Monitor.{released, paused, take, let_go, run_on, queue_up, look}
use boost_green_thread.Condition.Monitor.AnySteps.{
  AnyMonitor, init, activate, wait_inner, Step, enters, leaves, runs_on, looks, activates, queues,
  comes_back, assigns, notifies, From, here, later,
}
use boost_green_thread.Condition.Monitor.AnyInvariant.{Inv, Step-Inv, From-Inv, init-Inv}

-- Thread `i` waits, and nobody is about to notify.
record Stuck (i : ℕ) (s : AnyMonitor) : Type 0 where
  valid : Inv s
  asleep : s.m.pc i ≡ paused
  unwoken : s.m.woken i ≡ false
  silent : (j : ℕ) → s.m.owes j ≡ false
  holds : s.m.pred ≡ true

module _ {i : ℕ} {s : AnyMonitor} (w : Stuck i s) where
  stays :
      (t : AnyMonitor)
      → Step false s t
      → t.m.pc i ≡ s.m.pc i
      → t.m.woken i ≡ false
      → ((j : ℕ) → t.m.owes j ≡ s.m.owes j)
      → t.m.pred ≡ s.m.pred
      → Stuck i t
  stays t st e f g h = record {
    valid = Step-Inv st w.valid;
    asleep = ground (arith, w.asleep);
    unwoken = f;
    silent = λ j. ground (arith, w.silent j, g j);
    holds = ground (arith, w.holds);
  }

  Step-Stuck : {t : AnyMonitor} → Step false s t → Stuck i t
  unfolding take let_go run_on look activate wait_inner queue_up
  Step-Stuck (enters j e) =
      stays _ (enters j e) (ground (arith, w.asleep)) (ground (arith, w.unwoken)) (λ _. refl) refl
  Step-Stuck (leaves j e) =
      stays _ (leaves j e) (ground (arith, w.asleep)) w.unwoken (λ _. refl) refl
  Step-Stuck (runs_on j e) =
      stays _ (runs_on j e) (ground (arith, w.asleep, Inv.at_mutex w.valid j)) w.unwoken (λ _. refl)
        refl
  Step-Stuck (looks j e) = stays _ (looks j e) (ground (arith, w.asleep)) w.unwoken (λ _. refl) refl
  Step-Stuck (activates j e f) =
      stays _ (activates j e f) (ground (arith, w.asleep)) w.unwoken (λ _. refl) refl
  Step-Stuck (queues j e) =
      stays _ (queues j e) (ground (arith, w.asleep)) w.unwoken (λ _. refl) refl
  Step-Stuck (comes_back j e f g) =
      stays _ (comes_back j e f g) (ground (arith, w.asleep, w.unwoken)) (ground (arith, w.unwoken))
        (λ _. refl) refl
  Step-Stuck (assigns j b e f) = absurd (ground arith)
  Step-Stuck (notifies j o e) = absurd (ground (arith, w.silent j))

From-Stuck : {i : ℕ} {s t : AnyMonitor} → From false s t → Stuck i s → Stuck i t
From-Stuck here w = w
From-Stuck (later r st) w = Step-Stuck (From-Stuck r w) st

-- `condition_variable_any` loses a wakeup: if the predicate comes to hold, with its notification,
-- after a waiting thread has unlocked the mutex and before it enters the queue, then this thread
-- suspends although the predicate holds, and stays so, whatever happens, for as long as no thread
-- changes the predicate again.
pub any_wakeup_lost :
    {s t : AnyMonitor} (i : ℕ)
    → From true init s
    → s.m.pc i ≡ released
    → s.m.pred ≡ true
    → s.m.woken i ≡ false
    → ((j : ℕ) → s.m.owes j ≡ false)
    → From false (wait_inner i s) t
    → (t.m.pc i ≡ paused) × (t.m.woken i ≡ false) × (t.m.pred ≡ true)
unfolding wait_inner queue_up
any_wakeup_lost {s} i r e p u q f =
    let v = From-Inv r init-Inv in
    let w : Stuck i (wait_inner i s) = record {
      valid = Step-Inv {b = true} (queues i e) v;
      asleep = ground (arith, Inv.has_inner v i);
      unwoken = u;
      silent = q;
      holds = p;
    } in
    let x = From-Stuck f w in (x.asleep, x.unwoken, x.holds)
