-- ===== src/Thread/Local.antt =====
-- `thread_specific_ptr` (include/boost/green_thread/tss.hpp) in one green thread, over the map `fss_`.
pub mod Cleaned
mod Examples
use boost_green_thread.Base.{
  ℕ, suc, Bool, true, false, Option, none, some, List, [], ◌∷◌, ◌++◌, ◌==◌, if◌then◌else◌,
}
use boost_green_thread.Thread.Object.{TssValue, Ran, cleanup, tss_cleanup, tss_cleanups}
use boost_green_thread.Thread.Tss.{set_tss_data, get_tss_data}

-- `log` has the clean-ups that have been made, each a function and its argument; objects are given
-- out in order, and `next` is the next one.
pub record Storage : Type 0 where
  pub fss : List (ℕ × TssValue)
  pub log : List (ℕ × Option ℕ)
  pub next : ℕ

abbrev pub empty : Storage
empty = record { fss = []; log = []; next = 0 }

abbrev pub set : ℕ → Option ℕ → Option ℕ → Bool → Storage → Storage
set key func value cleanup_existing s =
    let r = set_tss_data key func value cleanup_existing s.fss in
    record s { fss = r.0; log = s.log ++ r.1 }

unfoldable pub get : ℕ → Storage → Option ℕ
unfolding get_tss_data
get key s = get_tss_data key s.fss

abbrev same_pointer : Option ℕ → Option ℕ → Bool
same_pointer none none = true
same_pointer none (some _) = false
same_pointer (some a) none = false
same_pointer (some a) (some b) = a == b

-- `reset(new_value)` of the pointer `key`, whose `cleanup` is `func`
unfoldable pub reset : ℕ → Option ℕ → Option ℕ → Storage → Storage
unfolding get set_tss_data
reset key func new_value s =
    if same_pointer (get key s) new_value then s else set key func new_value true s

-- The storage, and the pointer that is returned.
unfoldable pub release : ℕ → Storage → Storage × Option ℕ
unfolding get set_tss_data
release key s = (set key none none false s, get key s)

-- `~thread_specific_ptr`
unfoldable pub destroy : ℕ → Storage → Storage
unfolding set_tss_data
destroy key s = set key none none true s

abbrev pub cleaned : List Ran → List (ℕ × Option ℕ)
cleaned [] = []
cleaned (cleanup f ∷ rs) = cleaned rs
cleaned (tss_cleanup f d ∷ rs) = (f, some d) ∷ cleaned rs

-- The loop over `fss_` at the end of the thread, in `~cleaner`
unfoldable pub exit : Storage → Storage
exit s = record s { log = s.log ++ cleaned (tss_cleanups s.fss) }

-- A new object, or null, is handed to a pointer that has a clean-up function; `release` is not called.
pub data Step (s : Storage) : Storage → Type 0 where
  resets :
      (key func : ℕ) → Step s (reset key (some func) (some s.next) (record s { next = suc s.next }))
  clears : (key func : ℕ) → Step s (reset key (some func) none s)
  destroys : (key : ℕ) → Step s (destroy key s)

pub data Reach : Storage → Type 0 where
  start : Reach empty
  later : {s t : Storage} → Reach s → Step s t → Reach t
