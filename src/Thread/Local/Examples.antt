-- ===== src/Thread/Local/Examples.antt =====
-- The theorems on `thread_specific_ptr` after one object has been handed to it.
use boost_green_thread.Base.{◌≤◌, some, ◌≡◌, refl, arith}
use boost_green_thread.Thread.Tss.{get_tss_data, set_tss_data, lookup, insert}
use boost_green_thread.Thread.Local.{
  Storage, empty, get, reset, release, exit, resets, Reach, start, later,
}
use boost_green_thread.Thread.Local.Cleaned.{times, cleaned_once, release_cleans}

-- Pointer 7 with the clean-up function 3 holds the object 0.
abbrev one_object : Storage
one_object = reset 7 (some 3) (some 0) (record empty { next = 1 })

one_object-Reach : Reach one_object
one_object-Reach = later start (resets 7 3)

cleaned_once_example : (times 0 one_object.log ≤ 1) × (times 0 (exit one_object).log ≡ 1)
unfolding reset get get_tss_data set_tss_data lookup
cleaned_once_example = cleaned_once 0 one_object-Reach (omega arith)

release_cleans_example :
    ((release 7 one_object).1 ≡ some 0) × (times 0 (release 7 one_object).0.log ≡ 1)
unfolding reset get get_tss_data set_tss_data lookup insert
release_cleans_example = release_cleans 7 0 one_object-Reach refl
