-- ===== src/Base/Families.antt =====
-- Families indexed by thread.
use Prim.Native.Nat.{ℕ}
use boost_green_thread.Base.Tests.{◌==◌, if◌then◌else◌}

abbrev pub update {ℓ} : {A : Type ℓ} → (ℕ → A) → ℕ → A → ℕ → A
update f i a j = if i == j then a else f j
