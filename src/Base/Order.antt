-- ===== src/Base/Order.antt =====
-- The order of the native numbers is well-founded.
use Prim.Native.Nat.{ℕ, zero, suc, ◌<◌}
use mathlib.Core.WellFounded.{Acc, WellFounded}
use native.Mathlib.Omega.{arith}

acc_under : (bound n : ℕ) → n < bound → Acc ◌<◌ n
acc_under zero n h = absurd (omega arith)
acc_under (suc bound) n h = Acc.intro n (λ m below. acc_under bound m (omega arith))

pub lt_wf : WellFounded ◌<◌
lt_wf = record { apply = λ n. acc_under (suc n) n (omega arith) }
