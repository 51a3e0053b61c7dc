-- ===== src/Base/Handles.antt =====
-- Handles: things that are open, each known by a number, and the places that hold them.
use Prim.Native.Nat.{ℕ, suc, ◌+◌, ◌-◌}
use mathlib.Core.Path.{◌≡◌}
use mathlib.Core.Option.{Option, none, some}
use mathlib.Core.List.{List, [], ◌∷◌}
use native.Mathlib.Omega.{arith}
use dns_automatic_traffic_sp.Base.Tests.{if◌then◌else◌, ◌==◌}

abbrev pub remove : ℕ → List ℕ → List ℕ
remove n [] = []
remove n (j ∷ l) = if j == n then l else j ∷ remove n l

abbrev pub count : ℕ → List ℕ → ℕ
count k [] = 0
count k (n ∷ l) = if n == k then suc (count k l) else count k l

abbrev pub holds : ℕ → Option ℕ → ℕ
holds k none = 0
holds k (some n) = if n == k then 1 else 0

pub count-remove : (k n : ℕ) (l : List ℕ) → count k (remove n l) ≡ count k l - holds k (some n)
count-remove k n [] = omega arith
count-remove k n (j ∷ l) = ground (arith, count-remove k n l)

-- How many places hold a handle.
abbrev pub count_places : ℕ → List (Option ℕ) → ℕ
count_places k [] = 0
count_places k (o ∷ l) = holds k o + count_places k l
