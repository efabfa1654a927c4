-- ===== src/DeepCopy/Copier.antt =====
-- What a deep copy promises.
use platform_service_gitops.Prelude.{ℕ, ◌≡◌, ◌≤◌}
use platform_service_gitops.DeepCopy.Memory.{Agree, Heap}
use platform_service_gitops.Go.Eff.{Eff}

-- A Go type as it is in memory: `R` is what stands in a variable, and may hold addresses; `V` is the
-- value that it stands for. `Within low high h r`: every address that `r` leads to is in the range.
pub record Copier (C R V : Type 0) : Type 1 where
  pub copy : R → Eff (Heap C) R
  pub read : Heap C → R → V
  pub Within : ℕ → ℕ → Heap C → R → Type 0

-- The copy stands for the same value, leads only to cells that were not in use, and no cell that
-- was in use has changed.
pub record Copied {C R V : Type 0} (c : Copier C R V) (h : Heap C) (r : R) : Type 0 where
  pub grows : h.next ≤ (c.copy r h).1.next
  pub frame : Agree 0 h.next h (c.copy r h).1
  pub fresh : c.Within h.next (c.copy r h).1.next (c.copy r h).1 (c.copy r h).0
  pub same : c.read (c.copy r h).1 (c.copy r h).0 ≡ c.read h r

-- The range of an object bounds what it stands for, and its copy is one.
pub record Deep {C R V : Type 0} (c : Copier C R V) : Type 0 where
  pub confined :
      (low high : ℕ) (h g : Heap C) (r : R)
      → c.Within low high h r
      → Agree low high h g
      → c.Within low high g r × (c.read g r ≡ c.read h r)
  pub widen :
      (low high low' high' : ℕ) (h : Heap C) (r : R)
      → low' ≤ low
      → high ≤ high'
      → c.Within low high h r
      → c.Within low' high' h r
  pub copied : (h : Heap C) (r : R) → c.Within 0 h.next h r → Copied c h r

-- What a caller relies on: the copy and the original stand for one value, and stay apart. Writes to
-- cells that were not in use before the copy do not show in the original, and writes to the others
-- do not show in the copy.
pub record Independent {C R V : Type 0} (c : Copier C R V) (h : Heap C) (r : R) : Type 0 where
  pub equal : c.read (c.copy r h).1 (c.copy r h).0 ≡ c.read h r
  pub original_stays : (g : Heap C) → Agree 0 h.next (c.copy r h).1 g → c.read g r ≡ c.read h r
  pub copy_stays :
      (g : Heap C)
      → Agree h.next (c.copy r h).1.next (c.copy r h).1 g
      → c.read g (c.copy r h).0 ≡ c.read h r
