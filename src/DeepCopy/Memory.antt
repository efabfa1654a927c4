-- ===== src/DeepCopy/Memory.antt =====
-- The memory of the process: cells that are allocated one after the other and written.
use platform_service_gitops.Go.Eff.{Eff}
use platform_service_gitops.Prelude.{if◌then◌else◌, ℕ, ◌+◌, ◌<◌, ◌≡◌, ◌≤◌, eqb}

-- `C` is what a cell can hold. Cells from `next` on are not in use.
pub record Heap (C : Type 0) : Type 0 where
  pub next : ℕ
  pub cells : ℕ → C

-- The place for the values of one Go type in a cell; memory is typed, so a cell uses one place.
pub record Place (C A : Type 0) : Type 0 where
  pub load : C → A
  pub save : A → C → C
  pub load-save : (a : A) (c : C) → load (save a c) ≡ a

module _ {C : Type 0} where
  -- new(T) and make(...): the address of a cell that was not in use. What it holds is not read
  -- before it is stored.
  unfoldable pub new : Eff (Heap C) ℕ
  new h = (h.next, record h { next = h.next + 1 })

  -- *p
  abbrev pub at : {A : Type 0} → Place C A → ℕ → Heap C → A
  at place p h = place.load (h.cells p)

  abbrev pub deref : {A : Type 0} → Place C A → ℕ → Eff (Heap C) A
  deref place p h = (at place p h, h)

  -- *p = a
  unfoldable pub store : {A : Type 0} → Place C A → ℕ → A → Eff (Heap C) (Unit {0})
  store place p a h =
      (tt, record h { cells = λ x. if eqb x p then place.save a (h.cells x) else h.cells x })

  -- The two memories hold the same in the cells from `low` up to `high`.
  abbrev pub Agree : ℕ → ℕ → Heap C → Heap C → Type 0
  Agree low high h g = (x : ℕ) → low ≤ x → x < high → g.cells x ≡ h.cells x
