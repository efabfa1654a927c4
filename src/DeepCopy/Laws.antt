-- ===== src/DeepCopy/Laws.antt =====
-- Every shape of the generated code copies deeply, if its parts do.
use platform_service_gitops.Prelude.{arith, refl, ℕ, ◌<◌, ◌∙◌, ◌≡◌, ◌≤◌, ◌⊎◌, ap}
use platform_service_gitops.DeepCopy.Copier.{Copier, Independent, Copied, Deep}
use platform_service_gitops.DeepCopy.Memory.{Agree, Heap, Place, store}
use platform_service_gitops.DeepCopy.Shapes.{plain, pair, Parts, struct}

module _ {C : Type 0} where
  pub Agree-through :
      (low high from to : ℕ) (h g : Heap C)
      → from ≤ low
      → high ≤ to
      → Agree from to h g
      → Agree low high h g
  Agree-through low high from to h g p q same x l u = same x (omega arith) (omega arith)

  pub Agree-trans :
      (low high : ℕ) (h g k : Heap C) → Agree low high h g → Agree low high g k → Agree low high h k
  Agree-trans low high h g k p q x l u = q x l u ∙ p x l u

  -- A store outside the range is not seen in it.
  pub store-Agree :
      {A : Type 0} (place : Place C A) (p : ℕ) (a : A) (low high : ℕ) (h : Heap C)
      → (p < low) ⊎ (high ≤ p)
      → Agree low high h (store place p a h).1
  unfolding store
  store-Agree place p a low high h out x l u = ground (arith, out)

  pub plain-Deep : {A : Type 0} → Deep (plain {C = C} {A = A})
  plain-Deep = record {
    confined = λ low high h g r w same. (tt, refl);
    widen = λ low high low' high' h r p q w. tt;
    copied =
        λ h r w. record { grows = omega arith; frame = λ x l u. refl; fresh = tt; same = refl };
  }

  module _ {R V : Type 0} (c : Copier C R V) (d : Deep c) where
    -- The original is still there after a copy.
    pub copied-keeps :
        (h g : Heap C) (r : R)
        → c.Within 0 h.next h r
        → h.next ≤ g.next
        → Agree 0 h.next h g
        → c.Within 0 g.next g r × (c.read g r ≡ c.read h r)
    copied-keeps h g r w grows same =
        let kept = d.confined 0 h.next h g r w same in
        (d.widen 0 h.next 0 g.next g r (omega arith) grows kept.0, kept.1)

    pub Deep-Independent : (h : Heap C) (r : R) → c.Within 0 h.next h r → Independent c h r
    Deep-Independent h r w =
        let made = d.copied h r w in
        record {
          equal = made.same;
          original_stays = λ g same.
              (d.confined 0 h.next h g r w
                (Agree-trans 0 h.next h (c.copy r h).1 g made.frame same)).1;
          copy_stays = λ g same.
              (d.confined h.next (c.copy r h).1.next (c.copy r h).1 g (c.copy r h).0 made.fresh
                same).1
              ∙ made.same;
        }

  module _ {A B VA VB : Type 0} (a : Copier C A VA) (b : Copier C B VB) (da : Deep a)
      (db : Deep b) where
    pair-Copied : (h : Heap C) (r : A × B) → (pair a b).Within 0 h.next h r → Copied (pair a b) h r
    pair-Copied h r w =
        let first = a.copy r.0 h in
        let second = b.copy r.1 first.1 in
        let x = da.copied h r.0 w.0 in
        let kept = copied-keeps b db h first.1 r.1 w.1 x.grows x.frame in
        let y = db.copied first.1 r.1 kept.0 in
        let moved = da.confined h.next first.1.next first.1 second.1 first.0 x.fresh (
          Agree-through h.next first.1.next 0 first.1.next first.1 second.1 (omega arith)
            (omega arith) y.frame) in
        record {
          grows = omega (arith, x.grows, y.grows);
          frame = Agree-trans 0 h.next h first.1 second.1 x.frame (
              Agree-through 0 h.next 0 first.1.next first.1 second.1 (omega arith) x.grows y.frame);
          fresh = (
            da.widen h.next first.1.next h.next second.1.next second.1 first.0 (omega arith) y.grows
                moved.0,
            db.widen first.1.next second.1.next h.next second.1.next second.1 second.0 x.grows
                (omega arith) y.fresh,
          );
          same = rw (moved.1, x.same, y.same, kept.1) refl;
        }

    pub pair-Deep : Deep (pair a b)
    pair-Deep = record {
      confined = λ low high h g r w same.
          let x = da.confined low high h g r.0 w.0 same in
          let y = db.confined low high h g r.1 w.1 same in ((x.0, y.0), rw (x.1, y.1) refl);
      widen = λ low high low' high' h r p q w.
          (da.widen low high low' high' h r.0 p q w.0, db.widen low high low' high' h r.1 p q w.1);
      copied = pair-Copied;
    }

  pub struct-Deep :
      {R A VA V : Type 0} (parts : Parts R A VA V) (a : Copier C A VA)
      → Deep a
      → Deep (struct parts a)
  struct-Deep parts a d = record {
    confined = λ low high h g r w same.
        let x = d.confined low high h g (parts.part r) w same in (x.0, ap (parts.view r) x.1);
    widen = λ low high low' high' h r p q w. d.widen low high low' high' h (parts.part r) p q w;
    copied = λ h r w.
        let x = d.copied h (parts.part r) w in
        record {
          grows = x.grows;
          frame = x.frame;
          fresh = rw (parts.part-build) x.fresh;
          same = rw (parts.part-build, parts.view-build, x.same) refl;
        };
  }
