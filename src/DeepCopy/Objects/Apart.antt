-- ===== src/DeepCopy/Objects/Apart.antt =====
-- A deep copy of an object and the object stay apart.
use platform_service_gitops.Prelude.{Option, ap, arith, none, refl, some, ℕ, ◌∙◌, ◌≡◌, ◌≤◌, sym}
use platform_service_gitops.DeepCopy.Copier.{Copied, Copier, Independent}
use platform_service_gitops.DeepCopy.Meta.{
  MetaLaws, MetaLibrary, Object, ObjectType, as_object, app_installation_list_type,
  app_installation_type, git_repository_list_type, git_repository_type, github_instance_list_type,
  github_instance_type, kustomization_list_type, kustomization_type,
}
use platform_service_gitops.DeepCopy.Objects.{
  Layout, ValueOf, deep_copy_object, deep_copy_object-eq, pointer_to, pointer_to-Deep,
}
use platform_service_gitops.DeepCopy.Laws.{Deep-Independent}
use platform_service_gitops.DeepCopy.Memory.{Agree, Heap}
use platform_service_gitops.Go.Eff.{Eff, pure}

module _ {C : Type 0} (lib : MetaLibrary C) (l : Layout lib) where
  abbrev pub Value : Type 0
  Value = (t : ObjectType) × ValueOf lib l t

  abbrev tagged : (t : ObjectType) → Option (ValueOf lib l t) → Option Value
  tagged t none = none
  tagged t (some v) = some (t, v)

  abbrev pub copy_object : Option Object → Eff (Heap C) (Option Object)
  copy_object none = pure none
  copy_object (some o) = deep_copy_object lib l o.type o.pointer

  abbrev pub read_object : Heap C → Option Object → Option Value
  read_object h none = none
  read_object h (some o) = tagged o.type ((pointer_to lib l o.type).read h o.pointer)

  abbrev pub WithinObject : ℕ → ℕ → Heap C → Option Object → Type 0
  WithinObject low high h none = Unit {0}
  WithinObject low high h (some o) = (pointer_to lib l o.type).Within low high h o.pointer

  -- A variable of type runtime.Object. One that holds a nil pointer stands for nothing, as nil does.
  abbrev pub runtime_object : Copier C (Option Object) (Option Value)
  runtime_object = record { copy = copy_object; read = read_object; Within = WithinObject }

  as_object-Within :
      (t : ObjectType) (low high : ℕ) (h : Heap C) (p : Option ℕ)
      → (pointer_to lib l t).Within low high h p
      → WithinObject low high h (as_object t p)
  as_object-Within t low high h none w = tt
  as_object-Within t low high h (some p) w = w

  read-nil : (t : ObjectType) (h : Heap C) → (pointer_to lib l t).read h none ≡ none
  read-nil git_repository_type h = refl
  read-nil git_repository_list_type h = refl
  read-nil kustomization_type h = refl
  read-nil kustomization_list_type h = refl
  read-nil app_installation_type h = refl
  read-nil app_installation_list_type h = refl
  read-nil github_instance_type h = refl
  read-nil github_instance_list_type h = refl

  read-as_object :
      (t : ObjectType) (h : Heap C) (p : Option ℕ)
      → read_object h (as_object t p) ≡ tagged t ((pointer_to lib l t).read h p)
  read-as_object t h none = ap (tagged t) (sym (read-nil t h))
  read-as_object t h (some p) = refl

  object-Copied :
      (L : MetaLaws lib) (h : Heap C) (o : Option Object)
      → WithinObject 0 h.next h o
      → Copied runtime_object h o
  object-Copied L h none w = record {
    grows = omega arith;
    frame = λ x low high. refl;
    fresh = tt;
    same = refl;
  }
  object-Copied L h (some o) w =
      let c = pointer_to lib l o.type in
      let x = (pointer_to-Deep lib l L o.type).copied h o.pointer w in
      let made = c.copy o.pointer h in
      let eq = deep_copy_object-eq lib l o.type o.pointer h in
      record {
        grows = rw eq x.grows;
        frame = rw eq x.frame;
        fresh = rw eq (as_object-Within o.type h.next made.1.next made.1 made.0 x.fresh);
        same = rw eq (read-as_object o.type made.1 made.0 ∙ ap (tagged o.type) x.same);
      }

  object-confined :
      (L : MetaLaws lib) (low high : ℕ) (h g : Heap C) (o : Option Object)
      → WithinObject low high h o
      → Agree low high h g
      → WithinObject low high g o × (read_object g o ≡ read_object h o)
  object-confined L low high h g none w same = (tt, refl)
  object-confined L low high h g (some o) w same =
      let x = (pointer_to-Deep lib l L o.type).confined low high h g o.pointer w same in
      (x.0, ap (tagged o.type) x.1)

  object-widen :
      (L : MetaLaws lib) (low high low' high' : ℕ) (h : Heap C) (o : Option Object)
      → low' ≤ low
      → high ≤ high'
      → WithinObject low high h o
      → WithinObject low' high' h o
  object-widen L low high low' high' h none p q w = tt
  object-widen L low high low' high' h (some o) p q w =
      (pointer_to-Deep lib l L o.type).widen low high low' high' h o.pointer p q w

  -- If the deep copies of apimachinery are deep, and the object leads only to cells in use, then
  -- DeepCopyObject gives an object that stands for the same; later writes to cells that were not in
  -- use before do not show in the original, and writes to the others do not show in the copy.
  pub deep_copy_object-Independent :
      (L : MetaLaws lib) (h : Heap C) (o : Option Object)
      → WithinObject 0 h.next h o
      → Independent runtime_object h o
  deep_copy_object-Independent L =
      Deep-Independent runtime_object
        (record { confined = object-confined L; widen = object-widen L; copied = object-Copied L })
