-- ===== src/McpAccess/Names/Expansion.antt =====
-- The names that resolveNames returns.
use mathlib.Core.Bool.{false≢true}
use mathlib.Core.Path.{subst}
use platform_service_gitops.K8s.Client.{Client}
use platform_service_gitops.Prelude.{
  Bool, Bool-cases, List, String, [], arith, eq_iff, eq_refl, false, inl, inr, not, refl, sym, true,
  ◌&&◌, ◌++◌, ◌==◌, ◌||◌, ◌∙◌, ◌∷◌, ◌≡◌,
}
use platform_service_gitops.K8s.Objects.{ControlPlane}
use platform_service_gitops.Api.GitRepository.{
  GitRepository, PropagateTarget, propagate_target_kind_control_plane,
}
use platform_service_gitops.Go.Invariant.{Result-cases, err≢ok, ok-injective, try-eq-ok}
use platform_service_gitops.Go.Error.{ok}
use platform_service_gitops.McpAccess.Names.{
  Names, TargetRef, add, add_all, contains, expand, resolve_names, target_key,
}

abbrev pub ref_key : TargetRef → String
ref_key ref = target_key ref.namespace ref.name

-- A reference with this key is in the list.
unfoldable pub has_ref : List TargetRef → String → Bool
has_ref [] k = false
has_ref (ref ∷ refs) k = ref_key ref == k || has_ref refs k

abbrev pub UniqueRefs : List TargetRef → Type 0
UniqueRefs [] = Unit {0}
UniqueRefs (ref ∷ refs) = (has_ref refs (ref_key ref) ≡ false) × UniqueRefs refs

-- The targets of kind ControlPlane with a name include one with this key.
unfoldable pub names_target : List PropagateTarget → String → Bool
names_target [] k = false
names_target (t ∷ ts) k =
    t.kind == propagate_target_kind_control_plane
      && (not (t.name == "") && target_key t.namespace t.name == k)
    || names_target ts k

has_ref-append :
    (refs : List TargetRef) (x : TargetRef) (k : String)
    → has_ref (refs ++ (x ∷ [])) k ≡ (has_ref refs k || ref_key x == k)
unfolding has_ref
has_ref-append [] x k = ground arith
has_ref-append (ref ∷ refs) x k = ground (arith, has_ref-append refs x k)

UniqueRefs-append :
    (refs : List TargetRef) (x : TargetRef)
    → UniqueRefs refs
    → has_ref refs (ref_key x) ≡ false
    → UniqueRefs (refs ++ (x ∷ []))
unfolding has_ref
UniqueRefs-append [] x u h = (refl, tt)
UniqueRefs-append (ref ∷ refs) x (fresh, u) h = (
  has_ref-append refs x (ref_key ref)
      ∙ ground (arith, eq_iff (ref_key x) (ref_key ref), eq_iff (ref_key ref) (ref_key x)),
  UniqueRefs-append refs x u (ground arith),
)

-- `seen` has the keys of `refs`, which are distinct.
record Coherent (s : Names) : Type 0 where
  agree : (k : String) → contains s.seen k ≡ has_ref s.refs k
  unique : UniqueRefs s.refs

add-Coherent : (namespace name : String) (s : Names) → Coherent s → Coherent (add namespace name s)
unfolding add contains
add-Coherent namespace name s c = elim (Bool-cases (contains s.seen (target_key namespace name))) [
  | inl there ↦ rw there c
  | inr new ↦
      let x : TargetRef = record { namespace = namespace; name = name } in
      rw new (record {
        agree = λ k. ground (arith, c.agree k, has_ref-append s.refs x k);
        unique = UniqueRefs-append s.refs x c.unique (sym (c.agree (ref_key x)) ∙ new);
      })
]

-- Every reference of the first is still in the second.
abbrev Extends : Names → Names → Type 0
Extends s s' = (k : String) → has_ref s.refs k ≡ true → has_ref s'.refs k ≡ true

add-Extends : (namespace name : String) (s : Names) → Extends s (add namespace name s)
unfolding add
add-Extends namespace name s k h = elim (Bool-cases (contains s.seen (target_key namespace name))) [
  | inl there ↦ rw there h
  | inr new ↦ rw (new, has_ref-append, h) refl
]

add_has :
    (namespace name : String) (s : Names)
    → Coherent s
    → has_ref (add namespace name s).refs (target_key namespace name) ≡ true
unfolding add
add_has namespace name s c = elim (Bool-cases (contains s.seen (target_key namespace name))) [
  | inl there ↦ rw there (sym (c.agree (target_key namespace name)) ∙ there)
  | inr new ↦ rw (new, has_ref-append) (ground (arith, eq_refl (target_key namespace name)))
]

add_all-Coherent :
    (namespace : String) (cps : List ControlPlane) (s : Names)
    → Coherent s
    → Coherent (add_all namespace cps s)
unfolding add_all
add_all-Coherent namespace [] s c = c
add_all-Coherent namespace (cp ∷ cps) s c =
    add_all-Coherent namespace cps _ (add-Coherent namespace cp.meta.name s c)

add_all-Extends :
    (namespace : String) (cps : List ControlPlane) (s : Names) → Extends s (add_all namespace cps s)
unfolding add_all
add_all-Extends namespace [] s k h = h
add_all-Extends namespace (cp ∷ cps) s k h =
    add_all-Extends namespace cps _ k (add-Extends namespace cp.meta.name s k h)

module _ {W : Type 0} (control_planes : Client W ControlPlane) where
  abbrev Expanded : List PropagateTarget → Names → Names → Type 0
  Expanded ts s s' =
      Coherent s'
      × Extends s s'
      × ((k : String) → names_target ts k ≡ true → has_ref s'.refs k ≡ true)

  expand-Expanded :
      (ts : List PropagateTarget) (s s' : Names) (w : W)
      → Coherent s
      → (expand control_planes ts s w).0 ≡ ok s'
      → Expanded ts s s'
  unfolding expand names_target
  expand-Expanded [] s s' w c h =
      let e : s ≡ s' = ok-injective h in
      subst (Expanded [] s) e (c, (λ k p. p), (λ k p. absurd (false≢true p)))
  expand-Expanded (t ∷ ts) s s' w c h =
      elim (Bool-cases (t.kind == propagate_target_kind_control_plane)) [
        | inr other ↦
            let (c', ext, all) = expand-Expanded ts s s' w c (rw other at h) in
            (c', ext, (λ k p. all k (rw other at p)))
        | inl kind ↦ elim (Bool-cases (t.name == "")) [
          | inr named ↦
              let next : Names = add t.namespace t.name s in
              let (c', ext, all) =
                expand-Expanded ts next s' w (add-Coherent t.namespace t.name s c)
                  (rw (kind, named) at h) in
              (
                c',
                (λ k p. ext k (add-Extends t.namespace t.name s k p)),
                (λ k p. elim (Bool-cases (target_key t.namespace t.name == k)) [
                  | inl own ↦ ext k (
                      subst (λ j. has_ref next.refs j ≡ true) ((eq_iff _ _).0 own)
                        (add_has t.namespace t.name s c))
                  | inr rest ↦ all k (rw (kind, named, rest) at p)
                ]),
              )
          | inl blank ↦ elim (Result-cases (control_planes.list t.namespace t.match_labels w).0) [
            | inr (e, p) ↦ absurd (err≢ok (rw (kind, blank, p) at h))
            | inl (items, p) ↦
                let (c', ext, all) =
                  expand-Expanded ts (add_all t.namespace items s) s' _
                    (add_all-Coherent t.namespace items s c) (rw (kind, blank, p) at h) in
                (
                  c',
                  (λ k q. ext k (add_all-Extends t.namespace items s k q)),
                  (λ k q. all k (rw (kind, blank) at q)),
                )
          ]
        ]
      ]

  start-Coherent : Coherent (record { seen = []; refs = [] })
  unfolding contains has_ref
  start-Coherent = record { agree = λ k. refl; unique = tt }

  -- The references that resolveNames returns have distinct keys.
  pub resolve_names-UniqueRefs :
      (gr : GitRepository) (refs : List TargetRef) (w : W)
      → (resolve_names control_planes gr w).0 ≡ ok refs
      → UniqueRefs refs
  unfolding resolve_names
  resolve_names-UniqueRefs gr refs w h =
      let (s, e, r) =
        try-eq-ok (expand control_planes gr.spec.propagate_to_control_planes _) (λ x. x) _ w h in
      subst UniqueRefs (ok-injective r)
        (expand-Expanded gr.spec.propagate_to_control_planes _ s w start-Coherent e).0.unique

  -- Every target of kind ControlPlane that has a name is among the references that resolveNames
  -- returns.
  pub resolve_names_complete :
      (gr : GitRepository) (refs : List TargetRef) (k : String) (w : W)
      → (resolve_names control_planes gr w).0 ≡ ok refs
      → names_target gr.spec.propagate_to_control_planes k ≡ true
      → has_ref refs k ≡ true
  unfolding resolve_names
  resolve_names_complete gr refs k w h p =
      let (s, e, r) =
        try-eq-ok (expand control_planes gr.spec.propagate_to_control_planes _) (λ x. x) _ w h in
      subst (λ x. has_ref x k ≡ true) (ok-injective r)
        ((expand-Expanded gr.spec.propagate_to_control_planes _ s w start-Coherent e).2 k p)
