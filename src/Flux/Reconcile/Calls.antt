-- ===== src/Flux/Reconcile/Calls.antt =====
-- What holds of every patch of the status that a reconcile asks for, where it holds of that of a
-- failure.
use kdef.Base.{
  ℕ, ◌+◌, List, [], ◌∷◌, ◌++◌, Bool, none, ◌≡◌, ap, ◌∙◌, ◌⊎◌, inl, inr, Option-cases, Result-cases,
  Bool-cases,
}
use kdef.Base.Dict.{Dict, contains}
use kdef.Base.Lists.{All, All-append}
use kdef.Base.Text.{Text, text}
use kdef.Flux.Apply.{Client, apply_objects}
use kdef.Flux.Apply.Laws.{complete, unencoded, patch_refused, apply_objects-IsApplied}
use kdef.Flux.Prune.{failure, prune_from, prune_objects}
use kdef.Flux.Reconcile.{
  StatusClient, fail_with_error, failed_release, prune_stale, succeeded_release, apply_rendered,
  length,
}
use kdef.Flux.Reconcile.Laws.{patched-calls, apply_rendered_failed, apply_rendered_done}
use kdef.Flux.Recording.{
  Call, Recorded, patch_call, delete_call, status_call, recording_client, recording_statuses,
  patches,
}
use kdef.Flux.Release.{KdefRelease, ResourceRef}
use kdef.Flux.Resources.{Object, object_from_resource_ref}
use kdef.Flux.Source.{Artifact, Platform}

-- The relation holds of the two releases of each patch of the status.
abbrev pub Asks : {C : Type 0} → (KdefRelease C → KdefRelease C → Type 0) → Call C → Type 0
Asks R (patch_call o e) = Unit
Asks R (delete_call o e) = Unit
Asks R (status_call base r) = R base r

patches-Asks :
    {C : Type 0} (R : KdefRelease C → KdefRelease C → Type 0) (os : List Object)
    → All (Asks R) (patches os)
patches-Asks R [] = tt
patches-Asks R (o ∷ os) = (tt, patches-Asks R os)

module _ {W C : Type 0} (R : KdefRelease C → KdefRelease C → Type 0) (client : Client W) where
  abbrev watched : Client (Recorded W C)
  watched = recording_client client

  apply_objects-Asks :
      (group_of : Text → Text) (objects : List Object) (s : Recorded W C)
      → All (Asks R) s.0
      → All (Asks R) (apply_objects group_of watched objects s).cluster.0
  apply_objects-Asks group_of objects s h =
      let got = apply_objects-IsApplied C group_of client objects s in
      let ended : All (Asks R) got.last = elim got.end [
        | complete a b c ↦ rw b tt
        | unencoded o later e a bad b c ↦ rw b tt
        | patch_refused o later e a b c ↦ rw b (tt, tt)
      ] in
      rw got.calls (
        All-append (Asks R) s.0 (patches got.applied ++ got.last) h
          (All-append (Asks R) (patches got.applied) got.last (patches-Asks R got.applied) ended))

  prune_from-Asks :
      (new_ids : Dict Bool) (refs : List ResourceRef) (count : ℕ) (s : Recorded W C)
      → All (Asks R) s.0
      → All (Asks R) (prune_from watched new_ids refs count s).cluster.0
  unfolding prune_from recording_client
  prune_from-Asks new_ids [] count s h = h
  prune_from-Asks new_ids (ref ∷ refs) count (log, w) h =
      elim (Bool-cases (contains ref.id new_ids)) [
        | inl kept ↦ rw (kept, prune_from) (prune_from-Asks new_ids refs count (log, w) h)
        | inr stale ↦ elim (Result-cases (object_from_resource_ref ref)) [
          | inl (e, bad) ↦
              rw (stale, bad, prune_from) (prune_from-Asks new_ids refs count (log, w) h)
          | inr (o, good) ↦
              let answer = failure (client.delete o w).1 in
              let logged : All (Asks R) (log ++ delete_call o answer ∷ []) =
                All-append (Asks R) log (delete_call o answer ∷ []) h (tt, tt) in
              elim (Option-cases (failure (client.delete o w).1)) [
                | inl done ↦
                    rw (stale, good, done, prune_from)
                      (prune_from-Asks new_ids refs (count + 1)
                        (log ++ delete_call o answer ∷ [], (client.delete o w).0) logged)
                | inr (e, denied) ↦ rw (stale, good, denied, prune_from) logged
              ]
        ]
      ]

module _ {O W C : Type 0} (platform : Platform O) (client : Client W) (statuses : StatusClient W C)
    (group_of : Text → Text) where
  abbrev seen : Client (Recorded W C)
  seen = recording_client client

  abbrev seen_statuses : StatusClient (Recorded W C) C
  seen_statuses = recording_statuses statuses

  pub fail_with_error-calls :
      (reason message : Text) (r : KdefRelease C) (s : Recorded W C)
      → (fail_with_error platform seen seen_statuses group_of reason message r s).cluster.0
        ≡ s.0
          ++ status_call r (failed_release platform seen seen_statuses group_of reason message r)
            ∷ []
  unfolding fail_with_error
  fail_with_error-calls reason message r s = patched-calls platform client statuses group_of r _ s

  module _ (R : KdefRelease C → KdefRelease C → Type 0)
      (fails : (reason message : Text) (r : KdefRelease C)
        → R r (
            failed_release platform
              (recording_client client)
              (recording_statuses statuses)
              group_of
              reason
              message
              r)) where
    pub fail_with_error-Asks :
        (reason message : Text) (r : KdefRelease C) (s : Recorded W C)
        → All (Asks R) s.0
        → All
            (Asks R)
            (fail_with_error platform seen seen_statuses group_of reason message r s).cluster.0
    fail_with_error-Asks reason message r s h =
        rw (fail_with_error-calls reason message r s)
          (All-append (Asks R) s.0 _ h (fails reason message r, tt))

    prune_stale-Asks :
        (r : KdefRelease C) (entries : List ResourceRef) (s : Recorded W C)
        → All (Asks R) s.0
        → All (Asks R) (prune_stale platform seen seen_statuses group_of r entries s).0
    unfolding prune_stale prune_objects
    prune_stale-Asks r entries s h = elim (Option-cases r.status.inventory) [
      | inl none_given ↦ rw (none_given, prune_stale) h
      | inr (old, given) ↦ elim (Bool-cases r.spec.prune) [
        | inl pruning ↦
            rw (given, pruning, prune_stale) (prune_from-Asks R client _ old.entries 0 s h)
        | inr off ↦ rw (given, off, prune_stale) h
      ]
    ]

    -- The run from the rendered objects on, in the state after the first patch.
    pub apply_rendered-cases :
        (r : KdefRelease C) (artifact : Artifact) (objects : List Object) (s : Recorded W C)
        → All (Asks R) s.0
        → All
            (Asks R)
            (apply_rendered platform seen seen_statuses group_of r artifact objects s).cluster.0
          ⊎ (((apply_objects group_of seen objects s).error ≡ none)
              × (first : List (Call C)) × ((apply_rendered platform seen seen_statuses group_of r
                    artifact objects s).cluster.0
                  ≡ first
                    ++ status_call r (
                        succeeded_release platform seen seen_statuses group_of artifact
                          (length objects)
                          (apply_objects group_of seen objects s).inventory
                          r)
                      ∷ [])
              × All (Asks R) first)
    apply_rendered-cases r artifact objects s h =
        elim (Option-cases (apply_objects group_of seen objects s).error) [
          | inr (e, failed) ↦ inl (
              rw
                (apply_rendered_failed platform seen seen_statuses group_of r artifact objects s
                  failed)
                (fail_with_error-Asks (text "ApplyFailed") e r _
                  (apply_objects-Asks R client group_of objects s h)))
          | inl done ↦ inr (
            done,
            _,
            ap (λ x. x.cluster.0)
                  (apply_rendered_done platform seen seen_statuses group_of r artifact objects s
                    done)
                ∙ patched-calls platform client statuses group_of r _ _,
            prune_stale-Asks r _ (apply_objects group_of seen objects s).cluster
                (apply_objects-Asks R client group_of objects s h),
          )
        ]
