-- ===== src/Flux/Apply/Laws.antt =====
-- What applyObjects asks of the API server and records.
use kdef.Base.{
  List, [], ◌∷◌, ◌++◌, map, Option, none, some, ok, err, ◌≡◌, refl, sym, ap, ◌∙◌, arith,
  Option-cases, Result-cases, inl, inr,
}
use kdef.Base.Text.{Text}
use kdef.Flux.Apply.{
  Client, Applied, sort_objects, apply_object, apply_from, apply_objects, encode_error, apply_error,
}
use kdef.Flux.Apply.Sorting.{IsOrdered, sort_objects-IsOrdered, sort_objects-perm}
use kdef.Flux.Recording.{Call, Recorded, patch_call, recording_client, patches}
use kdef.Flux.Release.{ResourceRef}
use kdef.Flux.Resources.{Object, ref_of}
use mathlib.Core.List.{append_assoc, append-nil, Perm}

module _ {W : Type 0} (C : Type 0) (group_of : Text → Text) (client : Client W) where
  -- Why a loop ends with `rest` to do: it is done, an object is not encoded, or a patch is refused;
  -- with the last call, if it was refused, and the error.
  pub data IsEnd (rest : List Object) (last : List (Call C)) (error : Option Text) : Type 0 where
    complete : rest ≡ [] → last ≡ [] → error ≡ none → IsEnd rest last error
    unencoded :
        (o : Object) (later : List Object) (e : Text)
        → rest ≡ o ∷ later
        → client.encode o ≡ err e
        → last ≡ []
        → error ≡ some (encode_error o e)
        → IsEnd rest last error
    patch_refused :
        (o : Object) (later : List Object) (e : Text)
        → rest ≡ o ∷ later
        → last ≡ patch_call o (some e) ∷ []
        → error ≡ some (apply_error o e)
        → IsEnd rest last error

  -- The loop made an accepted patch of each object of `applied`, in this order, before the last call,
  -- and these objects are its inventory.
  pub record IsApplied (objects : List Object) (inventory : List ResourceRef)
      (before : List (Call C)) (result : Applied (Recorded W C)) : Type 0 where
    pub applied : List Object
    pub rest : List Object
    pub last : List (Call C)
    pub parts : objects ≡ applied ++ rest
    pub recorded : result.inventory ≡ inventory ++ map (ref_of group_of) applied
    pub calls : result.cluster.0 ≡ before ++ (patches applied ++ last)
    pub end : IsEnd rest last result.error

  abbrev watched : Client (Recorded W C)
  watched = recording_client client

  module _ (o : Object) (log : List (Call C)) (w : W) where
    -- The state after the patch of the object.
    abbrev patched : Option Text → Recorded W C
    patched answer = (
      log ++ patch_call o answer ∷ [],
      elim (client.encode o) [ err e ↦ w | ok encoded ↦ (client.patch o encoded w).0 ],
    )

    apply_object_unencoded :
        {e : Text}
        → client.encode o ≡ err e
        → apply_object group_of watched o (log, w) ≡ ((log, w), some (encode_error o e))
    unfolding apply_object recording_client
    apply_object_unencoded h = ground arith

    apply_object_refused :
        {e encoded : Text}
        → client.encode o ≡ ok encoded
        → (client.patch o encoded w).1 ≡ some e
        → apply_object group_of watched o (log, w) ≡ (patched (some e), some (apply_error o e))
    unfolding apply_object recording_client
    apply_object_refused h k = ground arith

    apply_object_accepted :
        {encoded : Text}
        → client.encode o ≡ ok encoded
        → (client.patch o encoded w).1 ≡ none
        → apply_object group_of watched o (log, w) ≡ (patched none, none)
    unfolding apply_object recording_client
    apply_object_accepted h k = ground arith

  module _ (o : Object) (objects : List Object) (inventory : List ResourceRef)
      (s s' : Recorded W C) where
    apply_from_step :
        apply_object group_of watched o s ≡ (s', none)
        → apply_from group_of watched (o ∷ objects) inventory s
          ≡ apply_from group_of watched objects (inventory ++ ref_of group_of o ∷ []) s'
    unfolding apply_from
    apply_from_step done =
        rw (ap (λ x. x.1) done, apply_from)
          (ap (λ x. apply_from group_of watched objects (inventory ++ ref_of group_of o ∷ []) x.0)
            done)

    apply_from_end :
        {e : Text}
        → apply_object group_of watched o s ≡ (s', some e)
        → apply_from group_of watched (o ∷ objects) inventory s
          ≡ record { cluster = s'; inventory = inventory; error = some e }
    unfolding apply_from
    apply_from_end {e} failed =
        let ended : Recorded W C × Option Text → Applied (Recorded W C) =
          λ x. record { cluster = x.0; inventory = inventory; error = some e } in
        rw (ap (λ x. x.1) failed, apply_from) (ap ended failed)

  apply_from-IsApplied :
      (objects : List Object) (inventory : List ResourceRef) (s : Recorded W C)
      → IsApplied objects inventory s.0 (apply_from group_of watched objects inventory s)
  unfolding apply_from
  apply_from-IsApplied [] inventory s = record {
    applied = [];
    rest = [];
    last = [];
    parts = refl;
    recorded = sym (append-nil inventory);
    calls = sym (append-nil s.0);
    end = complete refl refl refl;
  }
  apply_from-IsApplied (o ∷ objects) inventory (log, w) = elim (Result-cases (client.encode o)) [
    | inl (e, bad) ↦
        rw
          (apply_from_end o objects inventory (log, w) (log, w)
            (apply_object_unencoded o log w bad))
          (record {
            applied = [];
            rest = o ∷ objects;
            last = [];
            parts = refl;
            recorded = sym (append-nil inventory);
            calls = sym (append-nil log);
            end = unencoded o objects e refl bad refl refl;
          })
    | inr (encoded, good) ↦ elim (Option-cases (client.patch o encoded w).1) [
      | inr (e, denied) ↦
          rw
            (apply_from_end o objects inventory (log, w) (patched o log w (some e))
              (apply_object_refused o log w good denied))
            (record {
              applied = [];
              rest = o ∷ objects;
              last = patch_call o (some e) ∷ [];
              parts = refl;
              recorded = sym (append-nil inventory);
              calls = refl;
              end = patch_refused o objects e refl refl refl;
            })
      | inl accepted ↦
          let after = patched o log w none in
          let ih = apply_from-IsApplied objects (inventory ++ ref_of group_of o ∷ []) after in
          rw
            (apply_from_step o objects inventory (log, w) after
              (apply_object_accepted o log w good accepted))
            (record {
              applied = o ∷ ih.applied;
              rest = ih.rest;
              last = ih.last;
              parts = ap (λ l. o ∷ l) ih.parts;
              recorded =
                  ih.recorded
                  ∙ append_assoc inventory (ref_of group_of o ∷ [])
                      (map (ref_of group_of) ih.applied);
              calls =
                  ih.calls
                  ∙ append_assoc log (patch_call o none ∷ []) (patches ih.applied ++ ih.last);
              end = ih.end;
            })
    ]
  ]

  pub apply_objects-IsApplied :
      (objects : List Object) (s : Recorded W C)
      → IsApplied
          (sort_objects objects)
          []
          s.0
          (apply_objects group_of (recording_client client) objects s)
  unfolding apply_objects
  apply_objects-IsApplied objects s = apply_from-IsApplied (sort_objects objects) [] s

  -- applyObjects makes one patch for each object, ordered by the ranks of their kinds, up to the
  -- first object that is not encoded or whose patch is answered with an error; its error is that of
  -- this object, its inventory is that of the objects whose patch was accepted, and it makes no other
  -- call.
  pub apply_objects_lem :
      (objects : List Object) (s : Recorded W C)
      → (sorted : List Object) × Perm sorted objects
        × IsOrdered sorted
        × IsApplied sorted [] s.0 (apply_objects group_of (recording_client client) objects s)
  apply_objects_lem objects s = (
    sort_objects objects,
    sort_objects-perm objects,
    sort_objects-IsOrdered objects,
    apply_objects-IsApplied objects s,
  )

  module _ (objects : List Object) (s : Recorded W C)
      (no_error : (apply_objects group_of (recording_client client) objects s).error ≡ none) where
    -- Without an error every object is applied.
    pub apply_objects_all :
        ((apply_objects group_of (recording_client client) objects s).inventory
          ≡ map (ref_of group_of) (sort_objects objects))
        × ((apply_objects group_of (recording_client client) objects s).cluster.0
            ≡ s.0 ++ patches (sort_objects objects))
    apply_objects_all =
        let got = apply_objects-IsApplied objects s in
        elim got.end [
          | complete none_left no_call none_given ↦
              let all_of : sort_objects objects ≡ got.applied =
                got.parts ∙ ap (λ l. got.applied ++ l) none_left ∙ append-nil got.applied in
              (
                got.recorded ∙ ap (map (ref_of group_of)) (sym all_of),
                got.calls
                    ∙ ap (λ l. s.0 ++ (patches got.applied ++ l)) no_call
                    ∙ ap (λ l. s.0 ++ l) (append-nil (patches got.applied))
                    ∙ ap (λ l. s.0 ++ patches l) (sym all_of),
              )
          | unencoded o later e left bad no_call given ↦ cc
          | patch_refused o later e left call given ↦ cc
        ]
