-- ===== src/Flux/Recording.antt =====
-- The calls that the reconciler makes of the Kubernetes API, with their answers: any client, made to
-- keep a list of them beside its own state.
use kdef.Base.{List, [], ◌∷◌, ◌++◌, map, none, Option}
use kdef.Base.Text.{Text}
use kdef.Flux.Apply.{Client}
use kdef.Flux.Prune.{failure}
use kdef.Flux.Reconcile.{StatusClient}
use kdef.Flux.Release.{KdefRelease}
use kdef.Flux.Resources.{Object}

-- A patch and a delete with the error of the answer, and a patch of the status with the release that
-- it starts from and the one that it asks for. That an object to delete is not there is no error.
pub data Call (C : Type 0) : Type 0 where
  patch_call : Object → Option Text → Call C
  delete_call : Object → Option Text → Call C
  status_call : KdefRelease C → KdefRelease C → Call C

abbrev pub Recorded : Type 0 → Type 0 → Type 0
Recorded W C = List (Call C) × W

module _ {W C : Type 0} where
  unfoldable pub recording_client : Client W → Client (Recorded W C)
  recording_client client = record {
    encode = client.encode;
    patch = λ o encoded s.
        let (w, error) = client.patch o encoded s.1 in ((s.0 ++ patch_call o error ∷ [], w), error);
    delete = λ o s.
        let (w, error) = client.delete o s.1 in
        ((s.0 ++ delete_call o (failure error) ∷ [], w), error);
  }

  unfoldable pub recording_statuses : StatusClient W C → StatusClient (Recorded W C) C
  recording_statuses statuses = record {
    patch_status = λ base r s.
        let (w, response) = statuses.patch_status base r s.1 in
        ((s.0 ++ status_call base r ∷ [], w), response);
    set_status_condition = statuses.set_status_condition;
    remove_status_condition = statuses.remove_status_condition;
  }

module _ {C : Type 0} where
  -- Accepted patches of the objects, in their order.
  abbrev pub patches : List Object → List (Call C)
  patches os = map (λ o. patch_call o none) os

  -- Deletes of the objects, in their order, that deleted or did not find them.
  abbrev pub deletes : List Object → List (Call C)
  deletes os = map (λ o. delete_call o none) os
