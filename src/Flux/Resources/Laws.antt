-- ===== src/Flux/Resources/Laws.antt =====
-- The inventory entry of an object leads back to the object, unless one of its names has an
-- underscore.
use kdef.Base.{ℕ, [], ◌∷◌, ◌++◌, Bool, true, not, ◌&&◌, nat_eq, some, ok, ◌≡◌, arith, all}
use kdef.Base.Text.{Text}
use kdef.Flux.Resources.{Object, cut, underscore, ref_of, object_from_resource_ref}
use kdef.Types.{end}
use mathlib.Core.List.{append_assoc}

-- The text does not have the character.
unfoldable pub lacks : ℕ → Text → Bool
lacks c s = all (λ d. not (nat_eq d c)) s

pub cut-append :
    (sep : ℕ) (before after : Text)
    → lacks sep before ≡ true
    → cut sep (before ++ sep ∷ after) ≡ some (before, after)
unfolding cut lacks all
cut-append sep [] after h = ground arith
cut-append sep (c ∷ before) after h = ground (arith, cut-append sep before after)

-- No underscore in the namespace, the name and the group.
unfoldable pub is_well_named : (Text → Text) → Object → Bool
is_well_named group_of obj =
    lacks underscore obj.namespace
    && (lacks underscore obj.name && lacks underscore (group_of obj.api_version))

-- The inventory entry of an object without underscores in namespace, name and group leads back to an
-- object of the same API version, kind, namespace and name.
pub object_from_resource_ref-ref_of :
    (group_of : Text → Text) (obj : Object)
    → is_well_named group_of obj ≡ true
    → object_from_resource_ref (ref_of group_of obj) ≡ ok (record obj { content = end })
unfolding object_from_resource_ref ref_of is_well_named
object_from_resource_ref-ref_of group_of obj h =
    let after_name = group_of obj.api_version ++ underscore ∷ obj.kind in
    ground (
      arith,
      cut-append underscore obj.namespace (obj.name ++ underscore ∷ after_name),
      cut-append underscore obj.name after_name,
      cut-append underscore (group_of obj.api_version) obj.kind,
    )

-- An object with an underscore in its name, as an RBAC role may have, is not found again: the entry
-- leads to an object of which the name ends there and the kind starts with the group.
pub object_from_resource_ref-underscore :
    (group_of : Text → Text) (obj : Object) (before after : Text)
    → obj.name ≡ before ++ underscore ∷ after
    → lacks underscore obj.namespace ≡ true
    → lacks underscore before ≡ true
    → lacks underscore after ≡ true
    → object_from_resource_ref (ref_of group_of obj)
      ≡ ok (record obj {
        name = before;
        kind = group_of obj.api_version ++ underscore ∷ obj.kind;
        content = end;
      })
unfolding object_from_resource_ref ref_of
object_from_resource_ref-underscore group_of obj before after e hn hb ha =
    let after_name = group_of obj.api_version ++ underscore ∷ obj.kind in
    let parts =
      cut-append underscore obj.namespace
        (before ++ underscore ∷ (after ++ underscore ∷ after_name)) hn in
    ground (
      arith,
      append_assoc before (underscore ∷ after) (underscore ∷ after_name),
      cut-append underscore before (after ++ underscore ∷ after_name) hb,
      cut-append underscore after after_name ha,
    )
