-- ===== src/Parser/Duplicates/Laws.antt =====
-- The check succeeds exactly when all the identities are distinct.
use kdef.Base.{
  List, [], ◌∷◌, ◌++◌, ◌≡◌, refl, sym, ap, ◌∙◌, Bool, true, false, not, is_ok, if◌then◌else◌, arith,
  Bool-cases, inl, inr, Bool-cases, inl, inr,
}
use kdef.Base.Dict.{lookup, lookup-insert, contains, null}
use kdef.Base.Lists.{mem, distinct, distinct_from, distinct_from_nil}
use kdef.Base.Text.{Text, is_empty}
use kdef.Parser.Duplicates.{
  DuplicateCheck, ResourceId, new_duplicate_check, record_id, add_resource, add_all, add,
  check_result, resources_of,
}
use kdef.Types.{KdefConfig}

-- The identities that a resource claims: its own, and its Service's.
unfoldable pub claims : List ResourceId → List Text
claims [] = []
claims (r ∷ rs) = r.id ∷ (if is_empty r.service then claims rs else r.service ∷ claims rs)

-- The check of one config after another, each with its origin.
unfoldable pub check_configs : DuplicateCheck → List (KdefConfig × Text) → DuplicateCheck
check_configs d [] = d
check_configs d ((c, origin) ∷ rest) = check_configs (add d c origin) rest

unfoldable pub all_claims : List (KdefConfig × Text) → List Text
all_claims [] = []
all_claims ((c, origin) ∷ rest) = claims (resources_of c) ++ all_claims rest

-- `d` has recorded just the identities of `seen`.
abbrev Records : DuplicateCheck → List Text → Type 0
Records d seen = (k : Text) → contains k d.origins ≡ mem k seen

null-append : (es : List Text) (e : Text) → null (es ++ e ∷ []) ≡ false
null-append [] e = refl
null-append (x ∷ es) e = refl

record_id-fresh :
    (d : DuplicateCheck) (seen : List Text) (id origin : Text)
    → Records d seen
    → (record_id d id origin).0 ≡ not (mem id seen)
unfolding record_id
record_id-fresh d seen id origin h = ground (arith, h id)

record_id-errs :
    (d : DuplicateCheck) (seen : List Text) (id origin : Text)
    → Records d seen
    → null (record_id d id origin).1.errs ≡ (if mem id seen then false else null d.errs)
unfolding record_id
record_id-errs d seen id origin h = ground (arith, h id, null-append d.errs)

record_id-Records :
    (d : DuplicateCheck) (seen : List Text) (id origin : Text)
    → Records d seen
    → mem id seen ≡ false
    → Records (record_id d id origin).1 (id ∷ seen)
unfolding record_id mem
record_id-Records d seen id origin h fresh k =
    ground (arith, h id, h k, lookup-insert id k origin d.origins)

record_id-keeps :
    (d : DuplicateCheck) (id origin : Text)
    → null d.errs ≡ false
    → null (record_id d id origin).1.errs ≡ false
unfolding record_id
record_id-keeps d id origin h = ground (arith, null-append d.errs)

add_resource-keeps :
    (d : DuplicateCheck) (r : ResourceId) (origin : Text)
    → null d.errs ≡ false
    → null (add_resource d r origin).errs ≡ false
unfolding add_resource
add_resource-keeps d r origin h = ground (
  arith,
  record_id-keeps d r.id origin h,
  record_id-keeps (record_id d r.id origin).1 r.service origin,
)

-- Resources, each with its origin, one after another.
add_each : DuplicateCheck → List (ResourceId × Text) → DuplicateCheck
add_each d [] = d
add_each d ((r, origin) ∷ rest) = add_each (add_resource d r origin) rest

each_claims : List (ResourceId × Text) → List Text
unfolding claims
each_claims [] = []
each_claims ((r, origin) ∷ rest) =
    r.id ∷ (if is_empty r.service then each_claims rest else r.service ∷ each_claims rest)

add_each-keeps :
    (d : DuplicateCheck) (rs : List (ResourceId × Text))
    → null d.errs ≡ false
    → null (add_each d rs).errs ≡ false
unfolding add_each
add_each-keeps d [] h = h
add_each-keeps d ((r, origin) ∷ rs) h =
    add_each-keeps (add_resource d r origin) rs (add_resource-keeps d r origin h)

-- A resource with a taken identity leaves an error.
add_resource_taken :
    (d : DuplicateCheck) (seen : List Text) (r : ResourceId) (origin : Text)
    → Records d seen
    → mem r.id seen ≡ true
    → null (add_resource d r origin).errs ≡ false
unfolding add_resource
add_resource_taken d seen r origin h taken =
    ground (arith, record_id-fresh d seen r.id origin h, record_id-errs d seen r.id origin h)

-- A resource with a free identity and no Service, or with a free one, or with a taken one.
add_resource_plain :
    (d : DuplicateCheck) (seen : List Text) (r : ResourceId) (origin : Text)
    → Records d seen
    → mem r.id seen ≡ false
    → is_empty r.service ≡ true
    → add_resource d r origin ≡ (record_id d r.id origin).1
unfolding add_resource
add_resource_plain d seen r origin h free none_there =
    ground (arith, record_id-fresh d seen r.id origin h)

add_resource_service :
    (d : DuplicateCheck) (seen : List Text) (r : ResourceId) (origin : Text)
    → Records d seen
    → mem r.id seen ≡ false
    → is_empty r.service ≡ false
    → add_resource d r origin ≡ (record_id (record_id d r.id origin).1 r.service origin).1
unfolding add_resource
add_resource_service d seen r origin h free there =
    ground (arith, record_id-fresh d seen r.id origin h)

-- Where the check has recorded `seen`, it goes on to find an error exactly when a further claim
-- stands in `seen` or stands twice.
add_each-errs :
    (d : DuplicateCheck) (seen : List Text) (rs : List (ResourceId × Text))
    → Records d seen
    → null (add_each d rs).errs
      ≡ (if null d.errs then distinct_from seen (each_claims rs) else false)
unfolding add_each each_claims distinct_from
add_each-errs d seen [] h = ground arith
add_each-errs d seen ((r, origin) ∷ rs) h = elim (Bool-cases (mem r.id seen)) [
  | inl taken ↦ ground (
    arith,
    taken,
    add_each-keeps (add_resource d r origin) rs (add_resource_taken d seen r origin h taken),
  )
  | inr free ↦
      let d1 = (record_id d r.id origin).1 in
      let h1 = record_id-Records d seen r.id origin h free in
      let e1 = record_id-errs d seen r.id origin h in
      let errs_after : DuplicateCheck → Bool = λ x. null (add_each x rs).errs in
      elim (Bool-cases (is_empty r.service)) [
        | inl alone ↦
            ap errs_after (add_resource_plain d seen r origin h free alone)
            ∙ add_each-errs d1 (r.id ∷ seen) rs h1
            ∙ ground (arith, e1, free, alone)
        | inr service ↦
            ap errs_after (add_resource_service d seen r origin h free service)
            ∙ elim (Bool-cases (mem r.service (r.id ∷ seen))) [
              | inl again ↦ ground (
                arith,
                e1,
                free,
                service,
                again,
                add_each-keeps (record_id d1 r.service origin).1 rs,
                record_id-errs d1 (r.id ∷ seen) r.service origin h1,
              )
              | inr fresh ↦
                  add_each-errs (record_id d1 r.service origin).1 (r.service ∷ r.id ∷ seen) rs
                    (record_id-Records d1 (r.id ∷ seen) r.service origin h1 fresh)
                  ∙ ground (
                    arith,
                    e1,
                    free,
                    service,
                    fresh,
                    record_id-errs d1 (r.id ∷ seen) r.service origin h1,
                  )
            ]
      ]
]

tagged : Text → List ResourceId → List (ResourceId × Text)
tagged origin [] = []
tagged origin (r ∷ rs) = (r, origin) ∷ tagged origin rs

each_claims-tagged :
    (origin : Text) (rs : List ResourceId) (rest : List (ResourceId × Text))
    → each_claims (tagged origin rs ++ rest) ≡ claims rs ++ each_claims rest
unfolding each_claims tagged claims
each_claims-tagged origin [] rest = refl
each_claims-tagged origin (r ∷ rs) rest = ground (arith, each_claims-tagged origin rs rest)

add_each-tagged :
    (d : DuplicateCheck) (origin : Text) (rs : List ResourceId) (rest : List (ResourceId × Text))
    → add_each d (tagged origin rs ++ rest) ≡ add_each (add_all d rs origin) rest
unfolding add_each tagged add_all
add_each-tagged d origin [] rest = refl
add_each-tagged d origin (r ∷ rs) rest = add_each-tagged (add_resource d r origin) origin rs rest

flat : List (KdefConfig × Text) → List (ResourceId × Text)
flat [] = []
flat ((c, origin) ∷ rest) = tagged origin (resources_of c) ++ flat rest

each_claims-flat : (cs : List (KdefConfig × Text)) → each_claims (flat cs) ≡ all_claims cs
unfolding flat all_claims
each_claims-flat [] = unfold each_claims in refl
each_claims-flat ((c, origin) ∷ rest) =
    each_claims-tagged origin (resources_of c) (flat rest)
    ∙ ap (λ l. claims (resources_of c) ++ l) (each_claims-flat rest)

add_each-flat :
    (d : DuplicateCheck) (cs : List (KdefConfig × Text)) → add_each d (flat cs) ≡ check_configs d cs
unfolding flat check_configs add
add_each-flat d [] = unfold add_each in refl
add_each-flat d ((c, origin) ∷ rest) =
    add_each-tagged d origin (resources_of c) (flat rest)
    ∙ add_each-flat (add_all d (resources_of c) origin) rest

check_result-null : (d : DuplicateCheck) → is_ok (check_result d) ≡ null d.errs
unfolding check_result
check_result-null d = ground arith

-- The check over a sequence of configs succeeds exactly when the claimed identities, those of the
-- generated Services included, are all distinct, within one config and across configs.
pub check_configs-distinct :
    (cs : List (KdefConfig × Text))
    → is_ok (check_result (check_configs new_duplicate_check cs)) ≡ distinct (all_claims cs)
check_configs-distinct cs =
    check_result-null (check_configs new_duplicate_check cs)
    ∙ ap (λ d. null d.errs) (sym (add_each-flat new_duplicate_check cs))
    ∙ add_each-errs new_duplicate_check [] (flat cs) (unfold lookup mem in λ k. refl)
    ∙ distinct_from_nil (each_claims (flat cs))
    ∙ ap distinct (each_claims-flat cs)
