-- ===== src/Parser/References/Laws.antt =====
-- The warnings are those of the references that are not defined, each once.
use kdef.Base.{
  List, [], ◌∷◌, ◌++◌, true, false, if◌then◌else◌, ◌≡◌, refl, sym, ap, ◌∙◌, arith, all, Bool-cases,
  inl, inr,
}
use kdef.Base.Dict.{lookup, insert, lookup-insert, contains, null, contains-set_of}
use kdef.Base.Lists.{
  mem, distinct, distinct_from_nil, nub_from, nub_from-distinct_from, mem-nub_from,
}
use kdef.Base.Text.{Text}
use kdef.Parser.References.Closed.{names_of, is_resolved, is_closed, resolved_closed}
use kdef.Parser.References.{
  Target, config_map, secret, pvc, Ref, Warned, defined_of, table, check_ref, check_refs,
  references_of, validate_references,
}
use kdef.Types.{KdefConfig}
use mathlib.Core.List.{append-nil, append_assoc}

-- The messages of the references that are not resolved.
unfoldable pub unresolved : KdefConfig → List Ref → List Text
unresolved c [] = []
unresolved c (r ∷ rs) = if is_resolved c r then unresolved c rs else r.message ∷ unresolved c rs

contains-table :
    (c : KdefConfig) (t : Target) (k : Text)
    → contains k (table t (defined_of c)) ≡ mem k (names_of t c)
unfolding defined_of
contains-table c config_map k = contains-set_of k (names_of config_map c)
contains-table c secret k = contains-set_of k (names_of secret c)
contains-table c pvc k = contains-set_of k (names_of pvc c)

-- `w` has given just the warnings of `seen`.
abbrev Gave : Warned → List Text → Type 0
Gave w seen = (k : Text) → contains k w.seen ≡ mem k seen

module _ (c : KdefConfig) (r : Ref) (w : Warned) (seen : List Text) (g : Gave w seen) where
  check_ref_resolved : is_resolved c r ≡ true → check_ref (defined_of c) r w ≡ w
  unfolding check_ref is_resolved
  check_ref_resolved h = ground (arith, contains-table c r.target r.name)

  check_ref_again :
      is_resolved c r ≡ false → mem r.message seen ≡ true → check_ref (defined_of c) r w ≡ w
  unfolding check_ref is_resolved
  check_ref_again h again = ground (arith, contains-table c r.target r.name, g r.message)

  check_ref_new :
      is_resolved c r ≡ false
      → mem r.message seen ≡ false
      → check_ref (defined_of c) r w
        ≡ record w { seen = insert r.message true w.seen; warnings = w.warnings ++ r.message ∷ [] }
  unfolding check_ref is_resolved
  check_ref_new h new = ground (arith, contains-table c r.target r.name, g r.message)

check_refs_lem :
    (c : KdefConfig) (rs : List Ref) (w : Warned) (seen : List Text)
    → Gave w seen
    → (check_refs (defined_of c) rs w).warnings ≡ w.warnings ++ nub_from seen (unresolved c rs)
unfolding check_refs unresolved nub_from
check_refs_lem c [] w seen g = sym (append-nil w.warnings)
check_refs_lem c (r ∷ rs) w seen g =
    let after = λ (x : Warned). (check_refs (defined_of c) rs x).warnings in
    elim (Bool-cases (is_resolved c r)) [
      | inl resolved ↦
          ap after (check_ref_resolved c r w seen g resolved)
          ∙ check_refs_lem c rs w seen g
          ∙ rw resolved
      | inr dangling ↦ elim (Bool-cases (mem r.message seen)) [
        | inl again ↦
            ap after (check_ref_again c r w seen g dangling again)
            ∙ check_refs_lem c rs w seen g
            ∙ ground (arith, dangling, again)
        | inr new ↦
            ap after (check_ref_new c r w seen g dangling new)
            ∙ check_refs_lem c rs
                (record {
                  seen = insert r.message true w.seen;
                  warnings = w.warnings ++ r.message ∷ [];
                })
                (r.message ∷ seen)
                (λ k. unfold mem in ground (arith, g k, lookup-insert r.message k true w.seen))
            ∙ append_assoc w.warnings (r.message ∷ []) _
            ∙ ground (arith, dangling, new)
      ]
    ]

null-nub_from : (xs : List Text) → null (nub_from [] xs) ≡ null xs
unfolding nub_from mem
null-nub_from [] = refl
null-nub_from (x ∷ xs) = refl

null-unresolved : (c : KdefConfig) (rs : List Ref) → null (unresolved c rs) ≡ all (is_resolved c) rs
unfolding unresolved all
null-unresolved c [] = refl
null-unresolved c (r ∷ rs) = ground (arith, null-unresolved c rs)

-- validateReferences keeps the earlier warnings and adds further ones behind them: these are distinct
-- and are messages of its tests that fail, all of them, and there is none exactly when each
-- configmap, secret and claim that an environment variable, an env_from or a volume's configmap,
-- secret or pvc names is defined, in every deployment, daemonset, statefulset and cron job, its
-- containers and its init containers. The secret of a CSI volume is not among these.
pub validate_references_lem :
    (c : KdefConfig)
    → (added : List Text) × ((validate_references c).warnings ≡ c.warnings ++ added)
      × (distinct added ≡ true)
      × ((m : Text) → mem m added ≡ mem m (unresolved c (references_of c)))
      × (null added ≡ is_closed c)
unfolding validate_references
validate_references_lem c =
    let messages = unresolved c (references_of c) in
    (
      nub_from [] messages,
      check_refs_lem c (references_of c) (record { seen = []; warnings = c.warnings }) []
          (λ k. unfold lookup mem in refl),
      sym (distinct_from_nil (nub_from [] messages)) ∙ nub_from-distinct_from [] messages,
      λ m. mem-nub_from m [] messages ∙ unfold mem in refl,
      null-nub_from messages ∙ null-unresolved c (references_of c) ∙ resolved_closed c,
    )
