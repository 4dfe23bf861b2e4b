-- ===== src/Parser/Blocks/Pod/Laws.antt =====
-- What holds of the results of the shared steps of a pod.
use Prim.Native.String.{String}
use kdef.Base.Dict.{Dict}
use kdef.Base.Int.{ℤ, pos, negsuc, ltb_ℤ}
use kdef.Base.Int32.{int32, half, IsInt32, int32-same}
use kdef.Base.Lists.{mem}
use kdef.Base.Text.{Text, text, is_empty}
use kdef.Base.{
  ◌<◌, [], ◌∷◌, Bool, false, not, ◌||◌, ◌≡◌, inl, inr, Bool-cases, Option, none, some, arith,
}
use kdef.Parser.Blocks.Pod.{
  limit_value, parse_history_limit, node_selector_attr, parse_host_pod_attrs,
  validate_image_pull_policy, pull_policy_attr,
}
use kdef.Parser.Hcl.Attributes.{Holds-text, Holds-bool}
use kdef.Parser.Hcl.Laws.{Holds, Preserves, Holds-after, Holds-expect, Holds-steps, Holds-attr_with}
use kdef.Parser.Hcl.{Hcl, Content, attr_with, as_bool, as_text, expect, pure, text_map, has_errors}

-- From 0 to 2 ^ 31 - 1, if there is one.
abbrev pub IsLimit : Option ℤ → Type 0
IsLimit none = Unit
IsLimit (some n) = (ltb_ℤ n (pos 0) ≡ false) × IsInt32 n

-- What the guards leave is not changed by the conversion.
int32-IsLimit :
    (n : ℤ) (exact : Bool)
    → not exact || (ltb_ℤ n (pos 0) || not (ltb_ℤ n (pos half))) ≡ false
    → IsLimit (some (int32 n))
unfolding IsInt32
int32-IsLimit (pos n) exact e =
    let small : n < half = ground (arith, e) in
    rw (int32-same (pos n) small) (ground (arith, e), small)
int32-IsLimit (negsuc n) exact e = ground (arith, e)

module _ {A : Type 0} (P : A → Type 0) where
  pub Holds-validate : (s : Text) → Preserves P (validate_image_pull_policy s)
  unfolding validate_image_pull_policy
  Holds-validate s a p =
      elim (Bool-cases
        (is_empty s || mem s (text "Always" ∷ text "IfNotPresent" ∷ text "Never" ∷ []))) [
          | inl e ↦ rw e p
          | inr e ↦ rw e p
        ]

  module _ (h : Hcl) (ctx : h.Context) where
    open h use {Body, Expr}

    Holds-limit_value :
        (name : String) (v : h.Value) (set : Option ℤ → A → A) (a : A)
        → ((n : Option ℤ) → IsLimit n → P (set n a))
        → Holds P (limit_value h ctx name v set a)
    unfolding limit_value
    Holds-limit_value name v set a q = elim (Bool-cases (not (h.is_number v))) [
      | inl r ↦ rw r (q none tt)
      | inr r ↦ rw r (
          Holds-expect P (h.as_int64 v) _ (λ n.
            elim (Bool-cases
              (not (h.is_exact v) || (ltb_ℤ n (pos 0) || not (ltb_ℤ n (pos half))))) [
                | inl e ↦ rw e (q none tt)
                | inr e ↦ rw e (q (some (int32 n)) (int32-IsLimit n (h.is_exact v) e))
              ]))
    ]

    pub Holds-parse_history_limit :
        (name : String) (e : Expr) (set : Option ℤ → A → A) (a : A)
        → ((n : Option ℤ) → IsLimit n → P (set n a))
        → Holds P (parse_history_limit h ctx name e set a)
    unfolding parse_history_limit
    Holds-parse_history_limit name e set a q = elim (Bool-cases (has_errors (h.value ctx e).1)) [
      | inl r ↦ rw r (q none tt)
      | inr r ↦ rw r (
          Holds-after P (h.value ctx e).1 (limit_value h ctx name (h.value ctx e).0 set a)
            (Holds-limit_value name (h.value ctx e).0 set a q))
    ]

    pub Holds-node_selector_attr :
        (c : Content Body Expr) (set : Dict Text → A → A)
        → ((m : Dict Text) (a : A) → P a → P (set m a))
        → Preserves P (node_selector_attr h ctx c set)
    unfolding node_selector_attr
    Holds-node_selector_attr c set q = Holds-attr_with h ctx P c "node_selector" _ (λ v a p.
        elim (Bool-cases (h.can_iterate v)) [
          | inl e ↦ rw e (
              Holds-expect P (h.elements v)
                (λ kvs. expect (text_map h ctx [] kvs) (λ m. pure (set m a)))
                (λ kvs.
                  Holds-expect P (text_map h ctx [] kvs) (λ m. pure (set m a)) (λ m. q m a p)))
          | inr e ↦ rw e (q [] a p)
        ])

    pub Holds-parse_host_pod_attrs :
        (c : Content Body Expr) (network pid ipc : Bool → A → A) (dns : Text → A → A)
        → ((b : Bool) (a : A) → P a → P (network b a))
        → ((b : Bool) (a : A) → P a → P (pid b a))
        → ((b : Bool) (a : A) → P a → P (ipc b a))
        → ((s : Text) (a : A) → P a → P (dns s a))
        → Preserves P (parse_host_pod_attrs h ctx c network pid ipc dns)
    unfolding parse_host_pod_attrs
    Holds-parse_host_pod_attrs c network pid ipc dns n p i d =
        Holds-steps P
          (attr_with h ctx c "host_network" (as_bool h ctx network)
            ∷ attr_with h ctx c "host_pid" (as_bool h ctx pid)
            ∷ attr_with h ctx c "host_ipc" (as_bool h ctx ipc)
            ∷ attr_with h ctx c "dns_policy" (as_text h ctx dns)
            ∷ [])
          (
            Holds-bool h ctx P c "host_network" network n,
            (
              Holds-bool h ctx P c "host_pid" pid p,
              (
                Holds-bool h ctx P c "host_ipc" ipc i,
                (Holds-text h ctx P c "dns_policy" dns d, tt),
              ),
            ),
          )

    pub Holds-pull_policy_attr :
        (c : Content Body Expr) (set : Text → A → A)
        → ((s : Text) (a : A) → P a → P (set s a))
        → Preserves P (pull_policy_attr h ctx c set)
    unfolding pull_policy_attr
    Holds-pull_policy_attr c set q =
        Holds-attr_with h ctx P c "image_pull_policy" _
          (λ v a p. Holds-expect P (h.as_string v) _ (λ s. Holds-validate s (set s a) (q s a p)))
