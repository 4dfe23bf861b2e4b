-- ===== src/Parser/Hcl/Attributes.antt =====
-- What holds of the result of the steps that read one attribute.
use Prim.Native.String.{String}
use kdef.Base.Dict.{Dict}
use kdef.Base.Text.{Text}
use kdef.Base.{List, [], Bool, inl, inr, Bool-cases}
use kdef.Parser.Hcl.{
  Hcl, Content, pure, expect, attr_with, required_with, as_text, as_bool, as_list, if_list, if_map,
  texts, text_map,
}
use kdef.Parser.Hcl.Laws.{Preserves, Holds-expect, Holds-attr_with, Holds-required_with}

module _ (h : Hcl) (ctx : h.Context) {A : Type 0} (P : A → Type 0) where
  open h use {Body, Expr, Value}

  module _ (c : Content Body Expr) (name : String) where
    pub Holds-text :
        (set : Text → A → A)
        → ((s : Text) (a : A) → P a → P (set s a))
        → Preserves P (attr_with h ctx c name (as_text h ctx set))
    Holds-text set q =
        Holds-attr_with h ctx P c name (as_text h ctx set)
          (λ v a p. Holds-expect P (h.as_string v) (λ s. pure (set s a)) (λ s. q s a p))

    pub Holds-required_text :
        (set : Text → A → A)
        → ((s : Text) (a : A) → P a → P (set s a))
        → Preserves P (required_with h ctx c name (as_text h ctx set))
    Holds-required_text set q =
        Holds-required_with h ctx P c name (as_text h ctx set)
          (λ v a p. Holds-expect P (h.as_string v) (λ s. pure (set s a)) (λ s. q s a p))

    pub Holds-bool :
        (set : Bool → A → A)
        → ((b : Bool) (a : A) → P a → P (set b a))
        → Preserves P (attr_with h ctx c name (as_bool h ctx set))
    Holds-bool set q =
        Holds-attr_with h ctx P c name (as_bool h ctx set)
          (λ v a p. Holds-expect P (h.is_true v) (λ s. pure (set s a)) (λ s. q s a p))

    pub Holds-list :
        (set : List Text → A → A)
        → ((ss : List Text) (a : A) → P a → P (set ss a))
        → Preserves P (attr_with h ctx c name (as_list h ctx set))
    Holds-list set q = Holds-attr_with h ctx P c name (as_list h ctx set) (λ v a p.
        Holds-expect P (h.elements v) (λ kvs. expect (texts h ctx kvs) (λ ss. pure (set ss a)))
          (λ kvs. Holds-expect P (texts h ctx kvs) (λ ss. pure (set ss a)) (λ ss. q ss a p)))

    pub Holds-map :
        (set : Dict Text → A → A)
        → ((m : Dict Text) (a : A) → P a → P (set m a))
        → Preserves P (attr_with h ctx c name (if_map h ctx set))
    Holds-map set q = Holds-attr_with h ctx P c name (if_map h ctx set) (λ v a p.
        elim (Bool-cases (h.can_iterate v)) [
          | inl e ↦ rw e (
              Holds-expect P (h.elements v)
                (λ kvs. expect (text_map h ctx [] kvs) (λ m. pure (set m a)))
                (λ kvs.
                  Holds-expect P (text_map h ctx [] kvs) (λ m. pure (set m a)) (λ m. q m a p)))
          | inr e ↦ rw e p
        ])

    pub Holds-if_list :
        (set : List Text → A → A)
        → ((ss : List Text) (a : A) → P a → P (set ss a))
        → Preserves P (attr_with h ctx c name (if_list h ctx set))
    Holds-if_list set q = Holds-attr_with h ctx P c name (if_list h ctx set) (λ v a p.
        elim (Bool-cases (h.can_iterate v)) [
          | inl e ↦ rw e (
              Holds-expect P (h.elements v)
                (λ kvs. expect (texts h ctx kvs) (λ ss. pure (set ss a)))
                (λ kvs. Holds-expect P (texts h ctx kvs) (λ ss. pure (set ss a)) (λ ss. q ss a p)))
          | inr e ↦ rw e p
        ])
