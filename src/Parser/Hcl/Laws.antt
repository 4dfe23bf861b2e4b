-- ===== src/Parser/Hcl/Laws.antt =====
-- What holds of every result of a parse function, and of every result without an error, step by
-- step. A panic has no result.
use Prim.Native.String.{String}
use kdef.Base.Dict.{lookup}
use kdef.Base.Lists.{All}
use kdef.Base.Text.{Text, text, ◌==◌}
use kdef.Base.{
  ℕ, zero, suc, List, [], ◌∷◌, ◌++◌, Bool, true, false, Option, none, some, inl, inr, Bool-cases,
  Option-cases,
}
use kdef.Parser.Hcl.{
  Hcl, Parsed, panic, parsed, Diagnostic, has_errors, Schema, Block, Content, after, pure, ◌>>=◌,
  expect, label, keep_valid, on_block, steps, each_block, switch, attr_with, required_with,
  on_value, with_content, report,
}

-- `P` of the value, if there is one.
abbrev pub Holds : {A : Type 0} → (A → Type 0) → Parsed A → Type 0
Holds P panic = Unit
Holds P (parsed a ds) = P a

abbrev pub Preserves : {A : Type 0} → (A → Type 0) → (A → Parsed A) → Type 0
Preserves P f = (a : _) → P a → Holds P (f a)

pub Holds-any : {A : Type 0} (m : Parsed A) → Holds (λ a. Unit) m
Holds-any panic = tt
Holds-any (parsed a ds) = tt

pub Holds-both :
    {A : Type 0} (P Q : A → Type 0) (m : Parsed A)
    → Holds P m
    → Holds Q m
    → Holds (λ a. P a × Q a) m
Holds-both P Q panic p q = tt
Holds-both P Q (parsed a ds) p q = (p, q)

module _ {A : Type 0} (P : A → Type 0) where
  pub Holds-after : (ds : List Diagnostic) (m : Parsed A) → Holds P m → Holds P (after ds m)
  Holds-after ds panic p = tt
  Holds-after ds (parsed a es) p = p

pub Holds-bind :
    {A B : Type 0} (P : A → Type 0) (Q : B → Type 0) (m : Parsed A) (f : A → Parsed B)
    → Holds P m
    → ((a : A) → P a → Holds Q (f a))
    → Holds Q (m >>= f)
Holds-bind P Q panic f p q = tt
Holds-bind P Q (parsed a ds) f p q = Holds-after Q ds (f a) (q a p)

module _ {A : Type 0} (P : A → Type 0) where
  pub Holds-report : (b : Bool) (d : Diagnostic) → Preserves P (report b d)
  Holds-report true d a p = p
  Holds-report false d a p = p

  pub Holds-expect :
      {B : Type 0} (o : Option B) (k : B → Parsed A)
      → ((b : B) → Holds P (k b))
      → Holds P (expect o k)
  Holds-expect none k p = tt
  Holds-expect (some b) k p = p b

  pub Holds-label :
      (i : ℕ) (ls : List Text) (k : Text → Parsed A)
      → ((l : Text) → Holds P (k l))
      → Holds P (label i ls k)
  Holds-label i [] k p = tt
  Holds-label zero (l ∷ ls) k p = p l
  Holds-label (suc i) (l ∷ ls) k p = Holds-label i ls k p

  pub Holds-steps : (fs : List (A → Parsed A)) → All (Preserves P) fs → Preserves P (steps fs)
  Holds-steps [] qs a p = p
  Holds-steps (f ∷ fs) (q, qs) a p = Holds-bind P P (f a) (steps fs) (q a p) (Holds-steps fs qs)

  -- What the last step establishes.
  pub Holds-last :
      (fs : List (A → Parsed A)) (f : A → Parsed A)
      → ((a : A) → Holds P (f a))
      → (a : A) → Holds P (steps (fs ++ f ∷ []) a)
  Holds-last [] f q a = Holds-bind P P (f a) (λ b. pure b) (q a) (λ b p. p)
  Holds-last (g ∷ fs) f q a =
      Holds-bind (λ b. Unit) P (g a) (steps (fs ++ f ∷ [])) (Holds-any (g a))
        (λ b t. Holds-last fs f q b)

  pub Holds-each_block :
      {C : Type 0} (step : Block C → A → Parsed A)
      → ((b : Block C) → Preserves P (step b))
      → (bs : List (Block C)) → Preserves P (each_block step bs)
  unfolding each_block
  Holds-each_block step q [] a p = p
  Holds-each_block step q (b ∷ bs) a p =
      Holds-bind P P (step b a) (each_block step bs) (q b a p) (Holds-each_block step q bs)

  Holds-keep_valid :
      {B : Type 0} (Q : B → Type 0) (set : B → A → A) (a : A) (m : Parsed B)
      → ((x : B) → Q x → P (set x a))
      → P a
      → Holds Q m
      → Holds P (keep_valid set a m)
  unfolding keep_valid
  Holds-keep_valid Q set a panic s p q = tt
  Holds-keep_valid Q set a (parsed x ds) s p q = elim (Bool-cases (has_errors ds)) [
    | inl e ↦ rw e p
    | inr e ↦ rw e (s x q)
  ]

  pub Holds-on_block :
      {B C : Type 0} (Q : B → Type 0) (parse : Block C → Parsed B) (set : B → A → A)
      → ((b : Block C) → Holds Q (parse b))
      → ((x : B) (a : A) → Q x → P a → P (set x a))
      → (b : Block C) → Preserves P (on_block parse set b)
  unfolding on_block
  Holds-on_block Q parse set q s b a p =
      Holds-keep_valid Q set a (parse b) (λ x r. s x a r p) p (q b)

  -- A block whose result leaves what is claimed alone.
  pub Holds-on_any :
      {B C : Type 0} (parse : Block C → Parsed B) (set : B → A → A)
      → ((x : B) (a : A) → P a → P (set x a))
      → (b : Block C) → Preserves P (on_block parse set b)
  Holds-on_any parse set s =
      Holds-on_block (λ x. Unit) parse set (λ b. Holds-any (parse b)) (λ x a t p. s x a p)

  pub Holds-switch :
      {C : Type 0} (cases : List (String × (Block C → A → Parsed A)))
      → All (λ (name, step). (b : Block C) → Preserves P (step b)) cases
      → (b : Block C) → Preserves P (switch cases b)
  Holds-switch [] qs b a p = p
  Holds-switch ((name, step) ∷ cases) (q, qs) b a p = elim (Bool-cases (text name == b.type)) [
    | inl e ↦ rw e (q b a p)
    | inr e ↦ rw e (Holds-switch cases qs b a p)
  ]

module _ (h : Hcl) (ctx : h.Context) {A : Type 0} (P : A → Type 0) where
  open h use {Body, Expr, Value}

  Holds-on_value :
      (e : Expr) (k : Value → A → Parsed A)
      → ((v : Value) → Preserves P (k v))
      → Preserves P (on_value h ctx e k)
  unfolding on_value
  Holds-on_value e k q a p = elim (Bool-cases (has_errors (h.value ctx e).1)) [
    | inl r ↦ rw r p
    | inr r ↦
        rw r (Holds-after P (h.value ctx e).1 (k (h.value ctx e).0 a) (q (h.value ctx e).0 a p))
  ]

  pub Holds-attr_with :
      (c : Content Body Expr) (name : String) (k : Value → A → Parsed A)
      → ((v : Value) → Preserves P (k v))
      → Preserves P (attr_with h ctx c name k)
  unfolding attr_with
  Holds-attr_with c name k q a p = elim (Option-cases (lookup (text name) c.attributes)) [
    | inl r ↦ rw (r, Holds) p
    | inr (e, r) ↦ rw (r, Holds) (Holds-on_value e k q a p)
  ]

  pub Holds-required_with :
      (c : Content Body Expr) (name : String) (k : Value → A → Parsed A)
      → ((v : Value) → Preserves P (k v))
      → Preserves P (required_with h ctx c name k)
  unfolding required_with
  Holds-required_with c name k q a p = elim (Option-cases (lookup (text name) c.attributes)) [
    | inl r ↦ rw (r, Holds) tt
    | inr (e, r) ↦ rw (r, Holds) (Holds-on_value e k q a p)
  ]

  pub Holds-with_content :
      (schema : Schema) (body : Body) (k : Content Body Expr → A → Parsed A)
      → (a : A) → P a
      → ((c : Content Body Expr) → Holds P (k c a))
      → Holds P (with_content h ctx schema body a k)
  unfolding with_content
  Holds-with_content schema body k a p q =
      elim (Bool-cases (has_errors (h.content schema body).1)) [
        | inl r ↦ rw r p
        | inr r ↦ rw r (
            Holds-after P (h.content schema body).1 (k (h.content schema body).0 a)
              (q (h.content schema body).0))
      ]
