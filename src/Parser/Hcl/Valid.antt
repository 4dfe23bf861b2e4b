-- ===== src/Parser/Hcl/Valid.antt =====
-- What holds of a result that comes without an error.
use kdef.Base.{
  ℕ, zero, suc, List, [], ◌∷◌, ◌++◌, Bool, true, false, ◌||◌, ◌≡◌, refl, inl, inr, Bool-cases,
  arith,
}
use kdef.Base.Text.{Text}
use kdef.Parser.Hcl.Laws.{Holds, Preserves}
use kdef.Parser.Hcl.{
  Hcl, Parsed, panic, parsed, Diagnostic, failure, has_errors, Schema, Content, after, ◌>>=◌, label,
  report, keep_valid, on_block, Block, steps, with_content,
}

-- `P` of the value, if there is one and no diagnostic is an error.
abbrev pub Valid : {A : Type 0} → (A → Type 0) → Parsed A → Type 0
Valid P panic = Unit
Valid P (parsed a ds) = has_errors ds ≡ false → P a

pub has_errors-append :
    (ds es : List Diagnostic) → has_errors (ds ++ es) ≡ (has_errors ds || has_errors es)
unfolding has_errors
has_errors-append [] es = refl
has_errors-append (d ∷ ds) es = ground (arith, has_errors-append ds es)

pub no_errors :
    (ds es : List Diagnostic)
    → has_errors (ds ++ es) ≡ false
    → (has_errors ds ≡ false) × (has_errors es ≡ false)
no_errors ds es e = ground (arith, has_errors-append ds es, e)

module _ {A : Type 0} (P : A → Type 0) where
  pub Valid-after : (ds : List Diagnostic) (m : Parsed A) → Valid P m → Valid P (after ds m)
  Valid-after ds panic p = tt
  Valid-after ds (parsed a es) p = λ e. let (l, r) = no_errors ds es e in p r

  pub Valid-bind :
      {B : Type 0} (m : Parsed B) (f : B → Parsed A) → ((b : B) → Valid P (f b)) → Valid P (m >>= f)
  Valid-bind panic f p = tt
  Valid-bind (parsed b ds) f p = Valid-after ds (f b) (p b)

  Valid-after_first :
      (ds : List Diagnostic) (m : Parsed A)
      → (has_errors ds ≡ false → Holds P m)
      → Valid P (after ds m)
  Valid-after_first ds panic p = tt
  Valid-after_first ds (parsed a es) p = λ e. let (l, r) = no_errors ds es e in p l

  -- What the first part establishes is carried over.
  pub Valid-then :
      {B : Type 0} (Q : B → Type 0) (m : Parsed B) (f : B → Parsed A)
      → Valid Q m
      → ((b : B) → Q b → Holds P (f b))
      → Valid P (m >>= f)
  Valid-then Q panic f p q = tt
  Valid-then Q (parsed b ds) f p q = Valid-after_first ds (f b) (λ e. q b (p e))

  pub Valid-last :
      (fs gs : List (A → Parsed A))
      → ((a : A) → Valid P (steps gs a))
      → (a : A) → Valid P (steps (fs ++ gs) a)
  Valid-last [] gs p a = p a
  Valid-last (f ∷ fs) gs p a = Valid-bind (f a) (steps (fs ++ gs)) (Valid-last fs gs p)

  pub Valid-label :
      (i : ℕ) (ls : List Text) (k : Text → Parsed A)
      → ((l : Text) → Valid P (k l))
      → Valid P (label i ls k)
  Valid-label i [] k p = tt
  Valid-label zero (l ∷ ls) k p = p l
  Valid-label (suc i) (l ∷ ls) k p = Valid-label i ls k p

  pub Valid-report :
      (b : Bool) (summary detail : Text) (a : A)
      → (b ≡ false → P a)
      → Valid P (report b (failure summary detail) a)
  unfolding has_errors
  Valid-report true summary detail a p = λ e. cc
  Valid-report false summary detail a p = λ e. p refl

module _ {A B : Type 0} (P : A → Type 0) (Q : B → Type 0) where
  Holds-keep_valid :
      (set : B → A → A) (a : A) (m : Parsed B)
      → ((x : B) → Q x → P (set x a))
      → P a
      → Valid Q m
      → Holds P (keep_valid set a m)
  unfolding keep_valid
  Holds-keep_valid set a panic s p q = tt
  Holds-keep_valid set a (parsed x ds) s p q = elim (Bool-cases (has_errors ds)) [
    | inl e ↦ rw e p
    | inr e ↦ rw e (s x (q e))
  ]

  -- Only a result without an error is used.
  pub Holds-on_block_sound :
      {C : Type 0} (parse : Block C → Parsed B) (set : B → A → A)
      → ((b : Block C) → Valid Q (parse b))
      → ((x : B) (a : A) → Q x → P a → P (set x a))
      → (b : Block C) → Preserves P (on_block parse set b)
  unfolding on_block
  Holds-on_block_sound parse set q s b a p =
      Holds-keep_valid set a (parse b) (λ x r. s x a r p) p (q b)

module _ (h : Hcl) (ctx : h.Context) {A : Type 0} (P : A → Type 0) where
  open h use {Body, Expr}

  pub Valid-with_content :
      (schema : Schema) (body : Body) (k : Content Body Expr → A → Parsed A)
      → (a : A) → ((c : Content Body Expr) → Valid P (k c a))
      → Valid P (with_content h ctx schema body a k)
  unfolding with_content
  Valid-with_content schema body k a q = elim (Bool-cases (has_errors (h.content schema body).1)) [
    | inl r ↦ rw r (λ e. cc)
    | inr r ↦ rw r (
        Valid-after P (h.content schema body).1 (k (h.content schema body).0 a)
          (q (h.content schema body).0))
  ]
