-- ===== src/Parser/Hcl.antt =====
-- How internal/parser reads a block of HCL: what it calls of hcl and go-cty, as an interface, and the
-- steps that its parse functions repeat for each attribute and each nested block.
pub mod Laws
pub mod Attributes
pub mod Valid
use Prim.Native.String.{String}
use kdef.Base.{
  ℕ, zero, suc, List, [], ◌∷◌, ◌++◌, map, Bool, true, false, ◌||◌, if◌then◌else◌, Option, none,
  some,
}
use kdef.Base.Dict.{Dict, lookup, insert}
use kdef.Base.Int.{ℤ}
use kdef.Base.Int32.{int32}
use kdef.Base.Text.{Text, text, ◌==◌}

-- A diagnostic without its place in the file.
pub record Diagnostic : Type 0 where
  pub is_error : Bool
  pub summary : Text
  pub detail : Text

abbrev pub failure : Text → Text → Diagnostic
failure summary detail = record { is_error = true; summary = summary; detail = detail }

-- diags.HasErrors()
unfoldable pub has_errors : List Diagnostic → Bool
has_errors [] = false
has_errors (d ∷ ds) = d.is_error || has_errors ds

-- The attributes with those that are required, and the blocks with the number of their labels.
pub record Schema : Type 0 where
  pub attributes : List (Text × Bool)
  pub blocks : List (Text × ℕ)

pub record Block (Body : Type 0) : Type 0 where
  pub type : Text
  pub labels : List Text
  pub body : Body

pub record Content (Body Expr : Type 0) : Type 0 where
  pub attributes : Dict Expr
  pub blocks : List (Block Body)

-- `none` of a method of a value is the panic of go-cty where the value has another type, is null or
-- is unknown. `as_int64` is AsBigFloat followed by Int64, `is_exact` that no digit was lost there, and
-- `number_text` what AsBigFloat prints. `depth` is how deep a value nests, a measure of the model
-- alone. `remain` is what PartialContent leaves of a body.
pub record Hcl : Type 1 where
  pub Body : Type 0
  pub Expr : Type 0
  pub Value : Type 0
  pub Context : Type 0
  pub content : Schema → Body → Content Body Expr × List Diagnostic
  pub partial_content : Schema → Body → Content Body Expr × List Diagnostic
  pub remain : Schema → Body → Body
  pub just_attributes : Body → Dict Expr × List Diagnostic
  pub value : Context → Expr → Value × List Diagnostic
  pub as_string : Value → Option Text
  pub as_int64 : Value → Option ℤ
  pub is_true : Value → Option Bool
  pub can_iterate : Value → Bool
  pub elements : Value → Option (List (Value × Value))
  pub depth : Value → ℕ
  pub is_string : Value → Bool
  pub is_number : Value → Bool
  pub is_object : Value → Bool
  pub is_map : Value → Bool
  pub has_attribute : Text → Value → Bool
  pub get_attr : Text → Value → Option Value
  pub go_string : Value → Text
  pub is_exact : Value → Bool
  pub number_text : Value → Text

-- A panic, or a value with the diagnostics.
pub data Parsed (A : Type 0) : Type 0 where
  panic : Parsed A
  parsed : A → List Diagnostic → Parsed A

module _ {A : Type 0} where
  -- diags = append(ds, diags...)
  abbrev pub after : List Diagnostic → Parsed A → Parsed A
  after ds panic = panic
  after ds (parsed a es) = parsed a (ds ++ es)

  abbrev pub pure : A → Parsed A
  pure a = parsed a []

  -- A diagnostic where the test holds.
  abbrev pub report : Bool → Diagnostic → A → Parsed A
  report true d a = parsed a (d ∷ [])
  report false d a = parsed a []

infixl 5 ◌>>=◌
abbrev pub ◌>>=◌ : {A B : Type 0} → Parsed A → (A → Parsed B) → Parsed B
panic >>= f = panic
parsed a ds >>= f = after ds (f a)

-- A call that panics, or its result.
abbrev pub expect : {A B : Type 0} → Option B → (B → Parsed A) → Parsed A
expect none k = panic
expect (some b) k = k b

-- block.Labels[i]
abbrev pub label : {A : Type 0} → ℕ → List Text → (Text → Parsed A) → Parsed A
label i [] k = panic
label zero (l ∷ ls) k = k l
label (suc i) (l ∷ ls) k = label i ls k

-- Without an error among the diagnostics the result is used.
unfoldable pub keep_valid : {A B : Type 0} → (B → A → A) → A → Parsed B → Parsed A
keep_valid set a panic = panic
keep_valid set a (parsed b ds) = parsed (if has_errors ds then a else set b a) ds

-- The common loop body: x, moreDiags := parse(b).
unfoldable pub on_block :
    {A B C : Type 0} → (Block C → Parsed B) → (B → A → A) → Block C → A → Parsed A
unfolding keep_valid
on_block parse set b a = keep_valid set a (parse b)

-- Statements that write the same variable, in their order.
abbrev pub steps : {A : Type 0} → List (A → Parsed A) → A → Parsed A
steps [] a = pure a
steps (f ∷ fs) a = f a >>= steps fs

unfoldable pub each_block :
    {A C : Type 0} → (Block C → A → Parsed A) → List (Block C) → A → Parsed A
each_block step [] a = pure a
each_block step (b ∷ bs) a = step b a >>= each_block step bs

-- switch b.Type
abbrev pub switch :
    {A C : Type 0} → List (String × (Block C → A → Parsed A)) → Block C → A → Parsed A
switch [] b a = pure a
switch ((name, step) ∷ cases) b a = if text name == b.type then step b a else switch cases b a

abbrev pub optional : List String → List (Text × Bool)
optional names = map (λ n. (text n, false)) names

abbrev pub required : List String → List (Text × Bool)
required names = map (λ n. (text n, true)) names

-- Blocks with so many labels each.
abbrev pub labelled : ℕ → List String → List (Text × ℕ)
labelled k names = map (λ n. (text n, k)) names

module _ (h : Hcl) (ctx : h.Context) where
  open h use {Body, Expr, Value}

  -- The texts of the elements, in order.
  unfoldable pub texts : List (Value × Value) → Option (List Text)
  texts [] = some []
  texts ((k, v) ∷ kvs) = elim (h.as_string v) [
    | none ↦ none
    | some s ↦ elim (texts kvs) [ none ↦ none | some ss ↦ some (s ∷ ss) ]
  ]

  -- m[k.AsString()] = v.AsString(), from the map so far.
  unfoldable pub text_map : Dict Text → List (Value × Value) → Option (Dict Text)
  text_map m [] = some m
  text_map m ((k, v) ∷ kvs) = elim (h.as_string k) [
    | none ↦ none
    | some key ↦ elim (h.as_string v) [ none ↦ none | some s ↦ text_map (insert key s m) kvs ]
  ]

  module _ {A : Type 0} where
    -- val, moreDiags := attr.Expr.Value(ctx): without an error the value is used.
    unfoldable pub on_value : Expr → (Value → A → Parsed A) → A → Parsed A
    on_value e use_value a =
        let (v, ds) = h.value ctx e in
        if has_errors ds then parsed a ds else after ds (use_value v a)

    -- if attr, ok := content.Attributes[name]; ok
    unfoldable pub attr_with : Content Body Expr → String → (Value → A → Parsed A) → A → Parsed A
    unfolding on_value
    attr_with c name use_value a = elim (lookup (text name) c.attributes) [
      | none ↦ pure a
      | some e ↦ on_value e use_value a
    ]

    -- A nil attribute is dereferenced where a required one is not there.
    unfoldable pub required_with :
        Content Body Expr → String → (Value → A → Parsed A) → A → Parsed A
    unfolding on_value
    required_with c name use_value a = elim (lookup (text name) c.attributes) [
      | none ↦ panic
      | some e ↦ on_value e use_value a
    ]

    abbrev pub as_text : (Text → A → A) → Value → A → Parsed A
    as_text set v a = expect (h.as_string v) (λ s. pure (set s a))

    abbrev pub as_int64 : (ℤ → A → A) → Value → A → Parsed A
    as_int64 set v a = expect (h.as_int64 v) (λ n. pure (set n a))

    -- n, _ := val.AsBigFloat().Int64(), then int32(n)
    abbrev pub as_int32 : (ℤ → A → A) → Value → A → Parsed A
    as_int32 set v a = expect (h.as_int64 v) (λ n. pure (set (int32 n) a))

    abbrev pub as_bool : (Bool → A → A) → Value → A → Parsed A
    as_bool set v a = expect (h.is_true v) (λ b. pure (set b a))

    -- The elements of a list, which is to be one.
    abbrev pub as_list : (List Text → A → A) → Value → A → Parsed A
    as_list set v a = expect (h.elements v) (λ kvs. expect (texts kvs) (λ ss. pure (set ss a)))

    -- && val.CanIterateElements()
    abbrev pub if_list : (List Text → A → A) → Value → A → Parsed A
    if_list set v a = if h.can_iterate v then as_list set v a else pure a

    abbrev pub if_map : (Dict Text → A → A) → Value → A → Parsed A
    if_map set v a =
        if h.can_iterate v
        then expect (h.elements v) (λ kvs. expect (text_map [] kvs) (λ m. pure (set m a)))
        else pure a

    -- content, diags := body.Content(schema), which ends the parse if it has errors.
    unfoldable pub with_content : Schema → Body → A → (Content Body Expr → A → Parsed A) → Parsed A
    with_content schema body a k =
        let (c, ds) = h.content schema body in
        if has_errors ds then parsed a ds else after ds (k c a)

  -- The pointer that is nil without the attribute.
  abbrev pub opt_attr :
      {A : Type 0} → Content Body Expr → String → (Option ℤ → A → A) → A → Parsed A
  opt_attr c name set = attr_with c name (as_int32 (λ n. set (some n)))
