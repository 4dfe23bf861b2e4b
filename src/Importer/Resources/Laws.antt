-- ===== src/Importer/Resources/Laws.antt =====
-- writeResources of internal/importer/mapper.go and parseResourceRange of internal/parser/app.go.
use kdef.Base.{
  ℕ, [], ◌∷◌, ◌++◌, Bool, true, false, not, ◌&&◌, nat_eq, all, ◌≡◌, refl, sym, ap, ap₂, ◌∙◌, Option,
  none, some, inl, inr, Bool-cases, arith,
}
use kdef.Base.Format.{is_space, trim_space}
use kdef.Base.Format.Numbers.{trim_left, trim_right}
use kdef.Base.Text.{Text, text, ◌==◌, eq_sound}
use kdef.Importer.Resources.{resource_value}
use kdef.Parser.Blocks.Environment.{parse_resource_range, split_range, range_of}

-- Neither a space nor a dot, as every character of a quantity that Kubernetes prints.
abbrev pub is_plain : ℕ → Bool
is_plain c = not (is_space c) && not (nat_eq c b'.')

plain_first :
    (c : ℕ) (s : Text)
    → all is_plain (c ∷ s) ≡ true
    → (is_space c ≡ false) × (nat_eq c b'.' ≡ false) × (all is_plain s ≡ true)
unfolding all
plain_first c s h = ground (arith, h)

trim_right-plain : (s : Text) → all is_plain s ≡ true → trim_right s ≡ s
unfolding trim_right
trim_right-plain [] h = refl
trim_right-plain (c ∷ s) h =
    let (sp, dot, rest) = plain_first c s h in rw (trim_right-plain s rest, sp) (ground (arith))

trim_left-plain : (s : Text) → all is_plain s ≡ true → trim_left s ≡ s
unfolding trim_left
trim_left-plain [] h = refl
trim_left-plain (c ∷ s) h = let (sp, dot, rest) = plain_first c s h in rw sp refl

trim_space-plain : (s : Text) → all is_plain s ≡ true → trim_space s ≡ s
unfolding trim_space
trim_space-plain s h = ap trim_left (trim_right-plain s h) ∙ trim_left-plain s h

split_range-plain : (s : Text) → all is_plain s ≡ true → split_range s ≡ none
unfolding split_range
split_range-plain [] h = refl
split_range-plain (c ∷ []) h = refl
split_range-plain (c ∷ d ∷ s) h =
    let (sp, dot, rest) = plain_first c (d ∷ s) h in rw (dot, split_range-plain (d ∷ s) rest) refl

split_range-dots :
    (s t : Text) → all is_plain s ≡ true → split_range (s ++ (text ".." ++ t)) ≡ some (s, t)
unfolding split_range
split_range-dots [] t h = refl
split_range-dots (c ∷ []) t h = let (sp, dot, rest) = plain_first c [] h in rw dot refl
split_range-dots (c ∷ d ∷ s) t h =
    let (sp, dot, rest) = plain_first c (d ∷ s) h in rw (dot, split_range-dots (d ∷ s) t rest) refl

trimmed : {r r' l l' : Text} → r ≡ r' → l ≡ l' → ◌≡◌ {A = Text × Text} (r, l) (r', l')
trimmed e f = ap₂ (λ r l. (r, l)) e f

range-plain : (s : Text) → all is_plain s ≡ true → parse_resource_range s ≡ (s, s)
unfolding parse_resource_range
range-plain s h = ap (range_of s) (split_range-plain s h)

range-dots :
    (s t : Text)
    → all is_plain s ≡ true
    → all is_plain t ≡ true
    → parse_resource_range (s ++ (text ".." ++ t)) ≡ (s, t)
unfolding parse_resource_range
range-dots s t h k =
    ap (range_of (s ++ (text ".." ++ t))) (split_range-dots s t h)
    ∙ trimmed (trim_space-plain s h) (trim_space-plain t k)

abbrev pub limit_or : Option Text → Text → Text
limit_or none request = request
limit_or (some limit) request = limit

-- For a request and a limit without dots and spaces, where there may be no limit: of the value
-- that the importer writes the parser makes the request and the limit, and, where there is no
-- limit, the request and the request as its limit.
pub parse_resource_range-resource_value :
    (request : Text) (limit : Option Text) (value : Text)
    → all is_plain request ≡ true
    → all is_plain (limit_or limit request) ≡ true
    → resource_value (some request) limit ≡ some value
    → parse_resource_range value ≡ (request, limit_or limit request)
unfolding parse_resource_range resource_value
parse_resource_range-resource_value request none value h k e =
    let same : request ≡ value = cc in rw (sym same) (range-plain request h)
parse_resource_range-resource_value request (some limit) value h k e =
    elim (Bool-cases (request == limit)) [
      | inl q ↦
          let same : request ≡ value = cc (q, e) in
          rw (sym same) (range-plain request h ∙ ap (λ l. (request, l)) (eq_sound request limit q))
      | inr q ↦
          let same : request ++ (text ".." ++ limit) ≡ value = cc (q, e) in
          rw (sym same) (range-dots request limit h k)
    ]
