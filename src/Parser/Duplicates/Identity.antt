-- ===== src/Parser/Duplicates/Identity.antt =====
-- The identity of a resource tells its kind, namespace and name apart from every other's.
use mathlib.Core.List.{append-nil}
use kdef.Base.{[], ◌∷◌, ◌++◌, ◌≡◌, refl, sym, ap, ◌∙◌, Bool, false, nat_eq, ◌||◌, arith}
use kdef.Base.Format.{quote, quote-append_injective}
use kdef.Base.Text.{Text, text}
use kdef.Parser.Duplicates.{resource_identity}

abbrev has_space : Text → Bool
has_space [] = false
has_space (c ∷ s) = nat_eq c b' ' || has_space s

-- A word without a space ends at the first space.
split_at_space :
    (k l r s : Text)
    → has_space k ≡ false
    → has_space l ≡ false
    → k ++ (b' ' ∷ r) ≡ l ++ (b' ' ∷ s)
    → (k ≡ l) × (r ≡ s)
split_at_space [] [] r s hk hl e = ground arith
split_at_space [] (d ∷ l) r s hk hl e = ground arith
split_at_space (c ∷ k) [] r s hk hl e = ground arith
split_at_space (c ∷ k) (d ∷ l) r s hk hl e = ground (arith, split_at_space k l r s)

-- What stands behind the name.
tail : Text → Text
tail [] = []
tail (c ∷ ns) = text " in namespace " ++ quote (c ∷ ns)

identity-tail :
    (kind namespace name : Text)
    → resource_identity kind namespace name ≡ kind ++ (b' ' ∷ (quote name ++ tail namespace))
unfolding resource_identity tail
identity-tail kind [] name = ap (λ t. kind ++ (b' ' ∷ t)) (sym (append-nil (quote name)))
identity-tail kind (c ∷ ns) name = refl

tail_injective : (m n : Text) → tail m ≡ tail n → m ≡ n
unfolding tail
tail_injective [] [] e = refl
tail_injective [] (d ∷ n) e = cc
tail_injective (c ∷ m) [] e = cc
tail_injective (c ∷ m) (d ∷ n) e =
    let quoted : quote (c ∷ m) ++ [] ≡ quote (d ∷ n) ++ [] = ap (λ q. q ++ []) (cc e) in
    (quote-append_injective (c ∷ m) (d ∷ n) [] [] quoted).0

-- Resources of which the identities are equal have one kind, one namespace and one name, if the
-- kinds are words without a space.
resource_identity_injective :
    (kind kind' namespace namespace' name name' : Text)
    → has_space kind ≡ false
    → has_space kind' ≡ false
    → resource_identity kind namespace name ≡ resource_identity kind' namespace' name'
    → (kind ≡ kind') × (namespace ≡ namespace') × (name ≡ name')
resource_identity_injective kind kind' ns ns' name name' hk hk' e =
    let split =
      split_at_space kind kind' (quote name ++ tail ns) (quote name' ++ tail ns') hk hk'
        (sym (identity-tail kind ns name) ∙ e ∙ identity-tail kind' ns' name') in
    let quoted = quote-append_injective name name' (tail ns) (tail ns') split.1 in
    (split.0, tail_injective ns ns' quoted.1, quoted.0)
