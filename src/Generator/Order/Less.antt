-- ===== src/Generator/Order/Less.antt =====
-- The comparison is a strict order of which two entries are incomparable only within one key.
use kdef.Base.{[], ◌∷◌, true, false, ◌≡◌, refl, arith}
use kdef.Base.Text.{Text, eq_iff, ltb_text}
use kdef.Generator.Order.{Entry, less}

pub ltb_text_cut : (x y z : Text) → ltb_text z x ≡ true → ltb_text z y ≡ false → ltb_text y x ≡ true
unfolding ltb_text
ltb_text_cut [] y [] h k = ground arith
ltb_text_cut [] y (e ∷ z) h k = ground arith
ltb_text_cut (c ∷ x) [] z h k = refl
ltb_text_cut (c ∷ x) (d ∷ y) [] h k = ground arith
ltb_text_cut (c ∷ x) (d ∷ y) (e ∷ z) h k = ground (arith, ltb_text_cut x y z)

pub ltb_text_asym : (s t : Text) → ltb_text s t ≡ true → ltb_text t s ≡ false
unfolding ltb_text
ltb_text_asym [] [] h = refl
ltb_text_asym [] (d ∷ t) h = refl
ltb_text_asym (c ∷ s) [] h = ground arith
ltb_text_asym (c ∷ s) (d ∷ t) h = ground (arith, ltb_text_asym s t)

pub ltb_text_connex : (s t : Text) → ltb_text s t ≡ false → ltb_text t s ≡ false → s ≡ t
unfolding ltb_text
ltb_text_connex [] [] h k = refl
ltb_text_connex [] (d ∷ t) h k = ground arith
ltb_text_connex (c ∷ s) [] h k = ground arith
ltb_text_connex (c ∷ s) (d ∷ t) h k = ground (arith, ltb_text_connex s t)

module _ {O : Type 0} (x y : Entry O) where
  pub less_asym : less x y ≡ true → less y x ≡ false
  unfolding less
  less_asym h = ground (
    arith,
    ltb_text_asym x.key y.key,
    ltb_text_asym x.name y.name,
    eq_iff x.key y.key,
    eq_iff y.key x.key,
  )

  pub less_connex : less x y ≡ false → less y x ≡ false → x.key ≡ y.key
  unfolding less
  less_connex h k =
      ground (arith, eq_iff x.key y.key, eq_iff y.key x.key, ltb_text_connex x.key y.key)

  pub less_cut : (z : Entry O) → less z x ≡ true → less z y ≡ false → less y x ≡ true
  unfolding less
  less_cut z h k = ground (
    arith,
    ltb_text_cut x.key y.key z.key,
    ltb_text_cut x.name y.name z.name,
    eq_iff x.key y.key,
    eq_iff z.key x.key,
    eq_iff z.key y.key,
    eq_iff y.key x.key,
    ltb_text_connex z.key y.key,
    ltb_text_asym z.key x.key,
    ltb_text_asym y.key z.key,
  )
