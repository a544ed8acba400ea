-- ===== src/Text/Order.antt =====
-- The byte order of `sort.Strings` is a total order.
use compliance_gateway.Common.{◌≡◌, refl, true, false, [], ◌∷◌, arith}
use compliance_gateway.Text.{Text, text_eq, text_le}

pub text_le_total : (x y : Text) → text_le x y ≡ false → text_le y x ≡ true
unfolding text_le
text_le_total [] y h = cc
text_le_total (a ∷ x) [] h = refl
text_le_total (a ∷ x) (b ∷ y) h = ground (arith, text_le_total x y)

pub text_le_antisym : (x y : Text) → text_le x y ≡ true → text_le y x ≡ true → text_eq x y ≡ true
unfolding text_le text_eq
text_le_antisym [] [] h g = refl
text_le_antisym [] (b ∷ y) h g = cc
text_le_antisym (a ∷ x) [] h g = cc
text_le_antisym (a ∷ x) (b ∷ y) h g = ground (arith, text_le_antisym x y)

pub text_le_trans : (x y z : Text) → text_le x y ≡ true → text_le y z ≡ true → text_le x z ≡ true
unfolding text_le
text_le_trans [] y z h g = refl
text_le_trans (a ∷ x) [] z h g = cc
text_le_trans (a ∷ x) (b ∷ y) [] h g = cc
text_le_trans (a ∷ x) (b ∷ y) (c ∷ z) h g = ground (arith, text_le_trans x y z)

pub text_eq_sym : (x y : Text) → text_eq x y ≡ text_eq y x
unfolding text_eq
text_eq_sym [] [] = refl
text_eq_sym [] (b ∷ y) = refl
text_eq_sym (a ∷ x) [] = refl
text_eq_sym (a ∷ x) (b ∷ y) = ground (arith, text_eq_sym x y)
