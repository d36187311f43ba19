-- ===== src/Base/Order.antt =====
-- The order of strings is total.
use go_apk.Base.Names.{true, false, [], ◌∷◌, ◌≡◌, refl, arith}
use go_apk.Base.Bytes.{Bytes, str_ltb}

pub str_ltb_asymm : (s t : Bytes) → str_ltb s t ≡ true → str_ltb t s ≡ false
unfolding str_ltb
str_ltb_asymm [] [] h = refl
str_ltb_asymm [] (c ∷ t) h = refl
str_ltb_asymm (b ∷ s) [] h = absurd (ground arith)
str_ltb_asymm (b ∷ s) (c ∷ t) h = ground (arith, str_ltb_asymm s t)

-- Of two strings neither of which is less, both are the same.
pub str_ltb_total : (s t : Bytes) → str_ltb s t ≡ false → str_ltb t s ≡ false → s ≡ t
unfolding str_ltb
str_ltb_total [] [] h k = refl
str_ltb_total [] (c ∷ t) h k = absurd (ground arith)
str_ltb_total (b ∷ s) [] h k = absurd (ground arith)
str_ltb_total (b ∷ s) (c ∷ t) h k = ground (arith, str_ltb_total s t)

-- What is not less is passed on.
pub str_ltb_trans :
    (s t u : Bytes) → str_ltb t s ≡ false → str_ltb u t ≡ false → str_ltb u s ≡ false
unfolding str_ltb
str_ltb_trans (b ∷ s) (c ∷ t) (d ∷ u) h k = ground (arith, str_ltb_trans s t u)
str_ltb_trans [] t [] h k = refl
str_ltb_trans [] [] (d ∷ u) h k = refl
str_ltb_trans [] (c ∷ t) (d ∷ u) h k = refl
str_ltb_trans (b ∷ s) [] u h k = absurd (ground arith)
str_ltb_trans (b ∷ s) (c ∷ t) [] h k = absurd (ground arith)
