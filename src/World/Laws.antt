-- ===== src/World/Laws.antt =====
-- pkg/apk/world.go: what `SetWorld` writes is what `GetWorld` reads.
use mathlib.Core.List.{append_assoc}
use go_apk.Base.{
  ℕ, false, List, [], ◌∷◌, ◌++◌, ◌≡◌, ◌≢◌, ◌↔◌, ◌⊎◌, ◌∙◌, refl, inl, inr, arith, All, In,
  Bool-cases,
}
use go_apk.Base.Bytes.{Bytes, str_ltb, join}
use go_apk.Base.Order.{str_ltb_asymm, str_ltb_trans}
use go_apk.Base.Scanner.{newline, is_space}
use go_apk.World.{fields, insert_string, sort_strings, get_world, set_world}

-- A text that is neither empty nor has a space.
pub record IsWord (w : Bytes) : Type 0 where
  pub some_byte : w ≢ []
  pub no_space : All (λ c. is_space c ≡ false) w

-- No element sorts below the one in front of it.
abbrev pub IsSorted : List Bytes → Type 0
IsSorted [] = Unit
IsSorted (s ∷ ss) = All (λ t. str_ltb t s ≡ false) ss × IsSorted ss

fields_word :
    (c : ℕ) (w r : Bytes)
    → All (λ d. is_space d ≡ false) (c ∷ w)
    → fields ((c ∷ w) ++ newline ∷ r) ≡ (c ∷ w) ∷ fields r
unfolding fields
fields_word c [] r (h, _) = ground arith
fields_word c (d ∷ w) r (h, (k, hs)) = ground (arith, fields_word d w r (k, hs))

-- What is written word by word is read as those words.
fields-join : (ws : List Bytes) → All IsWord ws → fields (join ws newline ++ newline ∷ []) ≡ ws
unfolding join
fields-join [] _ = unfold fields in refl
fields-join ([] ∷ ws) (h, _) = absurd (h.some_byte refl)
fields-join ((c ∷ w) ∷ []) (h, _) = fields_word c w [] h.no_space ∙ (unfold fields in refl)
fields-join ((c ∷ w) ∷ v ∷ ws) (h, hs) =
    rw (append_assoc (c ∷ w) (newline ∷ join (v ∷ ws) newline) (newline ∷ [])) (
      rw
        (
          fields_word c w (join (v ∷ ws) newline ++ newline ∷ []) h.no_space,
          fields-join (v ∷ ws) hs,
        )
        refl)

insert_string-In :
    (s : Bytes) (ss : List Bytes) (t : Bytes) → In t (insert_string s ss) ↔ ((t ≡ s) ⊎ In t ss)
unfolding insert_string
insert_string-In s [] t = ground arith
insert_string-In s (u ∷ ss) t = ground (arith, insert_string-In s ss t)

pub sort_strings-In : (ss : List Bytes) (t : Bytes) → In t (sort_strings ss) ↔ In t ss
unfolding sort_strings
sort_strings-In [] t = ground arith
sort_strings-In (s ∷ ss) t =
    ground (arith, insert_string-In s (sort_strings ss) t, sort_strings-In ss t)

insert_string-All :
    (P : Bytes → Type 0) (s : Bytes) (ss : List Bytes) → P s → All P ss → All P (insert_string s ss)
unfolding insert_string
insert_string-All P s [] p _ = (p, tt)
insert_string-All P s (t ∷ ss) p (q, qs) = elim (Bool-cases (str_ltb t s)) [
  | inl e ↦ rw e (q, insert_string-All P s ss p qs)
  | inr e ↦ rw e (p, (q, qs))
]

pub sort_strings-All : (P : Bytes → Type 0) (ss : List Bytes) → All P ss → All P (sort_strings ss)
unfolding sort_strings
sort_strings-All P [] _ = tt
sort_strings-All P (s ∷ ss) (p, ps) =
    insert_string-All P s (sort_strings ss) p (sort_strings-All P ss ps)

-- What does not sort below an element does not sort below what it does not sort below.
All-above :
    (s t : Bytes) (ss : List Bytes)
    → str_ltb t s ≡ false
    → All (λ u. str_ltb u t ≡ false) ss
    → All (λ u. str_ltb u s ≡ false) ss
All-above s t [] h _ = tt
All-above s t (u ∷ ss) h (k, ks) = (str_ltb_trans s t u h k, All-above s t ss h ks)

insert_string-IsSorted : (s : Bytes) (ss : List Bytes) → IsSorted ss → IsSorted (insert_string s ss)
unfolding insert_string
insert_string-IsSorted s [] _ = (tt, tt)
insert_string-IsSorted s (t ∷ ss) (h, hs) = elim (Bool-cases (str_ltb t s)) [
  | inl e ↦ rw e (
    insert_string-All (λ u. str_ltb u t ≡ false) s ss (ground (arith, str_ltb_asymm t s)) h,
    insert_string-IsSorted s ss hs,
  )
  | inr e ↦ rw e ((e, All-above s t ss e h), (h, hs))
]

sort_strings-IsSorted : (ss : List Bytes) → IsSorted (sort_strings ss)
unfolding sort_strings
sort_strings-IsSorted [] = tt
sort_strings-IsSorted (s ∷ ss) =
    insert_string-IsSorted s (sort_strings ss) (sort_strings-IsSorted ss)

-- After `SetWorld` with names that are neither empty nor have spaces, `GetWorld` returns exactly
-- these names, sorted.
pub get_world-set_world :
    (packages : List Bytes)
    → All IsWord packages
    → IsSorted (get_world (set_world packages))
      × ((name : Bytes) → In name (get_world (set_world packages)) ↔ In name packages)
unfolding get_world set_world
get_world-set_world packages h =
    rw (fields-join (sort_strings packages) (sort_strings-All IsWord packages h))
      (sort_strings-IsSorted packages, sort_strings-In packages)
