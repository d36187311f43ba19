-- ===== src/World.antt =====
-- pkg/apk/world.go: the list of packages that are to be installed, as the file etc/apk/world.
pub mod Laws
pub mod Tests
use go_apk.Base.{ℕ, Bool, true, false, List, [], ◌∷◌, ◌++◌, if◌then◌else◌}
use go_apk.Base.Bytes.{Bytes, str_ltb, join}
use go_apk.Base.Scanner.{newline, is_space}

abbrev pub starts_word : Bytes → Bool
starts_word [] = false
starts_word (c ∷ s) = if is_space c then false else true

-- A byte in front of the words: it continues the first word, or it is one.
abbrev pub attach : ℕ → Bool → List Bytes → List Bytes
attach c false words = (c ∷ []) ∷ words
attach c true [] = (c ∷ []) ∷ []
attach c true (w ∷ words) = (c ∷ w) ∷ words

-- `strings.Fields` of ASCII text.
unfoldable pub fields : Bytes → List Bytes
fields [] = []
fields (c ∷ s) = let rest = fields s in if is_space c then rest else attach c (starts_word s) rest

-- `sort.Strings`.
unfoldable pub insert_string : Bytes → List Bytes → List Bytes
insert_string s [] = s ∷ []
insert_string s (t ∷ ts) = if str_ltb t s then t ∷ insert_string s ts else s ∷ t ∷ ts

unfoldable pub sort_strings : List Bytes → List Bytes
unfolding insert_string
sort_strings [] = []
sort_strings (s ∷ ss) = insert_string s (sort_strings ss)

-- What `GetWorld` returns for the contents of the file.
unfoldable pub get_world : Bytes → List Bytes
unfolding fields
get_world world_data = fields world_data

-- The contents that `SetWorld` writes.
unfoldable pub set_world : List Bytes → Bytes
unfolding sort_strings
set_world packages = join (sort_strings packages) newline ++ newline ∷ []
