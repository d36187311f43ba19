-- ===== src/Base/Scanner.antt =====
-- `bufio.Scanner` over lines, and `strings.TrimSpace` of ASCII text.
use Prim.Native.Nat.{◌*◌, ◌<◌}
use mathlib.Core.Bool.{◌&&◌, ◌||◌}
use go_apk.Base.Names.{ℕ, Bool, true, false, List, [], ◌∷◌, ◌++◌, ◌≡◌, refl, arith}
use go_apk.Base.Tests.{ltb, ◌==◌, if◌then◌else◌}
use go_apk.Base.Lists.{length, is_nil, All}
use go_apk.Base.Bytes.{Bytes, Stops, split, split-cons, split_part, Lacks}

abbrev pub newline : ℕ
newline = 10

abbrev pub is_cr : ℕ → Bool
is_cr c = c == 13

-- A trailing carriage return is dropped from a line.
unfoldable pub drop_cr : Bytes → Bytes
drop_cr [] = []
drop_cr (c ∷ s) = if is_cr c && is_nil s then [] else c ∷ drop_cr s

-- The lines of a text; what follows the last newline is one if it is not empty.
unfoldable pub raw_lines : List Bytes → List Bytes
raw_lines [] = []
raw_lines ([] ∷ []) = []
raw_lines ((c ∷ s) ∷ []) = (c ∷ s) ∷ []
raw_lines (l ∷ m ∷ ls) = l ∷ raw_lines (m ∷ ls)

-- The tokens up to the first line that does not fit the buffer, and whether there was none.
unfoldable pub tokens : ℕ → List Bytes → List Bytes × Bool
tokens limit [] = ([], true)
tokens limit (l ∷ ls) =
    let (ts, fits) = tokens limit ls in
    if ltb (length l) limit then (drop_cr l ∷ ts, fits) else ([], false)

-- The calls of `Scan` and `Text`, and whether `Err` is nil after them. The limit is the largest
-- size of the buffer, which a line and its newline have to fit.
unfoldable pub scan : ℕ → Bytes → List Bytes × Bool
scan limit s = tokens limit (raw_lines (split s newline))

-- `bufio.MaxScanTokenSize`.
abbrev pub max_token : ℕ
max_token = 64 * 1024

-- Each line with its newline.
unfoldable pub unlines : List Bytes → Bytes
unlines [] = []
unlines (l ∷ ls) = l ++ newline ∷ unlines ls

-- A line that the scanner returns as it stands.
pub record IsLine (limit : ℕ) (l : Bytes) : Type 0 where
  pub one : Lacks newline l
  pub kept : drop_cr l ≡ l
  pub fits : length l < limit

raw_lines_cons :
    (l : Bytes) (s : Bytes) → raw_lines (l ∷ split s newline) ≡ l ∷ raw_lines (split s newline)
unfolding raw_lines
raw_lines_cons l s = let (p, ps, e) = split-cons s newline in rw e

tokens_cons :
    (limit : ℕ) (l : Bytes) (ls : List Bytes)
    → length l < limit
    → tokens limit (l ∷ ls) ≡ (drop_cr l ∷ (tokens limit ls).0, (tokens limit ls).1)
unfolding tokens
tokens_cons limit l ls h = ground arith

-- What is written line by line is scanned as those lines.
pub scan-unlines :
    (limit : ℕ) (ls : List Bytes) → All (IsLine limit) ls → scan limit (unlines ls) ≡ (ls, true)
unfolding scan unlines
scan-unlines limit [] _ = unfold split raw_lines tokens in refl
scan-unlines limit (l ∷ ls) (h, hs) =
    rw (split_part l (unlines ls) newline h.one, raw_lines_cons)
      (ground (
        arith,
        tokens_cons limit l (raw_lines (split (unlines ls) newline)) h.fits,
        h.kept,
        scan-unlines limit ls hs,
      ))

abbrev pub is_space : ℕ → Bool
is_space c = c == 32 || c == 9 || c == 10 || c == 11 || c == 12 || c == 13

unfoldable pub trim_left : Bytes → Bytes
trim_left [] = []
trim_left (c ∷ s) = if is_space c then trim_left s else c ∷ s

unfoldable pub trim_right : Bytes → Bytes
trim_right [] = []
trim_right (c ∷ s) = let r = trim_right s in if is_space c && is_nil r then [] else c ∷ r

-- `strings.TrimSpace`.
unfoldable pub trim_space : Bytes → Bytes
unfolding trim_left trim_right
trim_space s = trim_right (trim_left s)

pub trim_left_same : (s : Bytes) → Stops is_space s → trim_left s ≡ s
unfolding trim_left
trim_left_same [] _ = refl
trim_left_same (c ∷ s) h = rw h

-- Trimming on the right stops at a byte that is no space.
pub trim_right-append :
    (s : Bytes) (c : ℕ) (t : Bytes)
    → is_space c ≡ false
    → trim_right (s ++ c ∷ t) ≡ s ++ c ∷ trim_right t
unfolding trim_right
trim_right-append [] c t h = rw h
trim_right-append (d ∷ s) c t h =
    ground (arith, trim_right-append s c t h, cons_in s c (trim_right t))
  where
    cons_in : (s : Bytes) (c : ℕ) (t : Bytes) → is_nil (s ++ c ∷ t) ≡ false
    cons_in [] c t = refl
    cons_in (d ∷ s) c t = refl
