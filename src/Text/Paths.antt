-- ===== src/Text/Paths.antt =====
-- path/filepath on Unix: Clean, Dir, Base and Join.
use geotagger.Prelude.{
  Bool, true, false, ◌||◌, ◌&&◌, List, [], ◌∷◌, ◌++◌, reverse, ◌==◌, if◌then◌else◌,
}
use geotagger.Text.Bytes.{Str, codes, str_eq, is_empty}
use geotagger.Text.Strings.{split, has_prefix}

-- The elements kept so far, the last one first, behind "..".
unfoldable pub step_back : Bool → List Str → List Str
step_back true [] = []
step_back false [] = codes ".." ∷ []
step_back rooted (top ∷ stack) = if str_eq top (codes "..") then codes ".." ∷ top ∷ stack else stack

unfoldable pub clean_from : Bool → List Str → List Str → List Str
unfolding step_back
clean_from rooted stack [] = stack
clean_from rooted stack (name ∷ names) =
    if is_empty name || str_eq name (codes ".")
    then clean_from rooted stack names
    else if str_eq name (codes "..")
    then clean_from rooted (step_back rooted stack) names
    else clean_from rooted (name ∷ stack) names

unfoldable pub with_slashes : List Str → Str
with_slashes [] = []
with_slashes (name ∷ []) = name
with_slashes (name ∷ more ∷ names) = name ++ b'/' ∷ with_slashes (more ∷ names)

-- filepath.Clean
unfoldable pub clean : Str → Str
unfolding clean_from with_slashes
clean path =
    let rooted = has_prefix path (codes "/") in
    let names = with_slashes (reverse (clean_from rooted [] (split b'/' path))) in
    if rooted then b'/' ∷ names else if is_empty names then codes "." else names

unfoldable pub through_last_slash : Str → Str
through_last_slash [] = []
through_last_slash (c ∷ path) =
    let rest = through_last_slash path in
    if is_empty rest then (if c == b'/' then c ∷ [] else []) else c ∷ rest

-- filepath.Dir
unfoldable pub dir : Str → Str
unfolding through_last_slash clean
dir path = clean (through_last_slash path)

-- filepath.Join of two elements
unfoldable pub join : Str → Str → Str
unfolding clean
join a b =
    if is_empty a
    then (if is_empty b then [] else clean b)
    else if is_empty b
    then clean a
    else clean (a ++ b'/' ∷ b)

unfoldable pub strip_slashes : Str → Str
strip_slashes [] = []
strip_slashes (c ∷ path) =
    let rest = strip_slashes path in if is_empty rest && c == b'/' then [] else c ∷ rest

unfoldable pub after_last_slash : Str → Str → Str
after_last_slash cur [] = cur
after_last_slash cur (c ∷ path) =
    if c == b'/' then after_last_slash [] path else after_last_slash (cur ++ c ∷ []) path

-- filepath.Base
unfoldable pub base : Str → Str
unfolding strip_slashes after_last_slash
base path =
    if is_empty path
    then codes "."
    else let last = after_last_slash [] (strip_slashes path) in
      if is_empty last then codes "/" else last
