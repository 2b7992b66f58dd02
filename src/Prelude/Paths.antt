-- ===== src/Prelude/Paths.antt =====
-- path/filepath on Unix: Clean, Join, Base, Dir and Ext on byte strings.
use mathlib.Core.Bool.{Bool, true, false, ◌||◌, not}
use mathlib.Core.List.{List, [], ◌∷◌, ◌++◌}
use nimo_os_photos.Prelude.Tests.{◌==◌, if◌then◌else◌}
use nimo_os_photos.Prelude.Strings.{Text, text, text_eq, has_prefix, split, trim_slashes, is_empty}

-- A ".." drops the component before it, unless there is none or that is a ".." itself.
parent : Bool → List Text → List Text
parent rooted [] = if rooted then [] else text ".." ∷ []
parent rooted (top ∷ stack) = if text_eq top (text "..") then text ".." ∷ top ∷ stack else stack

-- The components of filepath.Clean, last one first.
unfoldable pub clean_from : Bool → List Text → List Text → List Text
unfolding parent
clean_from rooted stack [] = stack
clean_from rooted stack (part ∷ parts) =
    clean_from rooted
      (if is_empty part || text_eq part (text ".")
        then stack
        else if text_eq part (text "..")
        then parent rooted stack
        else part ∷ stack)
      parts

-- Strings put together with a slash between them, the last one first.
join_reversed : List Text → Text → Text
join_reversed [] out = out
join_reversed (p ∷ ps) out = join_reversed ps (if is_empty out then p else p ++ text "/" ++ out)

unfoldable pub clean : Text → Text
unfolding join_reversed
clean path =
    let rooted = has_prefix path (text "/") in
    let body = join_reversed (clean_from rooted [] (split b'/' path)) [] in
    if rooted then text "/" ++ body else if is_empty body then text "." else body

unfoldable pub join : Text → Text → Text
join a b = if is_empty a then clean b else clean (a ++ text "/" ++ b)

last_part : List Text → Text
last_part [] = []
last_part (p ∷ []) = p
last_part (p ∷ q ∷ ps) = last_part (q ∷ ps)

unfoldable pub base_name : Text → Text
unfolding last_part
base_name path =
    if is_empty path
    then text "."
    else if is_empty (trim_slashes path)
    then text "/"
    else last_part (split b'/' (trim_slashes path))

-- The string up to its last slash, which is kept.
up_to_slash : Text → Text
up_to_slash [] = []
up_to_slash (c ∷ s) =
    let rest = up_to_slash s in if c == b'/' || not (is_empty rest) then c ∷ rest else []

unfoldable pub dir_name : Text → Text
unfolding up_to_slash
dir_name path = clean (up_to_slash path)

-- The suffix from the last dot of the last element; the flag is whether a dot or a slash stands in it.
ext_from : Text → Text × Bool
ext_from [] = ([], false)
ext_from (c ∷ s) =
    let (rest, found) = ext_from s in
    if found then (rest, true) else if c == b'.' then (c ∷ s, true) else ([], c == b'/')

unfoldable pub ext : Text → Text
unfolding ext_from
ext path = (ext_from path).0
