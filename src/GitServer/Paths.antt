-- ===== src/GitServer/Paths.antt =====
-- server/pkg/gitserver/server.go: `repositoryPath`, with what it uses of Go's `path`.
pub mod Inside
use moblog_cloud.Prelude.{
  GoString, codes, ◌==◌, Bool, true, false, ◌||◌, List, [], ◌∷◌, ◌++◌, nat_eq, if◌then◌else◌, ℕ,
}
use mathlib.Core.List.{reverse}

-- The elements of a path, between its slashes.
abbrev pub prepend : ℕ → List GoString → List GoString
prepend c [] = (c ∷ []) ∷ []
prepend c (first ∷ rest) = (c ∷ first) ∷ rest

unfoldable pub split_slash : GoString → List GoString
split_slash [] = [] ∷ []
split_slash (c ∷ s) =
    let rest = split_slash s in if nat_eq c b'/' then [] ∷ rest else prepend c rest

-- The elements kept so far, last first; `..` takes one back, and stays where there is none to take
-- and the path is relative.
abbrev pub back : Bool → List GoString → List GoString
back rooted [] = if rooted then [] else (codes ".." ∷ [])
back rooted (last ∷ kept) = if last == codes ".." then codes ".." ∷ last ∷ kept else kept

unfoldable pub clean_element : Bool → List GoString → GoString → List GoString
clean_element rooted kept element =
    if element == [] || element == codes "."
    then kept
    else if element == codes ".."
    then back rooted kept
    else element ∷ kept

unfoldable pub clean_elements : Bool → List GoString → List GoString → List GoString
unfolding clean_element
clean_elements rooted kept [] = kept
clean_elements rooted kept (element ∷ rest) =
    clean_elements rooted (clean_element rooted kept element) rest

abbrev pub is_rooted : GoString → Bool
is_rooted [] = false
is_rooted (c ∷ s) = nat_eq c b'/'

unfoldable pub join_slash : List GoString → GoString
join_slash [] = []
join_slash (a ∷ []) = a
join_slash (a ∷ b ∷ rest) = a ++ b'/' ∷ join_slash (b ∷ rest)

abbrev pub render : Bool → List GoString → GoString
render true elements = b'/' ∷ join_slash elements
render false [] = codes "."
render false (a ∷ rest) = join_slash (a ∷ rest)

-- `path.Clean`
unfoldable pub clean : GoString → GoString
unfolding split_slash clean_elements join_slash
clean p = render (is_rooted p) (reverse (clean_elements (is_rooted p) [] (split_slash p)))

-- `path.Join` ignores empty elements.
abbrev pub non_empty : List GoString → List GoString
non_empty [] = []
non_empty ([] ∷ rest) = non_empty rest
non_empty ((c ∷ s) ∷ rest) = (c ∷ s) ∷ non_empty rest

abbrev pub clean_joined : List GoString → GoString
clean_joined [] = []
clean_joined (a ∷ rest) = clean (join_slash (a ∷ rest))

unfoldable pub path_join : List GoString → GoString
unfolding clean
path_join elements = clean_joined (non_empty elements)

unfoldable pub repository_path : GoString → GoString → GoString → GoString
unfolding path_join
repository_path base_dir username repository = path_join (base_dir ∷ username ∷ repository ∷ [])
