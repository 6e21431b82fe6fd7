-- ===== src/Std/Path.antt =====
-- `std::path::Path` on Unix, for paths that are texts: `join` and `starts_with`.
use rust_croc.Common.{
  Bool, true, false, ◌&&◌, List, [], ◌∷◌, ◌++◌, Bytes, ◌==◌, beq, if◌then◌else◌, codes,
}
use rust_croc.Std.Str.{split}

-- An absolute path begins with a slash.
unfoldable pub is_absolute : Bytes → Bool
is_absolute [] = false
is_absolute (c ∷ cs) = c == b'/'

ends_in_slash : Bytes → Bool
ends_in_slash [] = false
ends_in_slash (c ∷ []) = c == b'/'
ends_in_slash (c ∷ d ∷ cs) = ends_in_slash (d ∷ cs)

-- `join`: an absolute path replaces the first, any other comes behind it and a slash.
unfoldable pub join : Bytes → Bytes → Bytes
unfolding is_absolute ends_in_slash
join [] q = q
join (c ∷ p) q =
    if is_absolute q
    then q
    else if ends_in_slash (c ∷ p)
    then (c ∷ p) ++ q
    else (c ∷ p) ++ (b'/' ∷ q)

-- The pieces that are a component: not those between two slashes, and not a dot behind the first.
components_of : List Bytes → List Bytes
components_of [] = []
components_of (x ∷ xs) =
    let rest = components_of xs in
    if beq x [] then rest else if beq x (codes ".") then rest else x ∷ rest

-- `components`, with the root as the component "/", and a dot at the begin kept.
unfoldable pub components : Bytes → List Bytes
unfolding is_absolute components_of
components p =
    let pieces = split (codes "/") p in
    if is_absolute p then codes "/" ∷ components_of pieces else elim pieces [
      | [] ↦ []
      | x ∷ xs ↦ if beq x (codes ".") then x ∷ components_of xs else components_of (x ∷ xs)
    ]

begins : List Bytes → List Bytes → Bool
begins xs [] = true
begins [] (y ∷ ys) = false
begins (x ∷ xs) (y ∷ ys) = beq x y && begins xs ys

-- `starts_with`, by whole components.
unfoldable pub starts_with : Bytes → Bytes → Bool
unfolding components begins
starts_with p base = begins (components p) (components base)
