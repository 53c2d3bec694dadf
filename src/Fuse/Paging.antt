-- ===== src/Fuse/Paging.antt =====
-- `readdir` in pages: a reader that goes on where a page ended sees every row once.
use cipher_fs.Base.{ℕ, suc, List, [], ◌∷◌, ◌++◌, map}
use cipher_fs.Fuse.{refused, replied, Reply, Row}

-- The position that the last row of a page gives, or the position at which an empty page was asked for.
abbrev pub next_position : ℕ → List (ℕ × Row) → ℕ
next_position offset [] = offset
next_position offset ((position, row) ∷ page) = next_position position page

abbrev pub add_page : List (ℕ × Row) → Reply (List Row) → Reply (List Row)
add_page page (replied rows) = replied (map (λ p. p.1) page ++ rows)
add_page page (refused e) = refused e

abbrev pub then_page :
    Reply (List (ℕ × Row)) → (List (ℕ × Row) → Reply (List Row)) → Reply (List Row)
then_page (replied page) rest = add_page page (rest page)
then_page (refused e) rest = refused e

-- A reader asks for pages, each at the position that the last row of the page before gave; every page has
-- room for one row more than its number says.
unfoldable pub read_pages : (ℕ → ℕ → Reply (List (ℕ × Row))) → List ℕ → ℕ → Reply (List Row)
read_pages handler [] offset = replied []
read_pages handler (more ∷ rooms) offset =
    then_page (handler offset (suc more))
      (λ page. read_pages handler rooms (next_position offset page))
