-- ===== src/Node/Bodies.antt =====
-- The limit on response bodies in src/node.rs.
use raydio.Prelude.{
  ℕ, ◌≤◌, ◌≡◌, some, List, [], ◌∷◌, ◌++◌, map, arith, leb, if◌then◌else◌, length, length-append,
}
use mathlib.Core.List.{append_assoc, append-nil}
use raydio.Prelude.Results.{ok, err}
use raydio.Node.Client.{exceeds_limit, body_limit, read_body}

unfoldable pub concat : List (List ℕ) → List ℕ
concat [] = []
concat (c ∷ cs) = c ++ concat cs

read_body-append :
    (bytes : List ℕ) (chunks : List (List ℕ))
    → length bytes ≤ body_limit
    → read_body bytes (map some chunks) ≡ (
        if leb (length (bytes ++ concat chunks)) body_limit
        then ok (bytes ++ concat chunks)
        else err exceeds_limit)
unfolding read_body concat
read_body-append bytes [] h = ground (arith, append-nil bytes)
read_body-append bytes (c ∷ cs) h = ground (
  arith,
  read_body-append (bytes ++ c) cs,
  append_assoc bytes c (concat cs),
  length-append bytes c,
  length-append bytes (c ++ concat cs),
  length-append c (concat cs),
)

-- A body whose chunks all arrive is accepted exactly when it has at most 2 MiB, however it is cut
-- into chunks, and is then the chunks one after the other.
pub read_body-concat :
    (chunks : List (List ℕ))
    → read_body [] (map some chunks)
      ≡ (if leb (length (concat chunks)) body_limit then ok (concat chunks) else err exceeds_limit)
read_body-concat chunks = read_body-append [] chunks (omega arith)
