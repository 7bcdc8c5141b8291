-- ===== src/Examples/Macros.antt =====
-- The theorems on the macro `dedup`, at a small implementation.
use bleps.Common.{◌≡◌, refl, false, done}
use bleps.Dedup.{
  Stream, nil, next, ident, punct, group, brace, parenthesis, dot, de_async, dedup, concat,
}
use bleps.Dedup.Erasure.{de_async_lem, without_async, without_await}
use bleps.Dedup.Copies.{two_headers, implementation, dedup_lem}

-- `async fn f() { g().await }`.
abbrev function : Stream
function = next (ident "async") (
    next (ident "fn") (
      next (ident "f") (
        next (group parenthesis nil) (
          next
            (group brace (
              next (ident "g")
                (next (group parenthesis nil) (next (punct dot) (next (ident "await") nil)))))
            nil))))

abbrev name : Stream
name = next (ident "Server") nil

de_async_lem_example : de_async function ≡ without_await (without_async function)
de_async_lem_example = de_async_lem function

dedup_lem_example :
    dedup false (two_headers nil name nil name function)
    ≡ done (concat (implementation nil name (de_async function)) nil)
dedup_lem_example =
    dedup_lem false nil name nil name function tt (refl, refl, refl, tt) tt (refl, refl, refl, tt)
