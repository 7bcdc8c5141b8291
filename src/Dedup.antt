-- ===== src/Dedup.antt =====
-- bleps-dedup/src/lib.rs: the macro `dedup`, which writes a blocking and an asynchronous copy of an
-- implementation. A stream of tokens is what the crate `proc_macro` gives: identifiers, marks,
-- literals, and groups with a delimiter.
pub mod Erasure
pub mod Copies
use Prim.Native.String.{String}
use text.Mathlib.Text as Text
use bleps.Common.{
  ℕ, Bool, true, false, not, ◌&&◌, Option, none, some, List, [], ◌∷◌, ◌++◌, Run, done, ◌>>=◌,
  unwrap, ◌==◌, if◌then◌else◌,
}

pub data Delimiter : Type 0 where
  parenthesis brace bracket invisible : Delimiter

mutual
  pub data Token : Type 0 where
    ident : String → Token
    punct : ℕ → Token
    literal : String → Token
    group : Delimiter → Stream → Token

  pub data Stream : Type 0 where
    nil : Stream
    next : Token → Stream → Stream

abbrev pub same_text : String → String → Bool
same_text v w = Text.◌==◌ v w

-- `.`.
abbrev pub dot : ℕ
dot = 46

-- `if let Some(prev) = prev { output.extend([prev]); }`, before the rest of the output.
abbrev pub flush : Option Token → Stream → Stream
flush none s = s
flush (some t) s = next t s

-- The loop of `de_async`, with the mark that it holds back: what it appends to the output.
unfoldable pub de_async_loop : Option Token → Stream → Stream
de_async_loop prev nil = flush prev nil
de_async_loop prev (next (ident w) rest) =
    if same_text w "await"
    then de_async_loop none rest
    else if same_text w "async"
    then de_async_loop prev rest
    else flush prev (next (ident w) (de_async_loop none rest))
de_async_loop prev (next (punct c) rest) =
    if c == dot
    then flush prev (de_async_loop (some (punct c)) rest)
    else flush prev (next (punct c) (de_async_loop none rest))
de_async_loop prev (next (group d s) rest) =
    flush prev (next (group d (de_async_loop none s)) (de_async_loop none rest))
de_async_loop prev (next (literal l) rest) = flush prev (next (literal l) (de_async_loop none rest))

unfoldable pub de_async : Stream → Stream
unfolding de_async_loop
de_async input = de_async_loop none input

-- `extend`.
abbrev pub concat : Stream → Stream → Stream
concat nil t = t
concat (next x s) t = next x (concat s t)

abbrev pub is_empty : Stream → Bool
is_empty nil = true
is_empty (next t s) = false

pub record Implementation : Type 0 where
  pub is_async : Bool
  pub tokens : Stream

-- The variables of the loop of `dedup`.
pub record Reading : Type 0 where
  pub impls : List Implementation
  pub body : Option Stream
  pub impl_is_async : Bool
  pub current : Stream

-- `if !current.is_empty() { impls.push(…) }`.
unfoldable pub pushed : Reading → List Implementation
pushed r =
    if is_empty r.current
    then r.impls
    else r.impls ++ (record { is_async = r.impl_is_async; tokens = r.current } ∷ [])

abbrev pub extended : Reading → Token → Reading
extended r tok = record r { current = concat r.current (next tok nil) }

-- One round of the loop.
unfoldable pub read_token : Reading → Token → Reading
unfolding pushed
read_token r (ident w) =
    if same_text w "impl"
    then (record r { impls = pushed r; current = next (ident w) nil })
    else if same_text w "SYNC"
    then (record r { impl_is_async = false })
    else if same_text w "ASYNC"
    then (record r { impl_is_async = true })
    else extended r (ident w)
read_token r (group brace s) = record r { impls = pushed r; body = some (next (group brace s) nil) }
read_token r (group parenthesis s) = extended r (group parenthesis s)
read_token r (group bracket s) = extended r (group bracket s)
read_token r (group invisible s) = extended r (group invisible s)
read_token r (punct c) = extended r (punct c)
read_token r (literal l) = extended r (literal l)

unfoldable pub read_tokens : Reading → Stream → Reading
read_tokens r nil = r
read_tokens r (next t s) = read_tokens (read_token r t) s

-- The loop over the implementations, with the feature `generate-async`.
unfoldable pub generate : Bool → Option Stream → List Implementation → Run Stream
generate generate_async body [] = done nil
generate generate_async body (imp ∷ impls) = do
  generated ← generate generate_async body impls
  if not generate_async && imp.is_async then done generated else (do
    body ← unwrap body
    let block = if imp.is_async then body else de_async body
    done (concat imp.tokens (concat block generated)))

unfoldable pub dedup : Bool → Stream → Run Stream
dedup generate_async input =
    let r =
      read_tokens (record { impls = []; body = none; impl_is_async = false; current = nil })
        input in
    generate generate_async r.body r.impls
