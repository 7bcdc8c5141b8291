-- ===== src/Dedup/Copies.antt =====
-- The copies that `dedup` of bleps-dedup/src/lib.rs (10-87) writes of an implementation.
use bleps.Common.{
  ◌≡◌, refl, ap, ◌∙◌, Bool, true, false, Option, none, some, List, [], ◌∷◌, done, if◌then◌else◌,
}
use bleps.Dedup.{
  Stream, nil, next, ident, punct, literal, group, brace, parenthesis, bracket, invisible,
  same_text, concat, de_async, de_async_loop, Implementation, Reading, pushed, read_token,
  read_tokens, generate, dedup,
}

-- A part of a header: no word that `dedup` looks for, and no braces outside other groups.
abbrev pub Header : Stream → Type 0
Header nil = Unit
Header (next (ident w) rest) =
    (same_text w "impl" ≡ false)
    × (same_text w "SYNC" ≡ false)
    × (same_text w "ASYNC" ≡ false)
    × Header rest
Header (next (punct c) rest) = Header rest
Header (next (literal l) rest) = Header rest
Header (next (group brace s) rest) = ⊥
Header (next (group parenthesis s) rest) = Header rest
Header (next (group bracket s) rest) = Header rest
Header (next (group invisible s) rest) = Header rest

concat_assoc : (s t u : Stream) → concat (concat s t) u ≡ concat s (concat t u)
concat_assoc nil t u = refl
concat_assoc (next x s) t u = ap (next x) (concat_assoc s t u)

concat-nil : (s : Stream) → concat s nil ≡ s
concat-nil nil = refl
concat-nil (next x s) = ap (next x) (concat-nil s)

-- A header is added to what was read.
read_words :
    (u s : Stream) (impls : List Implementation) (body : Option Stream) (is_async : Bool)
    (current : Stream)
    → Header u
    → let reading : Stream → Reading =
        λ c. record { impls = impls; body = body; impl_is_async = is_async; current = c } in
      read_tokens (reading current) (concat u s) ≡ read_tokens (reading (concat current u)) s
unfolding read_tokens read_token
read_words nil s impls body is_async current h = rw (concat-nil current) refl
read_words (next (ident w) u) s impls body is_async current (a, b, c, h) =
    rw (read_tokens, read_token, a, b, c)
      (read_words u s impls body is_async (concat current (next (ident w) nil)) h
        ∙ rw (concat_assoc current) refl)
read_words (next (punct c) u) s impls body is_async current h =
    read_words u s impls body is_async (concat current (next (punct c) nil)) h
    ∙ rw (concat_assoc current) refl
read_words (next (literal c) u) s impls body is_async current h =
    read_words u s impls body is_async (concat current (next (literal c) nil)) h
    ∙ rw (concat_assoc current) refl
read_words (next (group parenthesis c) u) s impls body is_async current h =
    read_words u s impls body is_async (concat current (next (group parenthesis c) nil)) h
    ∙ rw (concat_assoc current) refl
read_words (next (group bracket c) u) s impls body is_async current h =
    read_words u s impls body is_async (concat current (next (group bracket c) nil)) h
    ∙ rw (concat_assoc current) refl
read_words (next (group invisible c) u) s impls body is_async current h =
    read_words u s impls body is_async (concat current (next (group invisible c) nil)) h
    ∙ rw (concat_assoc current) refl
read_words (next (group brace c) u) s impls body is_async current h = elim h [ ]

-- A blocking and an asynchronous header before a body.
abbrev pub two_headers : Stream → Stream → Stream → Stream → Stream → Stream
two_headers u₁ v₁ u₂ v₂ body = next (ident "impl") (
    concat u₁ (
      next (ident "SYNC") (
        concat v₁ (
          next (ident "impl")
            (concat u₂ (next (ident "ASYNC") (concat v₂ (next (group brace body) nil))))))))

-- What the loop has read at the end.
abbrev both_read : Stream → Stream → Stream → Stream → Stream → Reading
both_read u₁ v₁ u₂ v₂ body = record {
  impls =
      record { is_async = false; tokens = next (ident "impl") (concat u₁ v₁) }
      ∷ record { is_async = true; tokens = next (ident "impl") (concat u₂ v₂) }
      ∷ [];
  body = some (next (group brace body) nil);
  impl_is_async = true;
  current = next (ident "impl") (concat u₂ v₂);
}

read_two_headers :
    (u₁ v₁ u₂ v₂ body : Stream)
    → Header u₁
    → Header v₁
    → Header u₂
    → Header v₂
    → read_tokens
        (record { impls = []; body = none; impl_is_async = false; current = nil })
        (two_headers u₁ v₁ u₂ v₂ body)
      ≡ both_read u₁ v₁ u₂ v₂ body
unfolding read_tokens read_token pushed
read_two_headers u₁ v₁ u₂ v₂ body h₁ k₁ h₂ k₂ =
    let impl = ident "impl" in
    let first = record { is_async = false; tokens = next impl (concat u₁ v₁) } ∷ [] in
    let rest₂ = next (ident "ASYNC") (concat v₂ (next (group brace body) nil)) in
    let rest₁ = next impl (concat u₂ rest₂) in
    read_words u₁ (next (ident "SYNC") (concat v₁ rest₁)) [] none false (next impl nil) h₁
    ∙ read_words v₁ rest₁ [] none false (next impl u₁) k₁
    ∙ read_words u₂ rest₂ first none false (next impl nil) h₂
    ∙ read_words v₂ (next (group brace body) nil) first none true (next impl u₂) k₂

abbrev pub implementation : Stream → Stream → Stream → Stream
implementation u v s = next (ident "impl") (concat u (concat v (next (group brace s) nil)))

generate_both :
    (generate_async : Bool) (u₁ v₁ u₂ v₂ body : Stream)
    → generate generate_async
        (some (next (group brace body) nil))
        (both_read u₁ v₁ u₂ v₂ body).impls
      ≡ done (
          concat
            (implementation u₁ v₁ (de_async body))
            (if generate_async then implementation u₂ v₂ body else nil))
unfolding generate de_async de_async_loop
generate_both true u₁ v₁ u₂ v₂ body =
    rw (concat_assoc, concat_assoc, concat_assoc, concat_assoc) refl
generate_both false u₁ v₁ u₂ v₂ body = rw (concat_assoc, concat_assoc, concat_assoc) refl

-- Of two headers and a body the macro makes the blocking implementation, whose body has no `async`
-- and no `await`, and with the feature the asynchronous one behind it, whose body is as it stands.
pub dedup_lem :
    (generate_async : Bool) (u₁ v₁ u₂ v₂ body : Stream)
    → Header u₁
    → Header v₁
    → Header u₂
    → Header v₂
    → dedup generate_async (two_headers u₁ v₁ u₂ v₂ body)
      ≡ done (
          concat
            (implementation u₁ v₁ (de_async body))
            (if generate_async then implementation u₂ v₂ body else nil))
unfolding dedup
dedup_lem generate_async u₁ v₁ u₂ v₂ body h₁ k₁ h₂ k₂ =
    ap (λ r. generate generate_async r.body r.impls) (read_two_headers u₁ v₁ u₂ v₂ body h₁ k₁ h₂ k₂)
    ∙ generate_both generate_async u₁ v₁ u₂ v₂ body
