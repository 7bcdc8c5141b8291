-- ===== src/Dedup/Erasure.antt =====
-- What `de_async` of bleps-dedup/src/lib.rs (89-151) leaves of a stream of tokens.
use Prim.Native.String.{String}
use text.Mathlib.TextEquality.{eq_iff}
use bleps.Common.{
  ◌≡◌, refl, sym, ap, subst, ==_iff, ◌∙◌, Bool, true, false, ◌&&◌, none, some, ◌==◌, if◌then◌else◌,
  Bool-cases, inl, inr,
}
use bleps.Dedup.{
  Token, Stream, nil, next, ident, punct, literal, group, same_text, dot, de_async_loop, de_async,
}

-- The description: first every `async` goes, at every depth.
abbrev pub without_async : Stream → Stream
without_async nil = nil
without_async (next (ident w) rest) =
    if same_text w "async" then without_async rest else next (ident w) (without_async rest)
without_async (next (punct c) rest) = next (punct c) (without_async rest)
without_async (next (group d s) rest) = next (group d (without_async s)) (without_async rest)
without_async (next (literal l) rest) = next (literal l) (without_async rest)

abbrev pub awaits : Stream → Bool
awaits (next (ident w) rest) = same_text w "await"
awaits (next (punct c) rest) = false
awaits (next (group d s) rest) = false
awaits (next (literal l) rest) = false
awaits nil = false

-- Then every `await`, and every dot directly before one.
abbrev pub without_await : Stream → Stream
without_await nil = nil
without_await (next (ident w) rest) =
    if same_text w "await" then without_await rest else next (ident w) (without_await rest)
without_await (next (punct c) rest) =
    if (c == dot) && awaits rest then without_await rest else next (punct c) (without_await rest)
without_await (next (group d s) rest) = next (group d (without_await s)) (without_await rest)
without_await (next (literal l) rest) = next (literal l) (without_await rest)

-- The three sorts of identifier.
pub data Word (w : String) : Type 0 where
  word_await : same_text w "await" ≡ true → same_text w "async" ≡ false → Word w
  word_async : same_text w "await" ≡ false → same_text w "async" ≡ true → Word w
  word_other : same_text w "await" ≡ false → same_text w "async" ≡ false → Word w

pub word : (w : String) → Word w
word w = elim (Bool-cases (same_text w "await")) [
  | inl a ↦
      word_await a (subst (λ v. same_text v "async" ≡ false) (sym ((eq_iff w "await").0 a)) refl)
  | inr a ↦ elim (Bool-cases (same_text w "async")) [
    | inl b ↦ word_async a b
    | inr b ↦ word_other a b
  ]
]

-- The dot that is held back is dropped exactly when an `await` follows, with nothing but `async`
-- between them.
held : (s : Stream) → Stream
held s =
    if awaits (without_async s)
    then without_await (without_async s)
    else next (punct dot) (without_await (without_async s))

mutual
  unfolding de_async_loop held

  loop-none : (s : Stream) → de_async_loop none s ≡ without_await (without_async s)
  loop-none nil = refl
  loop-none (next (ident w) rest) = elim (word w) [
    | word_await a b ↦ rw (a, b, a) (loop-none rest)
    | word_async a b ↦ rw (a, b) (loop-none rest)
    | word_other a b ↦ rw (a, b, a, loop-none rest) refl
  ]
  loop-none (next (punct c) rest) = elim (Bool-cases (c == dot)) [
    | inl d ↦
        subst
          (λ c.
            de_async_loop none (next (punct c) rest)
            ≡ without_await (without_async (next (punct c) rest)))
          (sym ((==_iff c dot).0 d)) (loop-dot rest)
    | inr d ↦ rw (d, loop-none rest) refl
  ]
  loop-none (next (group d s) rest) = rw (loop-none s, loop-none rest) refl
  loop-none (next (literal l) rest) = rw (loop-none rest) refl

  loop-dot : (s : Stream) → de_async_loop (some (punct dot)) s ≡ held s
  loop-dot nil = refl
  loop-dot (next (ident w) rest) = elim (word w) [
    | word_await a b ↦ rw (a, b, a) (loop-none rest)
    | word_async a b ↦ rw (a, b) (loop-dot rest)
    | word_other a b ↦ rw (a, b, a, loop-none rest) refl
  ]
  loop-dot (next (punct c) rest) = elim (Bool-cases (c == dot)) [
    | inl d ↦
        subst
          (λ c. de_async_loop (some (punct dot)) (next (punct c) rest) ≡ held (next (punct c) rest))
          (sym ((==_iff c dot).0 d)) (ap (next (punct dot)) (loop-dot rest))
    | inr d ↦ rw (d, loop-none rest) refl
  ]
  loop-dot (next (group d s) rest) = rw (loop-none s, loop-none rest) refl
  loop-dot (next (literal l) rest) = rw (loop-none rest) refl

-- `de_async` leaves the tokens without every `async`, then without every `await` and the dot before
-- it, at every depth.
pub de_async_lem : (s : Stream) → de_async s ≡ without_await (without_async s)
unfolding de_async
de_async_lem s = loop-none s

-- No `async` and no `await`, at any depth.
abbrev pub Clean : Stream → Type 0
Clean nil = Unit
Clean (next (ident w) rest) =
    (same_text w "await" ≡ false) × (same_text w "async" ≡ false) × Clean rest
Clean (next (punct c) rest) = Clean rest
Clean (next (group d s) rest) = Clean s × Clean rest
Clean (next (literal l) rest) = Clean rest

unless-Clean :
    (b : Bool) (t : Token) (s : Stream)
    → Clean s
    → Clean (next t s)
    → Clean (if b then s else next t s)
unless-Clean true t s h h' = h
unless-Clean false t s h h' = h'

erased-Clean : (s : Stream) → Clean (without_await (without_async s))
erased-Clean nil = tt
erased-Clean (next (ident w) rest) = elim (word w) [
  | word_await a b ↦ rw (b, a) (erased-Clean rest)
  | word_async a b ↦ rw b (erased-Clean rest)
  | word_other a b ↦ rw (b, a) (a, b, erased-Clean rest)
]
erased-Clean (next (punct c) rest) =
    unless-Clean ((c == dot) && awaits (without_async rest)) (punct c) _ (erased-Clean rest)
      (erased-Clean rest)
erased-Clean (next (group d s) rest) = (erased-Clean s, erased-Clean rest)
erased-Clean (next (literal l) rest) = erased-Clean rest

without_async-same : (s : Stream) → Clean s → without_async s ≡ s
without_async-same nil h = refl
without_async-same (next (ident w) rest) (a, b, h) = rw (b, without_async-same rest h) refl
without_async-same (next (punct c) rest) h = rw (without_async-same rest h) refl
without_async-same (next (group d s) rest) (h, k) =
    rw (without_async-same s h, without_async-same rest k) refl
without_async-same (next (literal l) rest) h = rw (without_async-same rest h) refl

awaits-same : (s : Stream) → Clean s → awaits s ≡ false
awaits-same nil h = refl
awaits-same (next (ident w) rest) (a, b, h) = a
awaits-same (next (punct c) rest) h = refl
awaits-same (next (group d s) rest) h = refl
awaits-same (next (literal l) rest) h = refl

without_await-same : (s : Stream) → Clean s → without_await s ≡ s
without_await-same nil h = refl
without_await-same (next (ident w) rest) (a, b, h) = rw (a, without_await-same rest h) refl
without_await-same (next (punct c) rest) h = elim (Bool-cases (c == dot)) [
  | inl d ↦ rw (d, awaits-same rest h, without_await-same rest h) refl
  | inr d ↦ rw (d, without_await-same rest h) refl
]
without_await-same (next (group d s) rest) (h, k) =
    rw (without_await-same s h, without_await-same rest k) refl
without_await-same (next (literal l) rest) h = rw (without_await-same rest h) refl

-- Nothing is taken from a stream that has neither.
pub de_async-same : (s : Stream) → Clean s → de_async s ≡ s
de_async-same s h =
    let e = without_async-same s h in de_async_lem s ∙ ap without_await e ∙ without_await-same s h

-- What is left has no `async` and no `await` at any depth, and a second pass takes nothing from it.
pub de_async-Clean : (s : Stream) → Clean (de_async s) × (de_async (de_async s) ≡ de_async s)
de_async-Clean s =
    let h = subst Clean (sym (de_async_lem s)) (erased-Clean s) in (h, de_async-same (de_async s) h)
