-- ===== src/Hci.antt =====
-- The trait `HciConnection` of bleps/src/lib.rs (470-476) as an environment, `Data::read`
-- (448-468) and `write_bytes` (441-445) on it.
pub mod Reads
pub mod Writes
pub mod Progress
use bleps.Common.{
  ℕ, zero, suc, ◌+◌, Option, none, some, List, [], ◌∷◌, ◌++◌, ltb, length, set, replicate, Run,
  done, panic, hang, stuck, require, IsByte,
}
use bleps.Common as C
use bleps.Data
use bleps.Data.{Data, zeros}

-- `reads` is what the next calls of `read` return; after them the device is silent (`None`).
-- `clock n` is the `n`-th reading of `millis`, and `ticks` counts the readings so far.
pub record Hci : Type 0 where
  pub reads : List (Option ℕ)
  pub clock : ℕ → ℕ
  pub ticks : ℕ
  pub written : List ℕ

-- Code that talks to the connection.
abbrev pub M {ℓ} : Type ℓ → Type ℓ
M A = Hci → Run (A × Hci)

infixl 5 ◌>>=◌ ◌>>◌
abbrev pub ◌>>=◌ {ℓ κ} : {A : Type ℓ} {B : Type κ} → M A → (A → M B) → M B
◌>>=◌ m f h = elim (m h) [ done (a, h') ↦ f a h' | panic ↦ panic | hang ↦ hang | stuck ↦ stuck ]

abbrev pub ◌>>◌ {ℓ} : {B : Type ℓ} → M (Unit {0}) → M B → M B
m >> k = m >>= λ _. k

abbrev pub pure {ℓ} : {A : Type ℓ} → A → M A
pure a h = done (a, h)

-- A call that does not touch the connection.
abbrev pub lift {ℓ} : {A : Type ℓ} → Run A → M A
lift m h = elim m [ done a ↦ done (a, h) | panic ↦ panic | hang ↦ hang | stuck ↦ stuck ]

next_read : List (Option ℕ) → Option ℕ × List (Option ℕ)
next_read [] = (none, [])
next_read (r ∷ rs) = (r, rs)

unfoldable pub read : M (Option ℕ)
unfolding next_read
read h = let (r, rs) = next_read h.reads in done (r, record h { reads = rs })

unfoldable pub millis : M ℕ
millis h = done (h.clock h.ticks, record h { ticks = h.ticks + 1 })

unfoldable pub write : ℕ → M (Unit {0})
write b h = done (tt, record h { written = h.written ++ (b ∷ []) })

unfoldable pub write_bytes : List ℕ → M (Unit {0})
write_bytes [] = pure tt
write_bytes (b ∷ bs) = do write b; write_bytes bs

-- `connector.read().unwrap()`.
unfoldable pub read_unwrap : M ℕ
unfolding read
read_unwrap = do r ← read; lift (C.unwrap r)

-- `loop { match connector.read() { Some(byte) => … break, None => {} } }`: it waits for ever if
-- no byte comes.
unfoldable pub await_byte : List (Option ℕ) → Run (ℕ × List (Option ℕ))
await_byte [] = hang
await_byte (none ∷ rs) = await_byte rs
await_byte (some b ∷ rs) = done (b, rs)

unfoldable pub read_awaited : M ℕ
read_awaited h = elim (await_byte h.reads) [
  | done (b, rs) ↦ done (b, record h { reads = rs })
  | panic ↦ panic
  | hang ↦ hang
  | stuck ↦ stuck
]

-- `for i in 0..len { … data[i] = byte … }`, with the rounds left and `i`.
unfoldable pub fill_loop : ℕ → ℕ → List ℕ → M (List ℕ)
fill_loop zero i buf = pure buf
fill_loop (suc n) i buf = do
  b ← read_awaited
  lift (require (ltb i (length buf)))
  fill_loop n (i + 1) (set buf i b)

-- `Data::read`.
unfoldable pub read_data : ℕ → M Data
read_data len = do
  buf ← fill_loop len 0 zeros
  d ← lift (Data.new buf)
  pure (record d { len = len })
