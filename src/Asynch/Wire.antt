-- ===== src/Asynch/Wire.antt =====
-- The connection of the asynchronous copies of bleps/src/lib.rs (768-797), bleps/src/acl.rs (60-79)
-- and bleps/src/event.rs (313-329), and the reading of packets from it.
use bleps.Common.{
  ℕ, zero, suc, ◌+◌, ◌-◌, List, [], ◌∷◌, ◌++◌, leb, ◌==◌, if◌then◌else◌, length, take, drop,
  replicate, Run, done, panic, hang, stuck, require, u16_of,
}
use bleps.Data
use bleps.Data.{Data, zeros, index, copy_at}
use bleps.Acl.{AclPacket, decode_raw_handle}
use bleps.Event.{EventType, decode}

-- `chunks` is what arrives: a `read` is answered from the first of them, and waits when there is
-- none; no chunk is empty. `accepts n` is how many bytes the `n`-th `write` takes.
pub record Wire : Type 0 where
  pub chunks : List (List ℕ)
  pub clock : ℕ → ℕ
  pub ticks : ℕ
  pub accepts : ℕ → ℕ
  pub writes : ℕ
  pub written : List ℕ

abbrev pub M {ℓ} : Type ℓ → Type ℓ
M A = Wire → Run (A × Wire)

infixl 5 ◌>>=◌ ◌>>◌
abbrev pub ◌>>=◌ {ℓ κ} : {A : Type ℓ} {B : Type κ} → M A → (A → M B) → M B
◌>>=◌ m f w = elim (m w) [ done (a, w') ↦ f a w' | panic ↦ panic | hang ↦ hang | stuck ↦ stuck ]

abbrev pub ◌>>◌ {ℓ} : {B : Type ℓ} → M (Unit {0}) → M B → M B
m >> k = m >>= λ _. k

abbrev pub pure {ℓ} : {A : Type ℓ} → A → M A
pure a w = done (a, w)

abbrev pub lift {ℓ} : {A : Type ℓ} → Run A → M A
lift m w = elim m [ done a ↦ done (a, w) | panic ↦ panic | hang ↦ hang | stuck ↦ stuck ]

abbrev pub left_over : ℕ → List ℕ → List (List ℕ) → List (List ℕ)
left_over n c cs = if leb (length c) n then cs else drop n c ∷ cs

-- `read` into a buffer of `n` bytes: the bytes that it gets.
unfoldable pub read : ℕ → M (List ℕ)
read n w = if n == 0 then done ([], w) else elim w.chunks [
  | [] ↦ hang
  | c ∷ cs ↦ done (take n c, record w { chunks = left_over n c cs })
]

-- `read` into a buffer of zeros whose length is not compared with the result.
unfoldable pub read_buffer : ℕ → M (List ℕ)
read_buffer n = do bytes ← read n; pure (bytes ++ replicate (n - length bytes) 0)

unfoldable pub read_byte : M ℕ
read_byte = do buffer ← read_buffer 1; lift (index buffer 0)

-- `write`, whose result, the number of bytes taken, is not looked at.
unfoldable pub write_bytes : List ℕ → M (Unit {0})
write_bytes bytes w =
    done (
      tt,
      record w { written = w.written ++ take (w.accepts w.writes) bytes; writes = w.writes + 1 },
    )

unfoldable pub millis : M ℕ
millis w = done (w.clock w.ticks, record w { ticks = w.ticks + 1 })

-- The loop of `Data::async_read`, for `len` bytes into a buffer filled up to `idx`.
unfoldable pub read_loop : ℕ → ℕ → ℕ → List ℕ → M (List ℕ)
read_loop zero idx len buffer = λ w. stuck
read_loop (suc fuel) idx len buffer = do
  lift (require (leb (idx + len) 256))
  bytes ← read len
  buffer ← lift (copy_at buffer idx bytes)
  let rest = read_loop fuel (idx + length bytes) len buffer
  if leb len (idx + length bytes) then pure buffer else rest

-- Every round takes a chunk, or bytes of one.
abbrev pub total : List (List ℕ) → ℕ
total [] = 0
total (c ∷ cs) = suc (length c) + total cs

-- `Data::async_read`.
unfoldable pub read_data : ℕ → M Data
read_data len = do
  buffer ← λ w. read_loop (suc (total w.chunks)) 0 len zeros w
  d ← lift (Data.new buffer)
  pure (record d { len = len })

-- `AclPacket::async_read`.
unfoldable pub read_acl : M AclPacket
read_acl = do
  raw ← read_buffer 2
  raw0 ← lift (index raw 0)
  raw1 ← lift (index raw 1)
  (pb, bc, handle) ← lift (decode_raw_handle raw0 raw1)
  lens ← read_buffer 2
  len0 ← lift (index lens 0)
  len1 ← lift (index lens 1)
  payload ← read_data (u16_of len0 len1)
  pure (record { handle = handle; boundary_flag = pb; bc_flag = bc; payload = payload })

-- `Event::async_read` and `EventType::async_read`.
unfoldable pub read_event : M EventType
read_event = do
  code ← read_byte
  len ← read_byte
  payload ← read_data len
  lift (decode code payload)
