-- ===== src/Examples/Security.antt =====
-- The theorems on the security manager, with primitives that are reliable but not secret.
use bleps.Common.{
  Returns, ℕ, ◌+◌, ◌≡◌, refl, ap, true, false, some, List, [], ◌∷◌, arith, done, ok, err, Ends, inl,
  be_bytes, be_value, le_bytes,
}
use bleps.Data.{Data}
use bleps.Crypto.{Primitives, IsReliable, Rng, IoCap, PublicKey, f5, dh_key, public_key, is_debug}
use bleps.Crypto.Agreement.{same_point, dh_key_accepts}
use bleps.Event.{Addr}
use bleps.Sm.{World, security_manager_new, handle, displayed, sm_error_byte}
use bleps.Server.{security_manager_error}
use bleps.Sm.Steps.{own_key, own_nonce, handle_lem}
use bleps.Sm.Unchecked.{before_random, own_check, after_random, converse_any_check}
use bleps.Sm.Replies.{said, request_lem}
use bleps.Sm.Total.{random, handle_returns}
use bleps.Sm.Consistent.{Advances, Consistent, handle-Consistent}
use bleps.Sm.Order.{before_key, message, start, handle-Early}
use bleps.Sm.Pairing.{
  Peer, converse, connected, pairing_agrees, peer_ltk, peer_code, answers, request_bytes,
  key_message, random_bytes, check_bytes,
}
use bleps.Examples.{data_of, data_of-Represents, silent}

-- A key exchange by addition, and a tag by addition: no secrets, but two sides that agree.
abbrev pub toy : Primitives
toy = record {
  aes_cmac = λ key message. be_bytes 16 (be_value 0 key + be_value 0 message);
  public_point = λ secret. (be_bytes 32 secret, be_bytes 32 (secret + 1));
  is_point = λ x y. true;
  diffie_hellman =
      λ secret point. be_bytes 32 (be_value 0 (be_bytes 32 secret) + be_value 0 point.0);
}

secret_comm : (u v : ℕ) → be_bytes 32 (u + v) ≡ be_bytes 32 (v + u)
secret_comm u v = ap (be_bytes 32) (omega arith)

toy-IsReliable : IsReliable toy
toy-IsReliable = record {
  x_size = λ secret. refl;
  y_size = λ secret. refl;
  on_curve = λ secret. refl;
  shared_secret = λ a b. secret_comm (be_value 0 (be_bytes 32 a)) (be_value 0 (be_bytes 32 b));
}

abbrev pub addr_a : Addr
addr_a = record { bytes = 0 ∷ 1 ∷ 2 ∷ 3 ∷ 4 ∷ 5 ∷ 6 ∷ [] }

abbrev pub addr_b : Addr
addr_b = record { bytes = 1 ∷ 9 ∷ 8 ∷ 7 ∷ 6 ∷ 5 ∷ 4 ∷ [] }

abbrev pub rng : Rng
rng = record { scalars = λ n. n + 5; blocks = λ n. le_bytes 16 (n + 7); drawn = 0 }

abbrev fresh_world : World (List ℕ)
fresh_world = record {
  manager = security_manager_new rng;
  hci = silent;
  app = [];
  pin_callback = some (λ code shown. code ∷ shown);
}

abbrev phone : Peer
phone = record { secret = 77; nonce = 99; io = 4; oob = 0; auth = 0x0d; features = 16 ∷ 0 ∷ 0 ∷ [] }

abbrev device_key : PublicKey
device_key = own_key toy fresh_world

dh_key_accepts_example :
    (is_debug (public_key toy 77) ≡ false)
    × (toy.is_point (public_key toy 77).x (public_key toy 77).y ≡ true)
    × (same_point ((public_key toy 77).x, (public_key toy 77).y) (toy.public_point 5) ≡ false)
    × (toy.diffie_hellman 77 (toy.public_point 5)
        ≡ toy.diffie_hellman 5 ((public_key toy 77).x, (public_key toy 77).y))
unfolding public_key dh_key is_debug
dh_key_accepts_example =
    dh_key_accepts toy 5 (public_key toy 77) (toy.diffie_hellman 77 (toy.public_point 5)) refl

-- After a pairing request.
abbrev asked : World (List ℕ)
asked =
    said
      (record fresh_world {
        manager = record fresh_world.manager {
          ioa = some (record { auth_req = 0x0d; oob_data = false; io_cap = 4 });
        };
      })
      64 (0x02 ∷ 0x01 ∷ 0x00 ∷ 0x2d ∷ 0x10 ∷ 0x00 ∷ 0x00 ∷ [])

asking_lem : handle toy fresh_world 64 (data_of (0x01 ∷ 4 ∷ 0 ∷ 0x0d ∷ [])) ≡ done (ok tt, asked)
asking_lem =
    rw
      (
        handle_lem toy fresh_world 64 (data_of-Represents (0x01 ∷ 4 ∷ 0 ∷ 0x0d ∷ []) (omega arith)),
        request_lem fresh_world 64 4 0 0x0d [],
      )
      refl

-- A random value behind a pairing request, with no public key.
handle-Early_example :
    handle toy asked 64 (data_of (0x04 ∷ []))
    ≡ done (err security_manager_error, said asked 64 (0x05 ∷ 0x08 ∷ []))
unfolding sm_error_byte security_manager_new
handle-Early_example =
    handle-Early toy 64
      (before_key fresh_world 0x04 refl
        (message 64 start (data_of-Represents (0x01 ∷ 4 ∷ 0 ∷ 0x0d ∷ []) (omega arith)) refl
          asking_lem)
        refl)
      (data_of-Represents (0x04 ∷ []) (omega arith))

handle-Consistent_example :
    Ends
      (λ r. Advances toy fresh_world.manager r.1.manager)
      (handle toy fresh_world 64
        (data_of (key_message toy toy-IsReliable phone fresh_world 64 addr_a addr_b)))
unfolding security_manager_new
handle-Consistent_example =
    handle-Consistent toy fresh_world 64
      (data_of (key_message toy toy-IsReliable phone fresh_world 64 addr_a addr_b))
      (inl refl, inl refl)

abbrev phone_io : IoCap
phone_io = record { auth_req = 0x0d; oob_data = false; io_cap = 4 }

abbrev answered : World (List ℕ)
answered =
    after_random toy toy-IsReliable fresh_world 64 8 (public_key toy 77) device_key (3 ∷ [])
      phone_io addr_a addr_b 9

-- A check value of two bytes, which no peer computes.
converse_any_check_example :
    (converse toy
        (before_random toy toy-IsReliable fresh_world 64 8
          (public_key toy 77)
          device_key
          (3 ∷ [])
          phone_io
          addr_a
          addr_b)
        64
        (data_of (0x04 ∷ le_bytes 16 9) ∷ data_of (0x0d ∷ 1 ∷ 2 ∷ []) ∷ [])
      ≡ done (
        ok tt,
        said answered 64 (
            0x0d
            ∷ le_bytes 16 (
                own_check toy toy-IsReliable fresh_world 64 8
                  (public_key toy 77)
                  device_key
                  (3 ∷ [])
                  phone_io
                  addr_a
                  addr_b
                  9)),
      ))
    × (answered.manager.ltk ≡ some (f5 toy (3 ∷ []) 9 8 addr_a addr_b).1)
converse_any_check_example =
    converse_any_check toy toy-IsReliable fresh_world 64 8 (public_key toy 77) device_key (3 ∷ [])
      phone_io addr_a addr_b 9 (1 ∷ 2 ∷ []) (omega arith)
      (data_of-Represents (0x04 ∷ le_bytes 16 9) (omega arith))
      (data_of-Represents (0x0d ∷ 1 ∷ 2 ∷ []) (omega arith))

abbrev messages : List Data
messages =
    data_of (request_bytes toy toy-IsReliable phone fresh_world 64 addr_a addr_b)
    ∷ data_of (key_message toy toy-IsReliable phone fresh_world 64 addr_a addr_b)
    ∷ data_of (random_bytes toy toy-IsReliable phone fresh_world 64 addr_a addr_b)
    ∷ data_of (check_bytes toy toy-IsReliable phone fresh_world 64 addr_a addr_b)
    ∷ []

pairing_agrees_example :
    let nonce = own_nonce toy fresh_world in
    (w' : World (List ℕ)) × (converse toy
        (connected toy toy-IsReliable phone fresh_world 64 addr_a addr_b)
        64
        messages
      ≡ done (ok tt, w'))
    × (w'.manager.ltk ≡ some (peer_ltk toy phone device_key nonce addr_a addr_b))
    × (w'.hci.written ≡ answers toy phone device_key nonce addr_a addr_b 64)
    × (w'.app ≡ displayed toy fresh_world (peer_code toy phone device_key nonce addr_a addr_b))
unfolding public_key security_manager_new is_debug
pairing_agrees_example =
    pairing_agrees toy toy-IsReliable phone fresh_world 64 addr_a addr_b
      (data_of-Represents _ (omega arith)) (data_of-Represents _ (omega arith))
      (data_of-Represents _ (omega arith)) (data_of-Represents _ (omega arith)) (omega arith) refl
      refl refl

-- A random value of 16 bytes, before any other message.
abbrev early_random : List ℕ
early_random = 1 ∷ 2 ∷ 3 ∷ 4 ∷ 5 ∷ 6 ∷ 7 ∷ 8 ∷ 9 ∷ 10 ∷ 11 ∷ 12 ∷ 13 ∷ 14 ∷ 15 ∷ 16 ∷ []

handle_returns_example :
    Returns
      (handle toy fresh_world 64 (data_of (0x04 ∷ early_random)))
      (λ r. Consistent toy r.1.manager)
unfolding security_manager_new
handle_returns_example =
    handle_returns toy toy-IsReliable fresh_world 64 (random early_random refl)
      (data_of-Represents (0x04 ∷ early_random) (omega arith)) (inl refl, inl refl) refl
