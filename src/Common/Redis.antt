-- ===== src/Common/Redis.antt =====
-- What the services use of a Redis database, which is no code of this repository: GET, SET with EX,
-- SET with NX and EX, and DEL. `V` is the type of the stored values: the services store JSON text and
-- read it back by `json.loads`, so a value stands for its text. Times are in seconds.
use ecommerce_services.Common.Tests.{if◌then◌else◌, ltb}
use ecommerce_services.Common.Dict
use ecommerce_services.Common.Dict.{Dict, lookup-insert, lookup-erase, lookup-nil}
use Prim.Native.Nat.{ℕ, ◌+◌}
use Prim.Native.String.{String}
use mathlib.Core.Path.{◌≡◌, refl}
use mathlib.Core.Bool.{Bool, true, false}
use mathlib.Core.Option.{Option, none, some}
use mathlib.Core.List.{[]}
use native.Mathlib.Omega.{arith}
use text.Mathlib.Text.{◌==◌}

-- Whether a lookup found something.
abbrev pub is_some {ℓ} : {A : Type ℓ} → Option A → Bool
is_some none = false
is_some (some a) = true

pub record Redis (V : Type 0) : Type 1 where
  pub Store : Type 0
  pub empty : Store
  -- GET key, at a time.
  pub get : ℕ → String → Store → Option V
  -- SET key value EX ttl, at a time.
  pub set_ex : ℕ → String → V → ℕ → Store → Store
  -- SET key value NX EX ttl, at a time: whether the key was set.
  pub set_nx : ℕ → String → V → ℕ → Store → Bool × Store
  -- DEL key.
  pub delete : String → Store → Store
  pub get-empty : (now : ℕ) (k : String) → get now k empty ≡ none
  -- A value is there until its time to live has passed.
  pub get-set_ex :
      (now t ttl : ℕ) (k j : String) (v : V) (s : Store)
      → get now j (set_ex t k v ttl s)
        ≡ (if k == j then (if ltb now (t + ttl) then some v else none) else get now j s)
  -- NX: a key that is there is left alone, any other is set.
  pub set_nx-eq :
      (t ttl : ℕ) (k : String) (v : V) (s : Store)
      → set_nx t k v ttl s
        ≡ (if is_some (get t k s) then (false, s) else (true, set_ex t k v ttl s))
  pub get-delete :
      (now : ℕ) (k j : String) (s : Store)
      → get now j (delete k s) ≡ (if k == j then none else get now j s)

-- A database that meets the interface: a dictionary of values with their times of expiry.
module _ (V : Type 0) where
  abbrev pub Timed : Type 0
  Timed = V × ℕ

  abbrev pub live : ℕ → Option Timed → Option V
  live now none = none
  live now (some (v, expires)) = if ltb now expires then some v else none

  abbrev pub get_live : ℕ → String → Dict Timed → Option V
  get_live now k s = live now (Dict.lookup k s)

  abbrev pub put_timed : ℕ → String → V → ℕ → Dict Timed → Dict Timed
  put_timed t k v ttl s = Dict.insert k (v, t + ttl) s

  pub get_live-put_timed :
      (now t ttl : ℕ) (k j : String) (v : V) (s : Dict Timed)
      → get_live now j (put_timed t k v ttl s)
        ≡ (if k == j then (if ltb now (t + ttl) then some v else none) else get_live now j s)
  get_live-put_timed now t ttl k j v s = simp lookup-insert (ground arith)

  pub get_live-erase :
      (now : ℕ) (k j : String) (s : Dict Timed)
      → get_live now j (Dict.erase k s) ≡ (if k == j then none else get_live now j s)
  get_live-erase now k j s = simp lookup-erase (ground arith)

  abbrev pub dict_redis : Redis V
  dict_redis = record {
    Store = Dict Timed;
    empty = [];
    get = get_live;
    set_ex = put_timed;
    set_nx = λ t k v ttl s.
        if is_some (get_live t k s) then (false, s) else (true, put_timed t k v ttl s);
    delete = Dict.erase;
    get-empty = λ now k. rw lookup-nil;
    get-set_ex = get_live-put_timed;
    set_nx-eq = λ t ttl k v s. refl;
    get-delete = get_live-erase;
  }
