-- ===== src/Common/Hashes.antt =====
-- What the services use of the hashes of a Redis database, which is no code of this repository: HGETALL,
-- HSET, HDEL, EXPIRE and SCAN. A value is a number, for the text that spells it; times are in seconds.
use Prim.Native.Nat.{ℕ, ◌+◌, ◌≤◌, ◌<◌}
use Prim.Native.String.{String}
use mathlib.Core.Path.{◌≡◌, refl, ap, ◌∙◌}
use mathlib.Core.Logic.{◌⊎◌, inl, inr}
use mathlib.Core.Bool.{Bool, true, false, ◌&&◌}
use mathlib.Core.Option.{Option, none, some}
use mathlib.Core.List.{List, [], ◌∷◌, map}
use native.Mathlib.Omega.{arith}
use text.Mathlib.Text.{◌==◌}
use ecommerce_services.Common.Tests.{if◌then◌else◌, ltb, Bool-cases, Text-cases, lt→ltb}
use ecommerce_services.Common.Dict
use ecommerce_services.Common.Dict.{
  Dict, lookup-insert, lookup-erase, lookup-erase_all, lookup-nil, contains, erase_all,
}

pub record Hashes : Type 1 where
  pub Store : Type 0
  pub empty : Store
  -- HGETALL key, at a time; a key that is not there reads as no fields.
  pub hgetall : ℕ → String → Store → Dict ℕ
  -- HSET key field value, HDEL key fields and EXPIRE key ttl, at a time.
  pub hset : ℕ → String → String → ℕ → Store → Store
  pub hdel : ℕ → String → List String → Store → Store
  pub expire : ℕ → String → ℕ → Store → Store
  -- SCAN over all keys.
  pub scan : ℕ → Store → List String
  pub hgetall-empty : (now : ℕ) (k : String) → hgetall now k empty ≡ []
  pub hget-hset :
      (now : ℕ) (k j f g : String) (v : ℕ) (s : Store)
      → Dict.lookup g (hgetall now j (hset now k f v s))
        ≡ (if k == j && f == g then some v else Dict.lookup g (hgetall now j s))
  pub hget-hdel :
      (now : ℕ) (k j g : String) (fs : List String) (s : Store)
      → Dict.lookup g (hgetall now j (hdel now k fs s))
        ≡ (if k == j && contains g fs then none else Dict.lookup g (hgetall now j s))
  pub hgetall-expire :
      (now : ℕ) (k j : String) (ttl : ℕ) (s : Store)
      → 0 < ttl
      → hgetall now j (expire now k ttl s) ≡ hgetall now j s
  -- As time passes a hash stays as it is or is gone.
  pub hgetall-later :
      (now later : ℕ) (k : String) (s : Store)
      → now ≤ later
      → (hgetall later k s ≡ hgetall now k s) ⊎ (hgetall later k s ≡ [])
  -- A full scan meets every key that is there.
  pub scan_all :
      (now : ℕ) (k : String) (s : Store) → contains k (scan now s) ≡ false → hgetall now k s ≡ []

-- A database that meets the interface: hashes with the times at which they end, if they do.
abbrev pub Timed : Type 0
Timed = Dict ℕ × Option ℕ

abbrev pub is_live : ℕ → Option ℕ → Bool
is_live now none = true
is_live now (some deadline) = ltb now deadline

abbrev pub live : ℕ → Option Timed → Timed
live now none = ([], none)
live now (some (h, deadline)) = if is_live now deadline then (h, deadline) else ([], none)

abbrev pub entry : ℕ → String → Dict Timed → Timed
entry now k s = live now (Dict.lookup k s)

abbrev pub put_hash : String → Timed → Dict Timed → Dict Timed
put_hash k e s = Dict.insert k e s

abbrev pub keys_of : Dict Timed → List String
keys_of s = map (λ (e : String × Timed). e.0) s

entry-put_hash :
    (now : ℕ) (k j : String) (e : Timed) (s : Dict Timed)
    → entry now j (put_hash k e s) ≡ (if k == j then live now (some e) else entry now j s)
entry-put_hash now k j e s = elim (Text-cases k j) [
  | inl (same, t) ↦ rw (lookup-insert k j e s, t)
  | inr (ne, t) ↦ rw (lookup-insert k j e s, t)
]

-- A new hash in place of that of a key, with the deadline that the key has.
abbrev pub changed : ℕ → String → (Dict ℕ → Dict ℕ) → Dict Timed → Dict Timed
changed now k f s = put_hash k (f (entry now k s).0, (entry now k s).1) s

live-changed :
    (now : ℕ) (f : Dict ℕ → Dict ℕ) (o : Option Timed)
    → (live now (some (f (live now o).0, (live now o).1))).0 ≡ f (live now o).0
live-changed now f none = refl
live-changed now f (some (h, none)) = refl
live-changed now f (some (h, some d)) = ground arith

pub hgetall-changed :
    (now : ℕ) (k j : String) (f : Dict ℕ → Dict ℕ) (s : Dict Timed)
    → (entry now j (changed now k f s)).0
      ≡ (if k == j then f (entry now j s).0 else (entry now j s).0)
hgetall-changed now k j f s = elim (Text-cases k j) [
  | inl (same, t) ↦
      rw (entry-put_hash, t)
        (live-changed now f (Dict.lookup k s) ∙ ap (λ i. f (entry now i s).0) same)
  | inr (ne, t) ↦ rw (entry-put_hash, t)
]

abbrev pub expired_at : ℕ → String → ℕ → Dict Timed → Dict Timed
expired_at now k ttl s = put_hash k ((entry now k s).0, some (now + ttl)) s

pub hgetall-expired_at :
    (now : ℕ) (k j : String) (ttl : ℕ) (s : Dict Timed)
    → 0 < ttl
    → (entry now j (expired_at now k ttl s)).0 ≡ (entry now j s).0
hgetall-expired_at now k j ttl s h = elim (Text-cases k j) [
  | inl (same, t) ↦
      rw (entry-put_hash, t, lt→ltb now (now + ttl) (omega arith))
        (ap (λ i. (entry now i s).0) same)
  | inr (ne, t) ↦ rw (entry-put_hash, t)
]

pub live-later :
    (now later : ℕ) (o : Option Timed)
    → now ≤ later
    → ((live later o).0 ≡ (live now o).0) ⊎ ((live later o).0 ≡ [])
live-later now later none h = inl refl
live-later now later (some (x, none)) h = inl refl
live-later now later (some (x, some d)) h = elim (Bool-cases (ltb later d)) [
  | inl t ↦ inl (rw (t, lt→ltb now d (ground arith)))
  | inr f ↦ inr (rw f)
]

pub keys_of-all :
    (now : ℕ) (k : String) (s : Dict Timed)
    → contains k (keys_of s) ≡ false
    → (entry now k s).0 ≡ []
unfolding contains Dict.lookup
keys_of-all now k [] h = refl
keys_of-all now k ((j, e) ∷ s) h = elim (Bool-cases (j == k)) [
  | inl t ↦ absurd (ground arith)
  | inr f ↦ rw f (keys_of-all now k s (ground (arith, f)))
]

pub if_insert :
    (now : ℕ) (k j f g : String) (v : ℕ) (s : Dict Timed)
    → Dict.lookup g (if k == j then Dict.insert f v (entry now j s).0 else (entry now j s).0)
      ≡ (if k == j && f == g then some v else Dict.lookup g (entry now j s).0)
if_insert now k j f g v s = elim (Bool-cases (k == j)) [
  | inl t ↦ rw t (lookup-insert f g v (entry now j s).0)
  | inr e ↦ rw e
]

pub if_erase :
    (now : ℕ) (k j g : String) (fs : List String) (s : Dict Timed)
    → Dict.lookup g (if k == j then erase_all fs (entry now j s).0 else (entry now j s).0)
      ≡ (if k == j && contains g fs then none else Dict.lookup g (entry now j s).0)
if_erase now k j g fs s = elim (Bool-cases (k == j)) [
  | inl t ↦ rw t (lookup-erase_all fs g (entry now j s).0)
  | inr e ↦ rw e
]

abbrev pub dict_hashes : Hashes
dict_hashes = record {
  Store = Dict Timed;
  empty = [];
  hgetall = λ now k s. (entry now k s).0;
  hset = λ now k f v s. changed now k (Dict.insert f v) s;
  hdel = λ now k fs s. changed now k (erase_all fs) s;
  expire = expired_at;
  scan = λ now s. keys_of s;
  hgetall-empty = λ now k. rw lookup-nil;
  hget-hset = λ now k j f g v s. rw hgetall-changed (if_insert now k j f g v s);
  hget-hdel = λ now k j g fs s. rw hgetall-changed (if_erase now k j g fs s);
  hgetall-expire = hgetall-expired_at;
  hgetall-later = λ now later k s h. live-later now later (Dict.lookup k s) h;
  scan_all = keys_of-all;
}
