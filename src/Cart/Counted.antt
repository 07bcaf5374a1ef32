-- ===== src/Cart/Counted.antt =====
-- The abandonment scan counts each idle cart once.
use mathlib.Core.Path.{fun_ext}
use ecommerce_services.Common.{
  ℕ, ◌+◌, String, Bool, true, false, not, ◌&&◌, some, List, [], ◌∷◌, ◌≡◌, refl, sym, ap, ◌∙◌, inl,
  inr, arith, ◌==◌, eq_iff, eq_refl, if◌then◌else◌, Bool-cases, Text-cases,
}
use ecommerce_services.Common.Dict
use ecommerce_services.Common.Dict.{Dict, contains}
use ecommerce_services.Common.Redis.{is_some}
use ecommerce_services.Common.Hashes.{Hashes}
use ecommerce_services.Cart.Defs.{
  Settings, Carts, is_meta, updated_at_field, abandonment_counted_field,
}
use ecommerce_services.Cart.Items.{has_items}
use ecommerce_services.Cart.Abandonment.{is_abandoned, count_abandoned, abandonment_pass}

has_items-field :
    (h : Dict ℕ)
    → has_items h ≡ true
    → (f : String) × (is_meta f ≡ false) × (is_some (Dict.lookup f h) ≡ true)
unfolding has_items Dict.lookup
has_items-field [] e = cc
has_items-field ((f, v) ∷ h) e = elim (Bool-cases (is_meta f)) [
  | inr product ↦ (f, product, rw (eq_refl f))
  | inl meta ↦
      let (g, product, there) = has_items-field h (ground arith) in
      (g, product, ground (arith, eq_iff f g, meta, there))
]

field-has_items :
    (f : String) (h : Dict ℕ)
    → is_meta f ≡ false
    → is_some (Dict.lookup f h) ≡ true
    → has_items h ≡ true
unfolding has_items Dict.lookup
field-has_items f [] product there = cc
field-has_items f ((g, v) ∷ h) product there = elim (Text-cases g f) [
  | inl (e, t) ↦ rw (e, product)
  | inr (ne, t) ↦ ground (arith, t, field-has_items f h product)
]

-- What is asked of a hash depends on its fields alone.
has_items-same :
    (h h' : Dict ℕ)
    → ((f : String) → Dict.lookup f h' ≡ Dict.lookup f h)
    → has_items h' ≡ has_items h
has_items-same h h' same = elim (Bool-cases (has_items h)) [
  | inl t ↦
      let (f, product, there) = has_items-field h t in
      field-has_items f h' product (ap is_some (same f) ∙ there) ∙ sym t
  | inr e ↦ elim (Bool-cases (has_items h')) [
    | inr e' ↦ e' ∙ sym e
    | inl t ↦
        let (f, product, there) = has_items-field h' t in
        absurd (cc (field-has_items f h product (ap is_some (sym (same f)) ∙ there)))
  ]
]

is_abandoned-same :
    (threshold now : ℕ) (h h' : Dict ℕ)
    → ((f : String) → Dict.lookup f h' ≡ Dict.lookup f h)
    → is_abandoned threshold now h' ≡ is_abandoned threshold now h
unfolding is_abandoned
is_abandoned-same threshold now h h' same =
    rw (same abandonment_counted_field, same updated_at_field, has_items-same h h' same)

-- How many different keys of a list pass a test.
unfoldable pub distinct : (String → Bool) → List String → ℕ
distinct p [] = 0
distinct p (k ∷ ks) = (if p k && not (contains k ks) then 1 else 0) + distinct p ks

abbrev without : String → (String → Bool) → String → Bool
without k p j = if k == j then false else p j

distinct-without :
    (k : String) (p : String → Bool) (ks : List String)
    → distinct (without k p) ks + (if p k && contains k ks then 1 else 0) ≡ distinct p ks
unfolding distinct contains
distinct-without k p [] = ground arith
distinct-without k p (j ∷ ks) = elim (Text-cases k j) [
  | inl (e, t) ↦ rw (← e) (ground (arith, eq_refl k, distinct-without k p ks))
  | inr (ne, t) ↦ ground (arith, t, eq_iff j k, eq_iff k j, distinct-without k p ks)
]

module _ (H : Hashes) (settings : Settings) where
  abbrev pub is_idle : Carts H → String → Bool
  is_idle s k =
      is_abandoned settings.cart_abandonment_threshold_seconds s.now (H.hgetall s.now k s.store)

  abbrev marked : String → Carts H → Carts H
  marked k s = record s {
    store = H.hset s.now k abandonment_counted_field 1 s.store;
    abandonment_total = s.abandonment_total + 1;
  }

  is_idle-marked :
      (k : String) (s : Carts H) (j : String) → is_idle (marked k s) j ≡ without k (is_idle s) j
  is_idle-marked k s j = elim (Text-cases k j) [
    | inl (e, t) ↦ rw t (
        unfold is_abandoned in
        rw (H.hget-hset s.now k j abandonment_counted_field abandonment_counted_field 1 s.store, t))
    | inr (ne, t) ↦ rw t (
        is_abandoned-same settings.cart_abandonment_threshold_seconds s.now
          (H.hgetall s.now j s.store) _
          (λ f. H.hget-hset s.now k j abandonment_counted_field f 1 s.store ∙ rw t))
  ]

  -- What a pass over some keys has done.
  abbrev Passed : List String → ℕ → Carts H → ℕ × Carts H → Type 0
  Passed ks n s (m, s') =
      (m ≡ n + distinct (is_idle s) ks)
      × (s'.abandonment_total + n ≡ s.abandonment_total + m)
      × ((j : String) → is_idle s' j ≡ (is_idle s j && not (contains j ks)))
      × ((j f : String)
          → Dict.lookup f (H.hgetall s.now j s'.store) ≡ (
              if is_idle s j && contains j ks && f == abandonment_counted_field
              then some 1
              else Dict.lookup f (H.hgetall s.now j s.store)))
      × (s'.now ≡ s.now)

  step-Passed :
      (k : String) (ks : List String) (n : ℕ) (s : Carts H) (r : ℕ × Carts H)
      → is_idle s k ≡ true
      → Passed ks (n + 1) (marked k s) r
      → Passed (k ∷ ks) n s r
  unfolding distinct contains
  step-Passed k ks n s (m, s') idle (number, total, idles, fields, at) = (
    number
        ∙ ap (λ (p : String → Bool). n + 1 + distinct p ks) (fun_ext (is_idle-marked k s))
        ∙ ground (arith, idle, distinct-without k (is_idle s) ks),
    omega (arith, total),
    λ j.
        ground
          (arith, idles j, is_idle-marked k s j, eq_iff k j, ap (is_idle s) {x = k} {y = j}, idle),
    λ j f.
        let mark = abandonment_counted_field in
        elim (Text-cases k j) [
          | inl (e, t) ↦ ground (
            arith,
            fields j f,
            is_idle-marked k s j,
            t,
            ap (is_idle s) (sym e) ∙ idle,
            H.hget-hset s.now k j mark f 1 s.store,
            eq_iff mark f,
            eq_iff f mark,
          )
          | inr (ne, t) ↦
              ground
                (arith, fields j f, is_idle-marked k s j, t, H.hget-hset s.now k j mark f 1 s.store)
        ],
    at,
  )

  skip-Passed :
      (k : String) (ks : List String) (n : ℕ) (s : Carts H) (r : ℕ × Carts H)
      → is_idle s k ≡ false
      → Passed ks n s r
      → Passed (k ∷ ks) n s r
  unfolding distinct contains
  skip-Passed k ks n s (m, s') busy (number, total, idles, fields, at) = (
    ground (arith, number, busy),
    total,
    λ j. elim (Text-cases k j) [
      | inl (e, t) ↦ ground (arith, idles j, t, ap (is_idle s) (sym e) ∙ busy)
      | inr (ne, t) ↦ ground (arith, idles j, t)
    ],
    λ j f. elim (Text-cases k j) [
      | inl (e, t) ↦ ground (arith, fields j f, t, ap (is_idle s) (sym e) ∙ busy)
      | inr (ne, t) ↦ ground (arith, fields j f, t)
    ],
    at,
  )

  count_abandoned-Passed :
      (ks : List String) (n : ℕ) (s : Carts H) → Passed ks n s (count_abandoned H settings ks n s)
  unfolding count_abandoned
  count_abandoned-Passed [] n s = (
    unfold distinct in omega arith,
    omega arith,
    λ j. unfold contains in ground arith,
    λ j f. unfold contains in ground arith,
    refl,
  )
  count_abandoned-Passed (k ∷ ks) n s = elim (Bool-cases (is_idle s k)) [
    | inl idle ↦
        rw (idle, count_abandoned)
          (step-Passed k ks n s (count_abandoned H settings ks (n + 1) (marked k s)) idle
            (count_abandoned-Passed ks (n + 1) (marked k s)))
    | inr busy ↦
        rw (busy, count_abandoned)
          (skip-Passed k ks n s (count_abandoned H settings ks n s) busy
            (count_abandoned-Passed ks n s))
  ]

  -- A key that the scan has not met holds no cart.
  is_idle-scan :
      (s : Carts H) (j : String) → contains j (H.scan s.now s.store) ≡ false → is_idle s j ≡ false
  is_idle-scan s j e =
      ap (is_abandoned settings.cart_abandonment_threshold_seconds s.now)
        (H.scan_all s.now j s.store e)
      ∙ (unfold is_abandoned in unfold has_items in ground arith)

  none_idle :
      (ks : List String) (n : ℕ) (s : Carts H)
      → ((j : String) → is_idle s j ≡ false)
      → count_abandoned H settings ks n s ≡ (n, s)
  unfolding count_abandoned
  none_idle [] n s h = refl
  none_idle (k ∷ ks) n s h = rw (h k, count_abandoned) (none_idle ks n s h)

  -- What a pass of the scan has done, and a second pass does.
  unfoldable pub Counts : Carts H → ℕ × Carts H → Type 0
  Counts s (n, s') =
      (n ≡ distinct (is_idle s) (H.scan s.now s.store))
      × (s'.abandonment_total ≡ s.abandonment_total + n)
      × ((j f : String)
          → Dict.lookup f (H.hgetall s.now j s'.store) ≡ (
              if is_idle s j && f == abandonment_counted_field
              then some 1
              else Dict.lookup f (H.hgetall s.now j s.store)))
      × (abandonment_pass H settings s' ≡ (0, s'))

  -- A pass counts each idle cart once, however often the scan of Redis meets its key: carts that have
  -- items, no mark and a last write as old as the threshold. It marks those carts, changes nothing else
  -- in any cart, and a second pass at the same time counts none.
  pub abandonment_pass-Counts : (s : Carts H) → Counts s (abandonment_pass H settings s)
  unfolding Counts abandonment_pass
  abandonment_pass-Counts s =
      let ks = H.scan s.now s.store in
      let (n, s') = count_abandoned H settings ks 0 s in
      let (number, total, idles, fields, at) = count_abandoned-Passed ks 0 s in
      let rested : (j : String) → is_idle s' j ≡ false = λ j. elim (Bool-cases (contains j ks)) [
        | inl met ↦ ground (arith, idles j, met)
        | inr missed ↦ ground (arith, idles j, is_idle-scan s j missed)
      ] in
      (
        number ∙ omega arith,
        omega (arith, total),
        λ j f. elim (Bool-cases (contains j ks)) [
          | inl met ↦ ground (arith, fields j f, met)
          | inr missed ↦ ground (arith, fields j f, is_idle-scan s j missed)
        ],
        none_idle (H.scan s'.now s'.store) 0 s' rested,
      )
