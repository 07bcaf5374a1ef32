-- ===== src/Order/Stock.antt =====
-- What the checkout saga does to the stock of the catalog, when every call is answered.
use ecommerce_services.Common.{
  ℕ, ◌+◌, String, true, Option, none, some, List, [], ◌∷◌, ◌++◌, ◌≡◌, ◌≢◌, refl, sym, ap, ◌∙◌, ◌⊎◌,
  inl, inr, All, arith, append_assoc, append-nil,
}
use ecommerce_services.Common.Int.{ℤ}
use ecommerce_services.Common.Redis.{is_some}
use ecommerce_services.Shared.{Response}
use ecommerce_services.Catalog.{ReserveResponse}
use ecommerce_services.Order.Services.{
  Services, headers, share, less, more, less-zero, less-less, more-zero, more-more, is_some-less,
  is_some-more,
}
use ecommerce_services.Order.World.{World, Settings, answered}
use ecommerce_services.Order.Clients.{
  Reservation, reserved, not_reserved, read_reservation, stock_request, reserve_stock,
  release_stock,
}
use ecommerce_services.Order.Saga.{Line, reserve_all, release_all}

-- The quantity of product `j` in the lines of an order.
unfoldable pub ordered : String → List Line → ℕ
ordered j [] = 0
ordered j ((p, q) ∷ lines) = share j p q + ordered j lines

pub Reservation-cases :
    (x : Reservation) → (x ≡ reserved) ⊎ ((reason : String) × (x ≡ not_reserved reason))
Reservation-cases reserved = inl refl
Reservation-cases (not_reserved reason) = inr (reason, refl)

-- A reservation is read as granted exactly when the status is 200.
read_reservation-cases :
    (r : Response ReserveResponse)
    → ((r.status_code ≡ 200) × (read_reservation (answered r) ≡ reserved))
      ⊎ ((r.status_code ≢ 200)
          × (reason : String) × (read_reservation (answered r) ≡ not_reserved reason))
unfolding read_reservation
read_reservation-cases r = elim (Reservation-cases (read_reservation (answered r))) [
  | inl e ↦ inl (ground arith, e)
  | inr (reason, e) ↦ inr (ground arith, reason, e)
]

module _ (S : Services) (settings : Settings) where
  abbrev pub stock_in : World S → String → Option ℤ
  stock_in w j = S.catalog.stock w.catalog j

  pub reserve_stock_quiet :
      (p : String) (q : ℕ) (order_id : String) (w : World S)
      → w.fates ≡ []
      → let (r, c) =
          S.catalog.reserve
            (headers w.request_id settings.internal_service_token "order-service")
            (stock_request S settings p q order_id)
            w.catalog in
        reserve_stock S settings p q order_id w
        ≡ (read_reservation (answered r), record w { catalog = c })
  unfolding reserve_stock
  reserve_stock_quiet p q order_id w e = rw e

  pub release_stock_quiet :
      (p : String) (q : ℕ) (order_id : String) (w : World S)
      → w.fates ≡ []
      → release_stock S settings p q order_id w ≡ record w {
        catalog =
            (S.catalog.release
              (headers w.request_id settings.internal_service_token "order-service")
              (stock_request S settings p q order_id)
              w.catalog).1;
      }
  unfolding release_stock
  release_stock_quiet p q order_id w e = rw e

  reserve_all_so_far :
      (lines : List Line) (order_id : String) (so_far : List Line) (w : World S)
      → reserve_all S settings lines order_id so_far w ≡ (
          let ((done, failure), w') = reserve_all S settings lines order_id [] w in
          ((so_far ++ done, failure), w'))
  unfolding reserve_all
  reserve_all_so_far [] order_id so_far w = rw append-nil
  reserve_all_so_far ((p, q) ∷ rest) order_id so_far w =
      go (reserve_stock S settings p q order_id w).0 (reserve_stock S settings p q order_id w).1
        refl (λ s v. reserve_all_so_far rest order_id s v)
    where
      go :
          (r : Reservation) (v : World S)
          → reserve_stock S settings p q order_id w ≡ (r, v)
          → ((s : List Line) (v : World S)
              → reserve_all S settings rest order_id s v ≡ (
                  let ((done, failure), w') = reserve_all S settings rest order_id [] v in
                  ((s ++ done, failure), w')))
          → reserve_all S settings ((p, q) ∷ rest) order_id so_far w ≡ (
              let ((done, failure), w') = reserve_all S settings ((p, q) ∷ rest) order_id [] w in
              ((so_far ++ done, failure), w'))
      go reserved v e ih =
          rw (e, reserve_all)
            (rw (
              ih (so_far ++ (p, q) ∷ []) (reserve_stock S settings p q order_id w).1,
              ih ((p, q) ∷ []) (reserve_stock S settings p q order_id w).1,
              append_assoc,
            ))
      go (not_reserved reason) v e ih = rw (e, reserve_all) (rw append-nil)

  -- A line that was reserved from a stock can be released in every later state of the catalog.
  abbrev pub CanRelease : String → Line → Type 0
  CanRelease order_id (p, q) =
      (r : String) (t : S.catalog.State)
      → is_some (S.catalog.stock t p) ≡ true
      → (j : String)
      → S.catalog.stock
          (S.catalog.release (headers r settings.internal_service_token "order-service")
            (stock_request S settings p q order_id) t).1
          j
        ≡ more (share j p q) (S.catalog.stock t j)

  abbrev pub Exists : (String → Option ℤ) → Line → Type 0
  Exists stock (p, q) = is_some (stock p) ≡ true

  -- What `reserve_all` has done from the world `w` on.
  pub record Reserving (lines : List Line) (order_id : String) (w w' : World S) (done : List Line)
      (failure : Option String) : Type 0 where
    pub quiet : w'.fates ≡ []
    pub taken : (j : String) → stock_in w' j ≡ less (ordered j done) (stock_in w j)
    pub releasable : All (CanRelease order_id) done
    pub exist : All (Exists (stock_in w)) done
    pub complete : failure ≡ none → done ≡ lines

  pub All-Exists :
      (f g : String → Option ℤ) (lines : List Line)
      → ((j : String) → is_some (f j) ≡ is_some (g j))
      → All (Exists f) lines
      → All (Exists g) lines
  All-Exists f g [] h a = tt
  All-Exists f g ((p, q) ∷ lines) h a = (sym (h p) ∙ a.0, All-Exists f g lines h a.1)

  reserve_all-granted :
      (p : String) (q : ℕ) (rest : List Line) (order_id : String) (w v : World S)
      → reserve_stock S settings p q order_id w ≡ (reserved, v)
      → reserve_all S settings ((p, q) ∷ rest) order_id [] w ≡ (
          let ((done, failure), w') = reserve_all S settings rest order_id [] v in
          (((p, q) ∷ done, failure), w'))
  unfolding reserve_all
  reserve_all-granted p q rest order_id w v e =
      rw (e, reserve_all)
        (ap (λ (x : Reservation × World S). reserve_all S settings rest order_id ((p, q) ∷ []) x.1)
            e
          ∙ reserve_all_so_far rest order_id ((p, q) ∷ []) v)

  abbrev refused_at : String → World S → (List Line × Option String) × World S
  refused_at reason v = (([], some reason), v)

  reserve_all-refused :
      (p : String) (q : ℕ) (rest : List Line) (order_id reason : String) (w v : World S)
      → reserve_stock S settings p q order_id w ≡ (not_reserved reason, v)
      → reserve_all S settings ((p, q) ∷ rest) order_id [] w ≡ (([], some reason), v)
  unfolding reserve_all
  reserve_all-refused p q rest order_id reason w v e =
      rw (e, reserve_all) (ap (λ (x : Reservation × World S). refused_at reason x.1) e)

  Reserving-cons :
      (p : String) (q : ℕ) (rest : List Line) (order_id : String) (w v w' : World S)
      (done : List Line) (failure : Option String)
      → ((j : String) → stock_in v j ≡ less (share j p q) (stock_in w j))
      → CanRelease order_id (p, q)
      → is_some (stock_in w p) ≡ true
      → Reserving rest order_id v w' done failure
      → Reserving ((p, q) ∷ rest) order_id w w' ((p, q) ∷ done) failure
  Reserving-cons p q rest order_id w v w' done failure step can there r = record {
    quiet = r.quiet;
    taken = λ j.
        unfold ordered in
        r.taken j
        ∙ ap (less (ordered j done)) (step j)
        ∙ less-less (share j p q) (ordered j done) (stock_in w j);
    releasable = (can, r.releasable);
    exist = (
      there,
      All-Exists (stock_in v) (stock_in w) done
          (λ j. ap is_some (step j) ∙ is_some-less (share j p q) (stock_in w j)) r.exist,
    );
    complete = λ e. ap (λ d. (p, q) ∷ d) (r.complete e);
  }

  pub reserve_all-Reserving :
      (lines : List Line) (order_id : String) (w : World S)
      → w.fates ≡ []
      → let ((done, failure), w') = reserve_all S settings lines order_id [] w in
        Reserving lines order_id w w' done failure
  reserve_all-Reserving [] order_id w e =
      unfold reserve_all ordered in
      record {
        quiet = e;
        taken = λ j. sym (less-zero (stock_in w j));
        releasable = tt;
        exist = tt;
        complete = λ _. refl;
      }
  reserve_all-Reserving ((p, q) ∷ rest) order_id w e =
      let h = headers w.request_id settings.internal_service_token "order-service" in
      let b = stock_request S settings p q order_id in
      let r = (S.catalog.reserve h b w.catalog).0 in
      let v : World S = record w { catalog = (S.catalog.reserve h b w.catalog).1 } in
      elim (read_reservation-cases r) [
        | inl (granted, read) ↦
            let step : reserve_stock S settings p q order_id w ≡ (reserved, v) =
              reserve_stock_quiet p q order_id w e ∙ ap (λ x. (x, v)) read in
            rw (reserve_all-granted p q rest order_id w v step) (
              Reserving-cons p q rest order_id w v (reserve_all S settings rest order_id [] v).1
                (reserve_all S settings rest order_id [] v).0.0
                (reserve_all S settings rest order_id [] v).0.1
                (S.catalog.reserve_granted h b w.catalog granted)
                (λ r t there. S.catalog.release_granted h r b w.catalog t granted there)
                (S.catalog.reserve_exists h b w.catalog granted)
                (reserve_all-Reserving rest order_id v e))
        | inr (refused, reason, read) ↦
            let step : reserve_stock S settings p q order_id w ≡ (not_reserved reason, v) =
              reserve_stock_quiet p q order_id w e ∙ ap (λ x. (x, v)) read in
            rw (reserve_all-refused p q rest order_id reason w v step) (record {
              quiet = e;
              taken = λ j.
                  unfold ordered in
                  S.catalog.reserve_refused h b w.catalog refused j
                  ∙ sym (less-zero (stock_in w j));
              releasable = tt;
              exist = tt;
              complete = λ x. absurd (cc);
            })
      ]

  pub release_all-stock :
      (lines : List Line) (order_id : String) (w : World S)
      → w.fates ≡ []
      → All (CanRelease order_id) lines
      → All (Exists (stock_in w)) lines
      → (j : String)
      → stock_in (release_all S settings lines order_id w) j ≡ more (ordered j lines) (stock_in w j)
  unfolding release_all ordered
  release_all-stock [] order_id w e can there j = sym (more-zero (stock_in w j))
  release_all-stock ((p, q) ∷ rest) order_id w e can there j =
      let v : World S = record w {
        catalog =
            (S.catalog.release
              (headers w.request_id settings.internal_service_token "order-service")
              (stock_request S settings p q order_id) w.catalog).1;
      } in
      let step : (k : String) → stock_in v k ≡ more (share k p q) (stock_in w k) =
        can.0 w.request_id w.catalog there.0 in
      rw (release_stock_quiet p q order_id w e) (
        release_all-stock rest order_id v e can.1
          (All-Exists (stock_in w) (stock_in v) rest
            (λ k. sym (ap is_some (step k) ∙ is_some-more (share k p q) (stock_in w k))) there.1)
          j
        ∙ ap (more (ordered j rest)) (step j)
        ∙ more-more (share j p q) (ordered j rest) (stock_in w j))
