-- ===== src/Sim/Router/Ledger.antt =====
-- crates/sim/src/router.rs: the reported trades and the reserves of both pools.
use prop_amm_challenge.Prelude.{
  ◌≡◌, ◌∙◌, subst, refl, sym, ap, Bool, true, false, not, ◌&&◌, List, [], ◌∷◌, ◌++◌, some, none,
  Option, Bool-cases, inl, inr, if◌then◌else◌, arith, ◌>>◌,
}
use prop_amm_challenge.Float.{Float, IsFloat, ◌⊕◌, ◌⊖◌, ◌⊘◌, lt, le, nought, is_finite}
use prop_amm_challenge.Sim.SearchStats.{SearchStats}
use prop_amm_challenge.Sim.Amm.{BpfAmm, quote_buy_x, quote_sell_x}
use prop_amm_challenge.Sim.Amm.Laws.{
  SameLedger, Traded, ledger_refl, ledger_trans, quote_buy_x-SameLedger, quote_sell_x-SameLedger,
  execute_buy_x_cases, execute_sell_x_cases,
}
use prop_amm_challenge.Sim.Retail.{RetailOrder}
use prop_amm_challenge.Sim.Router.{
  QuotePoint, RoutedTrade, route_order, Markets, start_search, raise_left, lower_right,
  golden_max_iters, finish_search, maximize_split, quote_if, quote_buy_split, quote_sell_split,
  buy_part, sell_part, route_buy, route_sell, min_trade_size,
}
use prop_amm_challenge.Sim.Router.Loop.{golden_loop_keeps}

abbrev pub SameMarkets : {F : Type 0} → Markets F → Markets F → Type 0
SameMarkets (a, b) (a', b') = SameLedger a a' × SameLedger b b'

abbrev pub reserves : {F : Type 0} → BpfAmm F → F × F
reserves a = (a.reserve_x, a.reserve_y)

-- Past a check that did not panic.
passed : {A : Type 0} (check : Option (Unit {0})) (a b : A) → (check >> some a) ≡ some b → a ≡ b
passed none a b e = ground arith
passed (some _) a b e = cc

module _ {F W : Type 0} ⦃f : Float F⦄ (total_input : F) (evaluate : F → W → QuotePoint F × W) where
  -- What every evaluation keeps, the search keeps.
  pub maximize_split_keeps :
      (R : W → Type 0)
      → ((alpha : F) (w : W) → R w → R (evaluate alpha w).1)
      → (stats : SearchStats) (world : W) → R world
      → R (maximize_split total_input evaluate stats world).2
  unfolding maximize_split finish_search start_search raise_left lower_right
  maximize_split_keeps R keep stats world r =
      let (_, end) =
        golden_loop_keeps total_input evaluate (λ _ s. R s.world) (λ _ s h. h) (λ _ s h. h)
          (λ _ s h. keep _ s.world h) (λ _ s h. keep _ s.world h) golden_max_iters
          (start_search total_input evaluate stats world)
          (keep _ _ (keep _ _ (keep _ _ (keep _ world r)))) in
      keep _ _ end

module _ {F : Type 0} ⦃f : Float F⦄ where
  -- The reserves of one of the pools after a list of trades.
  unfoldable pub settle : Bool → List (RoutedTrade F) → F × F → F × F
  settle is_submission [] r = r
  settle is_submission (t ∷ ts) (x, y) =
      let moved =
        if t.amm_buys_x
        then (x ⊕ t.amount_x, y ⊖ t.amount_y)
        else (x ⊖ t.amount_x, y ⊕ t.amount_y) in
      let mine = if is_submission then t.is_submission else not t.is_submission in
      settle is_submission ts (if mine then moved else (x, y))

  pub settle-append :
      (who : Bool) (ts us : List (RoutedTrade F)) (r : F × F)
      → settle who (ts ++ us) r ≡ settle who us (settle who ts r)
  unfolding settle
  settle-append who [] us r = refl
  settle-append who (t ∷ ts) us r = settle-append who ts us _

  -- The trades of one part account for the reserves of its pool, and for nothing of the other.
  Settled : Bool → BpfAmm F → List (RoutedTrade F) × BpfAmm F → Type 0
  Settled who a (trades, b) =
      (settle who trades (reserves a) ≡ reserves b) × ((r : F × F) → settle (not who) trades r ≡ r)

  Settled-none : (who : Bool) (a b : BpfAmm F) → SameLedger a b → Settled who a ([], b)
  unfolding Settled settle
  Settled-none who a b same =
      let x = sym same.reserve_x_eq in let y = sym same.reserve_y_eq in (λ i. (x i, y i), λ r. refl)

  abbrev trade_of : Bool → Bool → F → F → RoutedTrade F
  trade_of who sells x y = record {
    is_submission = who;
    amm_buys_x = sells;
    amount_x = x;
    amount_y = y;
  }

  Settled-buy :
      (who : Bool) (a b : BpfAmm F) (y out : F)
      → Traded a (a.reserve_x ⊖ out) (a.reserve_y ⊕ y) out a.reserve_x b
      → Settled who a (trade_of who false out y ∷ [], b)
  unfolding Settled settle
  Settled-buy true a b y out t =
      let p = sym t.x_moved in let q = sym t.y_moved in (λ i. (p i, q i), λ r. refl)
  Settled-buy false a b y out t =
      let p = sym t.x_moved in let q = sym t.y_moved in (λ i. (p i, q i), λ r. refl)

  Settled-sale :
      (who : Bool) (a b : BpfAmm F) (x out : F)
      → Traded a (a.reserve_x ⊕ x) (a.reserve_y ⊖ out) out a.reserve_y b
      → Settled who a (trade_of who true x out ∷ [], b)
  unfolding Settled settle
  Settled-sale true a b x out t =
      let p = sym t.x_moved in let q = sym t.y_moved in (λ i. (p i, q i), λ r. refl)
  Settled-sale false a b x out t =
      let p = sym t.x_moved in let q = sym t.y_moved in (λ i. (p i, q i), λ r. refl)

  module _ (laws : IsFloat F) where
    positive : (x : F) → is_finite x ≡ true → le x nought ≡ false → lt nought x ≡ true
    positive x n h =
        let number : f.is_nan x ≡ false = ground arith in
        let e = laws.le-eq-not-lt x nought number (laws.literal_number 0 0) in ground arith

    buy_part-Settled :
        (who : Bool) (y quoted : F) (a : BpfAmm F) → Settled who a (buy_part who y quoted a)
    unfolding buy_part
    buy_part-Settled who y quoted a = elim (Bool-cases (lt min_trade_size y && lt nought quoted)) [
      | inr e ↦ rw e (Settled-none who a a (ledger_refl a))
      | inl e ↦ elim (execute_buy_x_cases a y) [
        | inl (zero_out, same) ↦
            let none_out = ap (λ o. lt nought o) zero_out ∙ laws.lt_irrefl nought in
            rw (e, none_out) (Settled-none who a _ same)
        | inr (o, t) ↦ rw (e, positive _ t.out_finite t.out_positive) (Settled-buy who a _ y _ t)
      ]
    ]

    sell_part-Settled :
        (who : Bool) (x quoted : F) (a : BpfAmm F) → Settled who a (sell_part who x quoted a)
    unfolding sell_part
    sell_part-Settled who x quoted a = elim (Bool-cases (lt min_trade_size x && lt nought quoted)) [
      | inr e ↦ rw e (Settled-none who a a (ledger_refl a))
      | inl e ↦ elim (execute_sell_x_cases a x) [
        | inl (zero_out, same) ↦
            let none_out = ap (λ o. lt nought o) zero_out ∙ laws.lt_irrefl nought in
            rw (e, none_out) (Settled-none who a _ same)
        | inr (o, t) ↦ rw (e, positive _ t.out_finite t.out_positive) (Settled-sale who a _ x _ t)
      ]
    ]

  quote_if-SameLedger :
      (quote : BpfAmm F → F → F × BpfAmm F)
      → ((a : BpfAmm F) (input : F) → SameLedger a (quote a input).1)
      → (start a : BpfAmm F) (input : F) → SameLedger start a
      → SameLedger start (quote_if quote input a).1
  unfolding quote_if
  quote_if-SameLedger quote keeps start a input p = elim (Bool-cases (lt min_trade_size input)) [
    | inl e ↦ rw e (ledger_trans p (keeps a input))
    | inr e ↦ rw e p
  ]

  pub quote_buy_split-SameMarkets :
      (total_y : F) (start : Markets F) (alpha : F) (m : Markets F)
      → SameMarkets start m
      → SameMarkets start (quote_buy_split total_y alpha m).1
  unfolding quote_buy_split
  quote_buy_split-SameMarkets total_y start alpha (a, b) (p, q) = (
    quote_if-SameLedger quote_buy_x quote_buy_x-SameLedger start.0 a _ p,
    quote_if-SameLedger quote_buy_x quote_buy_x-SameLedger start.1 b _ q,
  )

  pub quote_sell_split-SameMarkets :
      (total_x : F) (start : Markets F) (alpha : F) (m : Markets F)
      → SameMarkets start m
      → SameMarkets start (quote_sell_split total_x alpha m).1
  unfolding quote_sell_split
  quote_sell_split-SameMarkets total_x start alpha (a, b) (p, q) = (
    quote_if-SameLedger quote_sell_x quote_sell_x-SameLedger start.0 a _ p,
    quote_if-SameLedger quote_sell_x quote_sell_x-SameLedger start.1 b _ q,
  )

  -- The trades account for both pools: the reserves after them are the old ones with each trade of the
  -- pool settled, in order.
  abbrev pub Accounted : Markets F → List (RoutedTrade F) × SearchStats × Markets F → Type 0
  Accounted (a, b) (trades, _, (a', b')) =
      (settle true trades (reserves a) ≡ reserves a')
      × (settle false trades (reserves b) ≡ reserves b')

  reserves_eq : {a b : BpfAmm F} → SameLedger a b → reserves b ≡ reserves a
  reserves_eq same = let p = same.reserve_x_eq in let q = same.reserve_y_eq in λ i. (p i, q i)

  both_parts :
      (a b a' b' : BpfAmm F) (part1 part2 : List (RoutedTrade F) × BpfAmm F) (stats : SearchStats)
      → SameMarkets (a, b) (a', b')
      → Settled true a' part1
      → Settled false b' part2
      → Accounted (a, b) (part1.0 ++ part2.0, stats, (part1.1, part2.1))
  unfolding Settled
  both_parts a b a' b' (ts, c) (us, d) stats (p, q) (mine, theirs) (mine', theirs') = (
    settle-append true ts us _ ∙ theirs' _ ∙ ap (settle true ts) (sym (reserves_eq p)) ∙ mine,
    settle-append false ts us _
        ∙ ap (settle false us) (theirs _)
        ∙ ap (settle false us) (sym (reserves_eq q))
        ∙ mine',
  )

  module _ (laws : IsFloat F) where
    -- A bought order that was routed, no check having panicked: the reported trades take the reserves of
    -- either pool before it to the reserves after it, with nothing left over.
    pub route_buy-Accounted :
        (total_y : F) (stats : SearchStats) (markets : Markets F)
        (result : List (RoutedTrade F) × SearchStats × Markets F)
        → route_buy total_y stats markets ≡ some result
        → Accounted markets result
    unfolding route_buy
    route_buy-Accounted total_y stats (a, b) result e =
        let (search, stats', (a', b')) =
          maximize_split total_y (quote_buy_split total_y) stats (a, b) in
        let same =
          maximize_split_keeps total_y (quote_buy_split total_y) (SameMarkets (a, b))
            (quote_buy_split-SameMarkets total_y (a, b)) stats (a, b)
            (ledger_refl a, ledger_refl b) in
        let mine = buy_part-Settled laws true search.best.in_sub search.best.out_sub a' in
        let theirs = buy_part-Settled laws false search.best.in_norm search.best.out_norm b' in
        subst (Accounted (a, b)) (passed _ _ result e)
          (both_parts a b a' b' _ _ stats' same mine theirs)

    -- A sold order that was routed, no check having panicked: the reported trades take the reserves of
    -- either pool before it to the reserves after it, with nothing left over.
    pub route_sell-Accounted :
        (total_x : F) (stats : SearchStats) (markets : Markets F)
        (result : List (RoutedTrade F) × SearchStats × Markets F)
        → route_sell total_x stats markets ≡ some result
        → Accounted markets result
    unfolding route_sell
    route_sell-Accounted total_x stats (a, b) result e =
        let (search, stats', (a', b')) =
          maximize_split total_x (quote_sell_split total_x) stats (a, b) in
        let same =
          maximize_split_keeps total_x (quote_sell_split total_x) (SameMarkets (a, b))
            (quote_sell_split-SameMarkets total_x (a, b)) stats (a, b)
            (ledger_refl a, ledger_refl b) in
        let mine = sell_part-Settled laws true search.best.in_sub search.best.out_sub a' in
        let theirs = sell_part-Settled laws false search.best.in_norm search.best.out_norm b' in
        subst (Accounted (a, b)) (passed _ _ result e)
          (both_parts a b a' b' _ _ stats' same mine theirs)

    -- Under the order laws of IEEE numbers (`IsFloat`), when the router returns for an order,
    -- whatever the order, the price and the curves are, the reserves of each of the two pools
    -- afterwards are exactly its reserves before with the reported trades of that pool settled one
    -- after the other: no reserve moves without a reported trade, and no trade is reported that did
    -- not move the reserves.
    pub route_order-Accounted :
        (order : RetailOrder F) (fair_price : F) (stats : SearchStats) (markets : Markets F)
        (result : List (RoutedTrade F) × SearchStats × Markets F)
        → route_order order fair_price stats markets ≡ some result
        → Accounted markets result
    unfolding route_order
    route_order-Accounted order fair_price stats markets result e =
        let sold_x = order.size ⊘ fair_price in
        let routed : Bool → Option (List (RoutedTrade F) × SearchStats × Markets F) =
          λ b. if b then route_buy order.size stats markets else route_sell sold_x stats markets in
        elim (Bool-cases order.is_buy) [
          | inl h ↦ route_buy-Accounted order.size stats markets result (ap routed (sym h) ∙ e)
          | inr h ↦ route_sell-Accounted sold_x stats markets result (ap routed (sym h) ∙ e)
        ]
