-- ===== src/Sim/Engine/Deals.antt =====
-- crates/sim/src/engine.rs: lists of deals, and the deals of an arbitrage and of a routed order.
use prop_amm_challenge.Prelude.{
  ◌≡◌, refl, sym, ap, ◌∙◌, subst, true, false, Bool, not, inl, inr, List, [], ◌∷◌, ◌++◌, map,
  Option, none, some, if◌then◌else◌,
}
use prop_amm_challenge.Float.{Float, ◌⊕◌, ◌⊖◌}
use prop_amm_challenge.Sim.SearchStats.{SearchStats}
use prop_amm_challenge.Sim.Amm.{BpfAmm}
use prop_amm_challenge.Sim.Amm.Laws.{SameLedger}
use prop_amm_challenge.Sim.Router.{RoutedTrade, Markets}
use prop_amm_challenge.Sim.Router.Ledger.{settle, reserves, Accounted}
use prop_amm_challenge.Sim.Arbitrageur.{ArbCandidate, ArbResult, ArbSide, buy_x, sell_x}
use prop_amm_challenge.Sim.Arbitrageur.Laws.{Carried}
use prop_amm_challenge.Sim.Arbitrageur.Plans.Laws.{Arbitraged}
use prop_amm_challenge.Sim.Engine.Log.{Deal, deals_of, arb_deals, arb_trade}
use prop_amm_challenge.Sim.Engine.{Book, trade_edge, add_trades, add_result}

module _ {F : Type 0} ⦃f : Float F⦄ where
  -- The submission's edge after a list of deals: those of the submission add theirs, in order.
  unfoldable pub total : List (Deal F) → F → F
  total [] edge = edge
  total ((p, t) ∷ deals) edge =
      total deals (if t.is_submission then edge ⊕ trade_edge p t else edge)

  -- The deals account for the edge and for the reserves of both pools.
  pub record Explains (deals : List (Deal F)) (a b : Book F) : Type 0 where
    pub edge_eq : total deals a.edge ≡ b.edge
    pub sub_eq : settle true (map (λ d. d.1) deals) (reserves a.amm_sub) ≡ reserves b.amm_sub
    pub norm_eq : settle false (map (λ d. d.1) deals) (reserves a.amm_norm) ≡ reserves b.amm_norm

  total-append :
      (ds es : List (Deal F)) (edge : F) → total (ds ++ es) edge ≡ total es (total ds edge)
  unfolding total
  total-append [] es edge = refl
  total-append ((p, t) ∷ ds) es edge = total-append ds es _

  settle_deals-append :
      (who : Bool) (ds es : List (Deal F)) (r : F × F)
      → settle who (map (λ d. d.1) (ds ++ es)) r
        ≡ settle who (map (λ d. d.1) es) (settle who (map (λ d. d.1) ds) r)
  unfolding settle
  settle_deals-append who [] es r = refl
  settle_deals-append who ((p, t) ∷ ds) es r = settle_deals-append who ds es _

  pub Explains-append :
      {a b c : Book F} (ds es : List (Deal F))
      → Explains ds a b
      → Explains es b c
      → Explains (ds ++ es) a c
  Explains-append {a} ds es p q = record {
    edge_eq = total-append ds es a.edge ∙ ap (total es) p.edge_eq ∙ q.edge_eq;
    sub_eq = settle_deals-append true ds es _ ∙ ap (settle true _) p.sub_eq ∙ q.sub_eq;
    norm_eq = settle_deals-append false ds es _ ∙ ap (settle false _) p.norm_eq ∙ q.norm_eq;
  }

  pub Explains-nil : (a : Book F) → Explains [] a a
  unfolding total settle
  Explains-nil a = record { edge_eq = refl; sub_eq = refl; norm_eq = refl }

  trades-deals_of : (p : F) (ts : List (RoutedTrade F)) → map (λ d. d.1) (deals_of p ts) ≡ ts
  unfolding deals_of
  trades-deals_of p [] = refl
  trades-deals_of p (t ∷ ts) = ap (◌∷◌ t) (trades-deals_of p ts)

  total-deals_of :
      (p : F) (ts : List (RoutedTrade F)) (edge : F)
      → total (deals_of p ts) edge ≡ add_trades p ts edge
  unfolding deals_of total add_trades
  total-deals_of p [] edge = refl
  total-deals_of p (t ∷ ts) edge = total-deals_of p ts _

  pub routed-Explains :
      (p edge : F) (a b : BpfAmm F) (ts : List (RoutedTrade F)) (stats : SearchStats)
      (m : Markets F)
      → Accounted (a, b) (ts, stats, m)
      → Explains
          (deals_of p ts)
          (record { edge = edge; amm_sub = a; amm_norm = b })
          (record { edge = add_trades p ts edge; amm_sub = m.0; amm_norm = m.1 })
  routed-Explains p edge a b ts stats m (mine, theirs) = record {
    edge_eq = total-deals_of p ts edge;
    sub_eq = ap (λ us. settle true us (reserves a)) (trades-deals_of p ts) ∙ mine;
    norm_eq = ap (λ us. settle false us (reserves b)) (trades-deals_of p ts) ∙ theirs;
  }

  -- The deals of one arbitrage account for its pool and for the result, and for nothing else.
  pub record ArbDeals (who : Bool) (p : F) (a : BpfAmm F) (r : Option (ArbResult F)) (b : BpfAmm F)
      : Type 0 where
    total_eq :
        (edge : F) → total (arb_deals who p r) edge ≡ (if who then add_result r edge else edge)
    own_eq : settle who (map (λ d. d.1) (arb_deals who p r)) (reserves a) ≡ reserves b
    other_eq : (s : F × F) → settle (not who) (map (λ d. d.1) (arb_deals who p r)) s ≡ s

  nothing_dealt : (who : Bool) (p : F) (a b : BpfAmm F) → SameLedger a b → ArbDeals who p a none b
  unfolding total settle add_result arb_deals
  nothing_dealt who p a b same =
      let x = sym same.reserve_x_eq in
      let y = sym same.reserve_y_eq in
      record {
        total_eq = λ edge. sym (either who edge);
        own_eq = λ i. (x i, y i);
        other_eq = λ s. refl;
      }
    where
      either : (b : Bool) (e : F) → (if b then e else e) ≡ e
      either true e = refl
      either false e = refl

  -- The reserves of a pool after a trade of the given amounts.
  abbrev moved : BpfAmm F → ArbResult F → F × F
  moved a t =
      if t.amm_buys_x
      then (a.reserve_x ⊕ t.amount_x, a.reserve_y ⊖ t.amount_y)
      else (a.reserve_x ⊖ t.amount_x, a.reserve_y ⊕ t.amount_y)

  one_deal :
      (who : Bool) (a : BpfAmm F) (p : F) (t : ArbResult F) (b : BpfAmm F)
      → t.edge ≡ trade_edge p (arb_trade who t)
      → moved a t ≡ reserves b
      → ArbDeals who p a (some t) b
  unfolding total settle add_result arb_deals
  one_deal true a p t b edge settled = record {
    total_eq = λ e. ap (λ g. e ⊕ g) (sym edge);
    own_eq = settled;
    other_eq = λ s. refl;
  }
  one_deal false a p t b edge settled = record {
    total_eq = λ e. refl;
    own_eq = settled;
    other_eq = λ s. refl;
  }

  deals_of_side :
      (who : Bool) (side : ArbSide) (input : F) (a : BpfAmm F) (p : F) (t : ArbResult F)
      (b : BpfAmm F)
      → Carried side input a p t b
      → ArbDeals who p a (some t) b
  unfolding Carried trade_edge
  deals_of_side who buy_x input a p t b (buys, _, x, y, edge, _) =
      let x' = sym x in
      let y' = sym y in one_deal who a p t b (rw (buys, edge) refl) (rw buys (λ i. (x' i, y' i)))
  deals_of_side who sell_x input a p t b (buys, _, x, y, edge, _) =
      let x' = sym x in
      let y' = sym y in one_deal who a p t b (rw (buys, edge) refl) (rw buys (λ i. (x' i, y' i)))

  pub deals_of_arbitrage :
      (who : Bool) (chosen : ArbCandidate F → Type 0) (floor p : F) (a : BpfAmm F)
      (r : Option (ArbResult F)) (b : BpfAmm F)
      → Arbitraged chosen floor p a r b
      → ArbDeals who p a r b
  deals_of_arbitrage who chosen floor p a r b (inl (e, same)) =
      subst (λ r. ArbDeals who p a r b) (sym e) (nothing_dealt who p a b same)
  deals_of_arbitrage who chosen floor p a r b (inr (t, c, e, _, _, carried)) =
      subst (λ r. ArbDeals who p a r b) (sym e)
        (deals_of_side who c.side c.input_amount a p t b carried)

  -- Both arbitrages of a step.
  pub arbitrage-Explains :
      (p : F) (book : Book F) (r s : Option (ArbResult F)) (sub norm : BpfAmm F)
      → ArbDeals true p book.amm_sub r sub
      → ArbDeals false p book.amm_norm s norm
      → Explains
          (arb_deals true p r ++ arb_deals false p s)
          book
          (record { edge = add_result r book.edge; amm_sub = sub; amm_norm = norm })
  arbitrage-Explains p book r s sub norm d e =
      Explains-append
        {b = record { edge = add_result r book.edge; amm_sub = sub; amm_norm = book.amm_norm }}
        (arb_deals true p r) (arb_deals false p s)
        (record { edge_eq = d.total_eq book.edge; sub_eq = d.own_eq; norm_eq = d.other_eq _ })
        (record { edge_eq = e.total_eq _; sub_eq = e.other_eq _; norm_eq = e.own_eq })
