-- ===== src/Sim/Engine/Accounts.antt =====
-- crates/sim/src/engine.rs: the log of a simulation accounts for its books.
use prop_amm_challenge.Prelude.{
  ℕ, zero, suc, ◌+◌, ◌≡◌, refl, subst, true, false, List, [], ◌∷◌, some, Holds, Holds-bind,
  Holds-some, Holds-mono, Holds-intro, Holds-equation, ◌++◌, Option, Anything, anything,
}
use prop_amm_challenge.Float.{Float, IsFloat, nought}
use prop_amm_challenge.Random.{Random}
use prop_amm_challenge.Shared.Config.{SimulationConfig}
use prop_amm_challenge.Shared.Result.{SimResult}
use prop_amm_challenge.Sim.Retail as Retail
use prop_amm_challenge.Sim.Arbitrageur.Plans as Plans
use prop_amm_challenge.Sim.SearchStats.{SearchStats}
use prop_amm_challenge.Sim.Amm.{BpfAmm, set_current_step}
use prop_amm_challenge.Sim.Retail.{RetailOrder, generate_orders}
use prop_amm_challenge.Sim.PriceProcess as PriceProcess
use prop_amm_challenge.Sim.Router.{Markets, route_order}
use prop_amm_challenge.Sim.Router.Ledger.{settle, Accounted, route_order-Accounted}
use prop_amm_challenge.Sim.Arbitrageur.Plans.{Arbitrageur, execute_arb}
use prop_amm_challenge.Sim.Arbitrageur.Plans.Laws.{execute_arb-Done, Done}
use prop_amm_challenge.Sim.Engine.{
  Book, Simulation, route_orders, arbitrage, at_step, run_step, run_steps, run_sim_inner, start,
}
use prop_amm_challenge.Sim.Engine.Deals.{
  total, Explains, Explains-append, Explains-nil, routed-Explains, deals_of_arbitrage,
  arbitrage-Explains,
}
use prop_amm_challenge.Sim.Engine.Log.{
  Deal, deals_of, arb_deals, order_deals, step_deals, run_deals,
}
use prop_amm_challenge.Sim.Arbitrageur.{ArbResult}
use prop_amm_challenge.Sim.Arbitrageur.Plans.Laws.{IsBestPlan}

module _ {F : Type 0} ⦃f : Float F⦄ where
  -- What is left of a sequence of orders is explained by its log.
  OrdersLogged : F → List (RetailOrder F) → SearchStats → Book F → SearchStats × Book F → Type 0
  OrdersLogged p orders stats a (_, b) =
      (ds : List (Deal F)) × (order_deals p orders stats (a.amm_sub, a.amm_norm) ≡ some ds)
      × Explains ds a b

  module _ (laws : IsFloat F) where
    route_orders-OrdersLogged :
        (p : F) (orders : List (RetailOrder F)) (stats : SearchStats) (book : Book F)
        → Holds (OrdersLogged p orders stats book) (route_orders p orders stats book)
    unfolding route_orders OrdersLogged order_deals
    route_orders-OrdersLogged p [] stats book = ([], refl, Explains-nil book)
    route_orders-OrdersLogged p (order ∷ orders) stats book =
        let markets : Markets F = (book.amm_sub, book.amm_norm) in
        let routed = route_order order p stats markets in
        Holds-bind (λ r. (routed ≡ some r) × Accounted markets r)
          (OrdersLogged p (order ∷ orders) stats book) routed _
          (Holds-intro _ routed (λ r e. (e, route_order-Accounted laws order p stats markets r e)))
          (λ (trades, stats', m) (e, accounted).
            Holds-mono (OrdersLogged p orders stats' _) (OrdersLogged p (order ∷ orders) stats book)
              (λ _ (ds, e', h). (
                deals_of p trades ++ ds,
                rw (e, e') refl,
                Explains-append (deals_of p trades) ds
                    (routed-Explains p book.edge book.amm_sub book.amm_norm trades stats' m
                      accounted)
                    h,
              ))
              _ (route_orders-OrdersLogged p orders stats' _))

    module _ ⦃rand : Random F⦄ where
      -- The two answers of the arbitrageur, and that they explain what is left of the book.
      ArbLogged :
          F → Arbitrageur F → SearchStats → Book F → Arbitrageur F × SearchStats × Book F → Type 0
      ArbLogged p arb stats a (arb2, stats2, b) =
          (r : Option (ArbResult F)) × (s : Option (ArbResult F)) × (arb1 : Arbitrageur F)
          × (stats1 : SearchStats) × (execute_arb arb a.amm_sub p stats
              ≡ some (r, arb1, stats1, b.amm_sub))
          × (execute_arb arb1 a.amm_norm p stats1 ≡ some (s, arb2, stats2, b.amm_norm))
          × Explains (arb_deals true p r ++ arb_deals false p s) a b

      arbitrage-ArbLogged :
          (p : F) (arb : Arbitrageur F) (stats : SearchStats) (book : Book F)
          → Holds (ArbLogged p arb stats book) (arbitrage p arb stats book)
      unfolding arbitrage ArbLogged Done
      arbitrage-ArbLogged p arb stats book =
          let chosen = IsBestPlan arb book.amm_sub p stats in
          let done = Done chosen arb.min_arb_profit p book.amm_sub in
          Holds-bind (λ r. (execute_arb arb book.amm_sub p stats ≡ some r) × done r)
            (ArbLogged p arb stats book) _ _
            (Holds-equation done _ (execute_arb-Done laws arb book.amm_sub p stats))
            (λ (r, arb1, stats1, sub) (e, d).
              let chosen' = IsBestPlan arb1 book.amm_norm p stats1 in
              let done' = Done chosen' arb1.min_arb_profit p book.amm_norm in
              Holds-bind (λ s. (execute_arb arb1 book.amm_norm p stats1 ≡ some s) × done' s)
                (ArbLogged p arb stats book) _ _
                (Holds-equation done' _ (execute_arb-Done laws arb1 book.amm_norm p stats1))
                (λ (s, _, _, norm) (e', d'). (
                  r,
                  s,
                  arb1,
                  stats1,
                  e,
                  e',
                  arbitrage-Explains p book r s sub norm
                      (deals_of_arbitrage true chosen _ p book.amm_sub r sub d)
                      (deals_of_arbitrage false chosen' _ p book.amm_norm s norm d'),
                )))

      at_step-Explains : (n : ℕ) (book : Book F) → Explains [] book (at_step n book)
      unfolding at_step set_current_step total settle
      at_step-Explains n book = record { edge_eq = refl; sub_eq = refl; norm_eq = refl }

      StepLogged : ℕ → Simulation F → Simulation F → Type 0
      StepLogged n sim sim' =
          (ds : List (Deal F)) × (step_deals n sim ≡ some ds) × Explains ds sim.book sim'.book

      run_step-StepLogged : (n : ℕ) (sim : Simulation F) → Holds (StepLogged n sim) (run_step n sim)
      unfolding run_step StepLogged ArbLogged OrdersLogged step_deals
      run_step-StepLogged n sim =
          let (p, price) = PriceProcess.step sim.price in
          let (orders, _) = generate_orders sim.retail in
          let begun = at_step n sim.book in
          Holds-bind (ArbLogged p sim.arb sim.stats begun) (StepLogged n sim) _ _
            (arbitrage-ArbLogged p sim.arb sim.stats begun)
            (λ (_, stats, book) (r, s, _, _, e, e', h).
              Holds-bind (OrdersLogged p orders stats book) (StepLogged n sim) _ _
                (route_orders-OrdersLogged p orders stats book)
                (λ (_, book') (ds, e'', k). (
                  (arb_deals true p r ++ arb_deals false p s) ++ ds,
                  rw (e, e', e'') refl,
                  Explains-append [] _ (at_step-Explains n sim.book) (Explains-append _ ds h k),
                )))

      RunLogged : ℕ → ℕ → Simulation F → Simulation F → Type 0
      RunLogged n step sim end =
          (ds : List (Deal F)) × (run_deals n step sim ≡ some ds) × Explains ds sim.book end.book

      run_steps-RunLogged :
          (n step : ℕ) (sim : Simulation F) → Holds (RunLogged n step sim) (run_steps n step sim)
      unfolding run_steps RunLogged StepLogged run_deals
      run_steps-RunLogged zero step sim = ([], refl, Explains-nil sim.book)
      run_steps-RunLogged (suc n) step sim =
          Holds-bind (λ sim'. (run_step step sim ≡ some sim') × StepLogged step sim sim')
            (RunLogged (suc n) step sim) _ _
            (Holds-equation (StepLogged step sim) _ (run_step-StepLogged step sim))
            (λ sim' (e, (ds, e', h)).
              Holds-mono (RunLogged n (step + 1) sim') (RunLogged (suc n) step sim)
                (λ _ (es, e'', k). (ds ++ es, rw (e', e, e'') refl, Explains-append ds es h k)) _
                (run_steps-RunLogged n (step + 1) sim'))

      -- The result of a simulation, with its locals at both ends of the loop and its log.
      ResultLogged :
          BpfAmm F
          → BpfAmm F
          → SimulationConfig F
          → SearchStats
          → SimResult F × SearchStats
          → Type 0
      ResultLogged sub norm config stats (result, _) =
          (sim : Simulation F) × (end : Simulation F) × (deals : List (Deal F)) × (start sub norm
              config stats
            ≡ some sim)
          × (run_steps config.n_steps 0 sim ≡ some end)
          × (run_deals config.n_steps 0 sim ≡ some deals)
          × Explains deals (record { edge = nought; amm_sub = sub; amm_norm = norm }) end.book
          × (result.submission_edge ≡ end.book.edge)
          × (result.seed ≡ config.seed)

      -- The locals before the loop have the pools and no edge.
      start_book :
          (sub norm : BpfAmm F) (config : SimulationConfig F) (stats : SearchStats)
          → Holds
              (λ sim. sim.book ≡ record { edge = nought; amm_sub = sub; amm_norm = norm })
              (start sub norm config stats)
      unfolding start
      start_book sub norm config stats =
          Holds-bind Anything _ (Retail.create _ _ _ _ _) _ (anything _)
            (λ _ _. Holds-bind Anything _ (Plans.create _ _ _ _) _ (anything _) (λ _ _. refl))

      run_sim_inner-ResultLogged :
          (sub norm : BpfAmm F) (config : SimulationConfig F) (stats : SearchStats)
          → Holds (ResultLogged sub norm config stats) (run_sim_inner sub norm config stats)
      unfolding run_sim_inner ResultLogged RunLogged
      run_sim_inner-ResultLogged sub norm config stats =
          let begun : Book F = record { edge = nought; amm_sub = sub; amm_norm = norm } in
          let Begun : Simulation F → Type 0 = λ sim. sim.book ≡ begun in
          let Result = ResultLogged sub norm config stats in
          Holds-bind (λ sim. (start sub norm config stats ≡ some sim) × Begun sim) Result _ _
            (Holds-equation Begun _ (start_book sub norm config stats))
            (λ sim (e, b).
              Holds-bind
                (λ end.
                  (run_steps config.n_steps 0 sim ≡ some end) × RunLogged config.n_steps 0 sim end)
                Result _ _
                (Holds-equation (RunLogged config.n_steps 0 sim) _
                  (run_steps-RunLogged config.n_steps 0 sim))
                (λ end (e', (deals, e'', h)). (
                  sim,
                  end,
                  deals,
                  e,
                  e',
                  e'',
                  subst (λ a. Explains deals a end.book) b h,
                  refl,
                  refl,
                )))

      -- Under the order laws of IEEE numbers, when a simulation returns, its log accounts for it.
      -- The log is the list of the trades that its calls of `execute_arb` and `route_order` answer,
      -- in order, each at the fair price of its step. Settled one after the other, the trades of
      -- each pool in the log take the reserves that the pool starts with to those in the locals
      -- after the last step; the edge in those locals, which is the reported one, is what the
      -- submission's trades in the log add up to in their order from zero, each valued at its fair
      -- price; and the reported seed is the configuration's.
      pub run_sim_inner-Explains :
          (sub norm : BpfAmm F) (config : SimulationConfig F) (stats stats' : SearchStats)
          (result : SimResult F)
          → run_sim_inner sub norm config stats ≡ some (result, stats')
          → (sim : Simulation F) × (end : Simulation F) × (deals : List (Deal F)) × (start sub norm
                config stats
              ≡ some sim)
            × (run_steps config.n_steps 0 sim ≡ some end)
            × (run_deals config.n_steps 0 sim ≡ some deals)
            × Explains deals (record { edge = nought; amm_sub = sub; amm_norm = norm }) end.book
            × (result.submission_edge ≡ end.book.edge)
            × (result.seed ≡ config.seed)
      unfolding ResultLogged
      run_sim_inner-Explains sub norm config stats stats' result e =
          Holds-some (ResultLogged sub norm config stats) _ (result, stats')
            (run_sim_inner-ResultLogged sub norm config stats) e
