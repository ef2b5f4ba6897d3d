-- ===== src/Sim/Arbitrageur/Plans/Planned.antt =====
-- crates/sim/src/arbitrageur.rs: what a plan promises.
use prop_amm_challenge.Prelude.{refl, Holds-mono, ◌≡◌, false, none, some, Option, either_way, Holds}
use prop_amm_challenge.Float.{◌⊖◌, ◌⊗◌, Float, lt, le, nought}
use prop_amm_challenge.Sim.Amm.{BpfAmm, quote_buy_x, quote_sell_x}
use prop_amm_challenge.Sim.Amm.Laws.{
  SameLedger, ledger_refl, ledger_trans, quote_buy_x-SameLedger, quote_sell_x-SameLedger,
}
use prop_amm_challenge.Sim.Arbitrageur.{
  ArbSide, buy_x, sell_x, ArbCandidate, min_buy_input_y, min_sell_input_x, candidate,
  best_candidate,
}

module _ {F : Type 0} ⦃f : Float F⦄ where
  -- The least input of a side.
  unfoldable pub least_input : ArbSide → F → F
  least_input buy_x fair_price = min_buy_input_y
  least_input sell_x fair_price = min_sell_input_x fair_price

  -- The states of a pool that quotes take it to.
  pub data Asked (a : BpfAmm F) : BpfAmm F → Type 0 where
    here : Asked a a
    asked_buy : {b : BpfAmm F} → Asked a b → (y : F) → Asked a (quote_buy_x b y).1
    asked_sale : {b : BpfAmm F} → Asked a b → (x : F) → Asked a (quote_sell_x b x).1

  pub Asked-trans : {a b c : BpfAmm F} → Asked a b → Asked b c → Asked a c
  Asked-trans p here = p
  Asked-trans p (asked_buy q y) = asked_buy (Asked-trans p q) y
  Asked-trans p (asked_sale q x) = asked_sale (Asked-trans p q) x

  pub Asked-SameLedger : {a b : BpfAmm F} → Asked a b → SameLedger a b
  Asked-SameLedger {a} here = ledger_refl a
  Asked-SameLedger (asked_buy {b} q y) =
      ledger_trans (Asked-SameLedger q) (quote_buy_x-SameLedger b y)
  Asked-SameLedger (asked_sale {b} q x) =
      ledger_trans (Asked-SameLedger q) (quote_sell_x-SameLedger b x)

  -- The quote of a pool on a side, and what it gains the arbitrageur at the fair price.
  unfoldable pub quoted : ArbSide → F → BpfAmm F → F
  quoted buy_x input b = (quote_buy_x b input).0
  quoted sell_x input b = (quote_sell_x b input).0

  unfoldable pub gain : ArbSide → F → F → F → F
  gain buy_x fair_price input output = output ⊗ fair_price ⊖ input
  gain sell_x fair_price input output = output ⊖ input ⊗ fair_price

  -- A plan that may be carried out on the pool `a`: its profit is that of a quote for its input, not at most zero,
  -- which the pool answers in a state that quotes take it to, and is not below the floor; its input is not
  -- below the least.
  pub record IsPlan (a : BpfAmm F) (floor fair_price : F) (c : ArbCandidate F) : Type 0 where
    pub pool : BpfAmm F
    pub asked : Asked a pool
    pub positive : le (quoted c.side c.input_amount pool) nought ≡ false
    pub valued :
        c.expected_profit
        ≡ gain c.side fair_price c.input_amount (quoted c.side c.input_amount pool)
    pub profitable : lt c.expected_profit floor ≡ false
    pub large : lt c.input_amount (least_input c.side fair_price) ≡ false

  -- A state that quotes take `a` to, and a plan on `a`, if there is one.
  abbrev pub Planned : F → F → BpfAmm F → Option (ArbCandidate F) → BpfAmm F → Type 0
  Planned floor fair_price a c b = Asked a b × Holds (IsPlan a floor fair_price) c

  pub candidate-IsPlan :
      (floor fair_price : F) (side : ArbSide) (input : F) {a b : BpfAmm F}
      → Asked a b
      → lt input (least_input side fair_price) ≡ false
      → let output = quoted side input b in
        Holds
          (IsPlan a floor fair_price)
          (candidate floor side input output (gain side fair_price input output))
  unfolding candidate
  candidate-IsPlan floor fair_price side input {a} {b} asked large =
      let output = quoted side input b in
      let Q = Holds (IsPlan a floor fair_price) in
      either_way Q (le output nought) (λ _. tt)
        (λ g.
          either_way Q (lt (gain side fair_price input output) floor) (λ _. tt)
            (λ e. record {
              pool = b;
              asked = asked;
              positive = g;
              valued = refl;
              profitable = e;
              large = large;
            }))

  -- A plan after some quotes is a plan.
  pub IsPlan-Asked :
      {a b : BpfAmm F} (floor fair_price : F)
      → Asked a b
      → (c : Option (ArbCandidate F)) → Holds (IsPlan b floor fair_price) c
      → Holds (IsPlan a floor fair_price) c
  IsPlan-Asked {a} {b} floor fair_price p =
      Holds-mono (IsPlan b floor fair_price) (IsPlan a floor fair_price) (λ c h. record {
        pool = h.pool;
        asked = Asked-trans p h.asked;
        positive = h.positive;
        valued = h.valued;
        profitable = h.profitable;
        large = h.large;
      })

  pub best_candidate-IsPlan :
      (P : ArbCandidate F → Type 0) (buy sell : Option (ArbCandidate F))
      → Holds P buy
      → Holds P sell
      → Holds P (best_candidate buy sell)
  unfolding best_candidate
  best_candidate-IsPlan P (some b) (some s) p q =
      either_way (Holds P) (lt b.expected_profit s.expected_profit) (λ _. q) (λ _. p)
  best_candidate-IsPlan P (some b) none p q = p
  best_candidate-IsPlan P none (some s) p q = q
  best_candidate-IsPlan P none none p q = tt
