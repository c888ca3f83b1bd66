-- ===== src/Exec/Transition/Checks.antt =====
-- The checks before a transaction runs, and the purchase of its gas.
use uranus.Prelude.{
  ℕ, ◌+◌, ◌-◌, ◌%◌, ◌^◌, ◌<◌, ◌≡◌, ◌≢◌, ◌⊎◌, refl, ap, ◌∙◌, true, false, Option, none, some, ltb,
  ◌==◌, if◌then◌else◌, arith, inl, inr, Bool-cases,
}
use uranus.Prelude.Int.{ℤ, pos, ◌-ℤ◌, ◌*ℤ◌, ltb_ℤ}
use uranus.State.Object.{Address, Backend}
use uranus.State.Db.{StateDb}
use uranus.State.Ops.{sub_balance}
use uranus.State.Getters.{get_balance, get_nonce}
use uranus.State.View.{Same, Same-trans, IsSound}
use uranus.State.Revert.Accounts.{Step-sub_balance}
use uranus.State.Accounts.{
  balance_of, nonce_of, balance_of-sub_balance, get_balance-balance_of, get_nonce-nonce_of,
  balance_of-Same, Same-get_nonce, Same-get_balance, IsSound-get_balance, IsSound-get_nonce,
}
use uranus.Exec.GasPool.{sub_gas}
use uranus.Exec.Transition.{
  Transaction, Transition, TxError, nonce_too_high, nonce_too_low, insufficient_balance_for_gas,
  gas_limit_reached, buy_gas, pre_check,
}

module _ (b : Backend) (tx : Transaction) (from : Address) where
  -- The price of all the gas of the transaction.
  abbrev pub gas_cost : ℤ
  gas_cost = pos tx.gas_limit *ℤ tx.gas_price

  -- Which check fails first, by what a caller can read of the state.
  abbrev pub first_failure : ℕ → StateDb → Option TxError
  first_failure gp s =
      if ltb (nonce_of b s from) tx.nonce
      then some nonce_too_high
      else if ltb tx.nonce (nonce_of b s from)
      then some nonce_too_low
      else if ltb_ℤ (balance_of b s from) gas_cost
      then some insufficient_balance_for_gas
      else if ltb gp tx.gas_limit
      then some gas_limit_reached
      else none

  -- What holds of the transition that the checks leave.
  pub record Checked (gp : ℕ) (s : StateDb) (r : Option TxError × Transition) : Type 0 where
    pub error : r.0 ≡ first_failure gp s
    pub refused_same : r.0 ≢ none → Same b r.1.state s
    pub refused_pool : r.0 ≢ none → r.1.gp ≡ gp
    pub accepted_pool : r.0 ≡ none → r.1.gp + tx.gas_limit ≡ gp
    pub accepted_gas :
        r.0 ≡ none
        → tx.gas_limit < 2 ^ 64
        → (r.1.gas ≡ tx.gas_limit) × (r.1.initial_gas ≡ tx.gas_limit)
    pub accepted_balances :
        r.0 ≡ none
        → (j : Address)
        → balance_of b r.1.state j
          ≡ (if from == j then balance_of b s j -ℤ gas_cost else balance_of b s j)
    pub accepted_sound : r.0 ≡ none → IsSound r.1.state

  refused :
      (e : TxError) (gp : ℕ) (s s1 : StateDb)
      → Same b s1 s
      → some e ≡ first_failure gp s
      → Checked gp s (some e, record { gp = gp; gas = 0; initial_gas = 0; state = s1 })
  refused e gp s s1 h f = record {
    error = f;
    refused_same = λ n. h;
    refused_pool = λ n. refl;
    accepted_pool = λ n. absurd (cc);
    accepted_gas = λ n. absurd (cc);
    accepted_balances = λ n. absurd (cc);
    accepted_sound = λ n. absurd (cc);
  }

  accepted :
      (gp gp' : ℕ) (s s1 : StateDb)
      → IsSound s1
      → Same b s1 s
      → none ≡ first_failure gp s
      → gp' + tx.gas_limit ≡ gp
      → Checked gp s (
        none,
        record {
          gp = gp';
          gas = (0 + tx.gas_limit) % 2 ^ 64;
          initial_gas = tx.gas_limit;
          state = sub_balance b from gas_cost s1;
        },
      )
  accepted gp gp' s s1 d h f e = record {
    error = f;
    refused_same = λ n. absurd (n refl);
    refused_pool = λ n. absurd (n refl);
    accepted_pool = λ n. e;
    accepted_gas = λ n w. (omega arith, refl);
    accepted_balances = λ n j.
        balance_of-sub_balance b from gas_cost s1 j d ∙ ground (arith, balance_of-Same b s1 s j h);
    accepted_sound = λ n. (Step-sub_balance b from gas_cost s1 d).sound;
  }

  -- A transaction's transition as `NewStateTransition` makes it.
  abbrev pub started : ℕ → StateDb → Transition
  started gp s = record { gp = gp; gas = 0; initial_gas = 0; state = s }

  abbrev bought : ℕ → StateDb → Transition
  bought gp s = record {
    gp = gp;
    gas = (0 + tx.gas_limit) % 2 ^ 64;
    initial_gas = tx.gas_limit;
    state = sub_balance b from gas_cost s;
  }

  buy_gas-poor :
      (gp : ℕ) (s : StateDb)
      → ltb_ℤ (balance_of b s from) gas_cost ≡ true
      → buy_gas b tx from (started gp s)
        ≡ (some insufficient_balance_for_gas, started gp (get_balance b from s).1)
  unfolding buy_gas
  buy_gas-poor gp s h = rw (get_balance-balance_of b from s, h, buy_gas)

  buy_gas-full :
      (gp : ℕ) (s : StateDb)
      → ltb_ℤ (balance_of b s from) gas_cost ≡ false
      → sub_gas tx.gas_limit gp ≡ none
      → buy_gas b tx from (started gp s)
        ≡ (some gas_limit_reached, started gp (get_balance b from s).1)
  unfolding buy_gas
  buy_gas-full gp s h e = rw (get_balance-balance_of b from s, h, e, buy_gas)

  buy_gas-bought :
      (gp gp' : ℕ) (s : StateDb)
      → ltb_ℤ (balance_of b s from) gas_cost ≡ false
      → sub_gas tx.gas_limit gp ≡ some gp'
      → buy_gas b tx from (started gp s) ≡ (none, bought gp' (get_balance b from s).1)
  unfolding buy_gas
  buy_gas-bought gp gp' s h e = rw (get_balance-balance_of b from s, h, e, buy_gas)

  sub_gas_cases :
      (gp : ℕ)
      → ((sub_gas tx.gas_limit gp ≡ none) × (ltb gp tx.gas_limit ≡ true))
        ⊎ ((gp' : ℕ) × (sub_gas tx.gas_limit gp ≡ some gp')
            × (ltb gp tx.gas_limit ≡ false)
            × (gp' + tx.gas_limit ≡ gp))
  unfolding sub_gas
  sub_gas_cases gp = elim (Bool-cases (ltb gp tx.gas_limit)) [
    | inl t ↦ inl (rw t, t)
    | inr f ↦ inr (gp - tx.gas_limit, rw f, f, ground arith)
  ]

  -- The purchase in a state that shows what `s` shows, once the nonce is right.
  buy_gas-Checked :
      (gp : ℕ) (s s1 : StateDb)
      → IsSound s1
      → Same b s1 s
      → ltb (nonce_of b s from) tx.nonce ≡ false
      → ltb tx.nonce (nonce_of b s from) ≡ false
      → Checked gp s (buy_gas b tx from (started gp s1))
  buy_gas-Checked gp s s1 d h low high =
      let s2 = (get_balance b from s1).1 in
      let shown = Same-trans b (Same-get_balance b from s1) h in
      let same = ap (λ (x : ℤ). ltb_ℤ x gas_cost) (balance_of-Same b s1 s from h) in
      elim (Bool-cases (ltb_ℤ (balance_of b s from) gas_cost)) [
        | inl poor ↦
            rw (buy_gas-poor gp s1 (same ∙ poor))
              (refused insufficient_balance_for_gas gp s s2 shown (rw (low, high, poor)))
        | inr rich ↦ elim (sub_gas_cases gp) [
          | inl (full, t) ↦
              rw (buy_gas-full gp s1 (same ∙ rich) full)
                (refused gas_limit_reached gp s s2 shown (rw (low, high, rich, t)))
          | inr (gp', room, f, e) ↦ rw (buy_gas-bought gp gp' s1 (same ∙ rich) room) (
              accepted gp gp' s s2 (IsSound-get_balance b from s1 d) shown (rw (low, high, rich, f))
                e)
        ]
      ]

  pre_check-high :
      (gp : ℕ) (s : StateDb)
      → ltb (nonce_of b s from) tx.nonce ≡ true
      → pre_check b tx from (started gp s)
        ≡ (some nonce_too_high, started gp (get_nonce b from s).1)
  unfolding pre_check
  pre_check-high gp s h = rw (get_nonce-nonce_of b from s, h, pre_check)

  pre_check-low :
      (gp : ℕ) (s : StateDb)
      → ltb (nonce_of b s from) tx.nonce ≡ false
      → ltb tx.nonce (nonce_of b s from) ≡ true
      → pre_check b tx from (started gp s) ≡ (some nonce_too_low, started gp (get_nonce b from s).1)
  unfolding pre_check
  pre_check-low gp s h e = rw (get_nonce-nonce_of b from s, h, e, pre_check)

  pre_check-buy_gas :
      (gp : ℕ) (s : StateDb)
      → ltb (nonce_of b s from) tx.nonce ≡ false
      → ltb tx.nonce (nonce_of b s from) ≡ false
      → pre_check b tx from (started gp s) ≡ buy_gas b tx from (started gp (get_nonce b from s).1)
  unfolding pre_check
  pre_check-buy_gas gp s h e = rw (get_nonce-nonce_of b from s, h, e, pre_check)

  pre_check-Checked :
      (gp : ℕ) (s : StateDb) → IsSound s → Checked gp s (pre_check b tx from (started gp s))
  pre_check-Checked gp s h =
      let s1 = (get_nonce b from s).1 in
      elim (Bool-cases (ltb (nonce_of b s from) tx.nonce)) [
        | inl high ↦
            rw (pre_check-high gp s high)
              (refused nonce_too_high gp s s1 (Same-get_nonce b from s) (rw high))
        | inr low ↦ elim (Bool-cases (ltb tx.nonce (nonce_of b s from))) [
          | inl old ↦
              rw (pre_check-low gp s low old)
                (refused nonce_too_low gp s s1 (Same-get_nonce b from s) (rw (low, old)))
          | inr right ↦ rw (pre_check-buy_gas gp s low right) (
              buy_gas-Checked gp s s1 (IsSound-get_nonce b from s h) (Same-get_nonce b from s) low
                right)
        ]
      ]

  -- A transaction that fails a check of preCheck on a well-formed state, its nonce, its sender's
  -- balance or the gas in the pool, is refused with the error of the first check that fails, and
  -- the gas pool and all that can be read of the state are left alone.
  pub pre_check-refused :
      (gp : ℕ) (s : StateDb) (e : TxError)
      → IsSound s
      → first_failure gp s ≡ some e
      → ((pre_check b tx from (started gp s)).0 ≡ some e)
        × ((pre_check b tx from (started gp s)).1.gp ≡ gp)
        × Same b (pre_check b tx from (started gp s)).1.state s
  pre_check-refused gp s e h f =
      let c = pre_check-Checked gp s h in
      let n : (pre_check b tx from (started gp s)).0 ≢ none = λ z. absurd (cc (z, c.error, f)) in
      (c.error ∙ f, c.refused_pool n, c.refused_same n)

  -- A transaction that fails no check on a well-formed state, its gas limit being a uint64, is not
  -- refused: the gas pool loses the gas limit, the transition has it as its gas, and the sender, and
  -- nobody else, has paid its price; the state is well-formed again.
  pub pre_check-accepted :
      (gp : ℕ) (s : StateDb)
      → IsSound s
      → tx.gas_limit < 2 ^ 64
      → first_failure gp s ≡ none
      → ((pre_check b tx from (started gp s)).0 ≡ none)
        × ((pre_check b tx from (started gp s)).1.gp + tx.gas_limit ≡ gp)
        × ((pre_check b tx from (started gp s)).1.gas ≡ tx.gas_limit)
        × ((pre_check b tx from (started gp s)).1.initial_gas ≡ tx.gas_limit)
        × ((j : Address)
            → balance_of b (pre_check b tx from (started gp s)).1.state j
              ≡ (if from == j then balance_of b s j -ℤ gas_cost else balance_of b s j))
        × IsSound (pre_check b tx from (started gp s)).1.state
  pre_check-accepted gp s h l f =
      let c = pre_check-Checked gp s h in
      let n = c.error ∙ f in
      let (g, i) = c.accepted_gas n l in
      (n, c.accepted_pool n, g, i, c.accepted_balances n, c.accepted_sound n)
