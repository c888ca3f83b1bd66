-- ===== src/Exec/Message/Rejected.antt =====
-- A vote for an address that is no candidate.
use mathlib.Core.Option.{get_or}
use uranus.Prelude.{
  Result, ℕ, ◌+◌, ◌%◌, ◌^◌, ◌<◌, ◌≡◌, refl, sym, ap, ◌∙◌, true, false, some, List, [], ◌∷◌, arith,
  subst, Bool-cases, inl, inr, All, ok,
}
use uranus.Prelude.Int.{ℤ, pos, ◌+ℤ◌, ◌-ℤ◌, ◌*ℤ◌, ltb_ℤ}
use uranus.State.Object.{Address, Backend}
use uranus.State.Db.{StateDb}
use uranus.State.Ops.{sub_balance, set_locked_balance, set_delegate_timestamp}
use uranus.State.Getters.{get_balance, get_locked_balance}
use uranus.State.Journal.{snapshot}
use uranus.State.Run
use uranus.State.Run.{Op, run, IsWithin}
use uranus.State.View.{Same, IsSound, view}
use uranus.State.Accounts.{
  balance_of, get_balance-balance_of, balance_of-sub_balance, balance_of-set_nonce, balance_of-Same,
  Same-get_balance,
}
use uranus.State.Revert.Accounts.{
  Step, Step-trans, Step-get_state_object, Step-sub_balance, Step-set_nonce,
}
use uranus.State.Revert.Restores.{IsNumbered, revert_to_snapshot-run}
use uranus.Dpos.Context.{invalid_candidate, DposContext}
use uranus.Dpos.Keeps.{each_candidate, delegate-refused}
use uranus.Exec.GasPool.{sub_gas}
use uranus.Exec.IntrinsicGas
use uranus.Exec.IntrinsicGas.{intrinsic_gas}
use uranus.Exec.Transition.{Transaction}
use uranus.Exec.Message.{
  Message, context_failed, failed_with, ChainConfig, reverted, cast_vote, apply_delegate, dispatch,
  charged, apply_dpos_message,
}

module _ (b : Backend) where
  Step-IsNumbered : (s t : StateDb) → Step b s t → IsNumbered s → IsNumbered t
  Step-IsNumbered s t p n = record {
    below =
        subst (λ (i : ℕ). All (λ r. r.id < i) t.revisions) (sym p.next_revision_id)
          (subst (All (λ r. r.id < s.next_revision_id)) (sym p.revisions) n.below);
  }

  Step-get_balance : (a : Address) (s : StateDb) → IsSound s → Step b s (get_balance b a s).1
  unfolding get_balance
  Step-get_balance a s h = Step-get_state_object b a s h

module _ (b : Backend) (config : ChainConfig) (tx : Transaction) (from : Address) where
  abbrev receivers : List Address
  receivers = get_or tx.tos []

  -- What a failed vote leaves, where `paid` is the state with the fee and the nonce.
  abbrev pub RejectedVote : ℕ → DposContext → StateDb → Result Message → Type 0
  RejectedVote gp ctx paid m =
      (t : StateDb) × (m
        ≡ ok (failed_with b config tx from 0 (context_failed invalid_candidate) ctx gp t))
      × Same b t paid

  -- After any calls that may follow the snapshot, a vote that fails is undone with them.
  cast_vote-refused :
      (s : StateDb) (ops : List Op) (gp : ℕ) (ctx : DposContext) {s' : StateDb}
      → IsSound s
      → IsNumbered s
      → All (IsWithin s.next_revision_id) ops
      → run b ops (snapshot s).1 ≡ ok s'
      → each_candidate receivers ctx ≡ false
      → RejectedVote gp ctx s (cast_vote b config tx from 0 s.next_revision_id ctx gp s')
  unfolding cast_vote reverted
  cast_vote-refused s ops gp ctx {s'} h n w e barred =
      let (t, u, r) = revert_to_snapshot-run b s ops h n w e in
      let refused = delegate-refused from receivers ctx barred in
      (t, rw (cast_vote, refused, u, ap (λ r. r.1) refused) refl, r.same)

  abbrev locking : ℤ → StateDb → List Op
  locking timestamp s =
      Run.read from
      ∷ Run.sub_balance from tx.value
      ∷ Run.read from
      ∷ Run.set_locked_balance from (
          (get_locked_balance b from (sub_balance b from tx.value (get_balance b from s).1)).0
          +ℤ tx.value)
      ∷ Run.set_delegate_timestamp from timestamp
      ∷ []

  abbrev locked : ℤ → StateDb → StateDb
  locked timestamp s =
      let s2 = sub_balance b from tx.value (get_balance b from s).1 in
      let (amount, s3) = get_locked_balance b from s2 in
      set_delegate_timestamp b from timestamp (set_locked_balance b from (amount +ℤ tx.value) s3)

  balance_snapshot : (s : StateDb) → (get_balance b from (snapshot s).1).0 ≡ balance_of b s from
  unfolding snapshot view
  balance_snapshot s = get_balance-balance_of b from (snapshot s).1 ∙ refl

  run-locking :
      (timestamp : ℤ) (s : StateDb) → run b (locking timestamp s) s ≡ ok (locked timestamp s)
  unfolding run Run.apply get_balance get_locked_balance
  run-locking timestamp s = refl

  apply_delegate-refused :
      (timestamp : ℤ) (s : StateDb) (gp : ℕ) (ctx : DposContext)
      → IsSound s
      → IsNumbered s
      → (ltb_ℤ (pos 0) tx.value ≡ true → ltb_ℤ (balance_of b s from -ℤ tx.value) (pos 0) ≡ false)
      → each_candidate receivers ctx ≡ false
      → RejectedVote gp ctx s
          (apply_delegate b config tx from timestamp 0 s.next_revision_id ctx gp (snapshot s).1)
  unfolding apply_delegate run
  apply_delegate-refused timestamp s gp ctx h n covered barred =
      elim (Bool-cases (ltb_ℤ (pos 0) tx.value)) [
        | inr low ↦ rw low (cast_vote-refused s [] gp ctx h n tt refl barred)
        | inl high ↦
            rw (high, balance_snapshot s, covered high)
              (cast_vote-refused s (locking timestamp (snapshot s).1) gp ctx h n
                (tt, (tt, (tt, (tt, (tt, tt))))) (run-locking timestamp (snapshot s).1) barred)
      ]

  Step-charged :
      (s : StateDb) → IsSound s → Step b s (charged b config tx from 0 (get_balance b from s).1)
  Step-charged s h =
      let got = Step-get_balance b from s h in
      let paid =
        Step-sub_balance b from (pos 0 *ℤ tx.gas_price) (get_balance b from s).1 got.sound in
      Step-trans b got
        (Step-trans b paid (Step-set_nonce b from ((tx.nonce + 1) % 2 ^ 64) _ paid.sound))

  balance_of-charged :
      (s : StateDb)
      → IsSound s
      → balance_of b (charged b config tx from 0 (get_balance b from s).1) from
        ≡ balance_of b s from -ℤ pos 0 *ℤ tx.gas_price
  balance_of-charged s h =
      let got = Step-get_balance b from s h in
      let paid =
        Step-sub_balance b from (pos 0 *ℤ tx.gas_price) (get_balance b from s).1 got.sound in
      balance_of-set_nonce b from ((tx.nonce + 1) % 2 ^ 64) _ from paid.sound
      ∙ ground (
        arith,
        balance_of-sub_balance b from (pos 0 *ℤ tx.gas_price) (get_balance b from s).1 from
            got.sound,
        balance_of-Same b (get_balance b from s).1 s from (Same-get_balance b from s),
      )

  sub_gas_zero : (gp : ℕ) → sub_gas 0 gp ≡ some gp
  unfolding sub_gas
  sub_gas_zero gp = ground arith

  vote_gas :
      tx.tx_type ≡ IntrinsicGas.delegate → get_or (intrinsic_gas tx.payload tx.tx_type false) 0 ≡ 0
  unfolding intrinsic_gas
  vote_gas t = rw t refl

  -- A Delegate transaction for an address that is no candidate, on a well-formed state where the
  -- sender's balance covers the price of no gas and, if the transaction has a positive value, that
  -- value too: applyDposMessage returns a failure without a panic, the context and the gas pool are
  -- as before, and of the state a caller reads the fee and the new nonce and no locked value.
  pub apply_dpos_message-not_candidate :
      (timestamp : ℤ) (ctx : DposContext) (s : StateDb) (gp : ℕ)
      → IsSound s
      → IsNumbered s
      → tx.tx_type ≡ IntrinsicGas.delegate
      → ltb_ℤ (balance_of b s from) (pos 0 *ℤ tx.gas_price) ≡ false
      → (ltb_ℤ (pos 0) tx.value ≡ true
          → ltb_ℤ (balance_of b s from -ℤ pos 0 *ℤ tx.gas_price -ℤ tx.value) (pos 0) ≡ false)
      → each_candidate receivers ctx ≡ false
      → RejectedVote gp ctx
          (charged b config tx from 0 (get_balance b from s).1)
          (apply_dpos_message b config tx from timestamp ctx s gp)
  unfolding apply_dpos_message dispatch snapshot intrinsic_gas
  apply_dpos_message-not_candidate timestamp ctx s gp h n t rich covered barred =
      let c = charged b config tx from 0 (get_balance b from s).1 in
      let p = Step-charged s h in
      rw (apply_dpos_message, vote_gas t, get_balance-balance_of b from s, rich, sub_gas_zero gp, t)
        (apply_delegate-refused timestamp c gp ctx p.sound (Step-IsNumbered b s c p n)
          (λ v. ap (λ (m : ℤ). ltb_ℤ (m -ℤ tx.value) (pos 0)) (balance_of-charged s h) ∙ covered v)
          barred)
