-- ===== src/State/Tests.antt =====
-- A state of two accounts, and the theorems about the state applied to it.
use uranus.Prelude.{
  ◌≡◌, refl, none, some, List, [], ◌∷◌, ◌==◌, if◌then◌else◌, length, ok, panic, unknown_revision,
  arith, false,
}
use uranus.Prelude.Int.{pos}
use uranus.State.Object
use uranus.State.Object.{Address, StateObject, Address, Backend, Account}
use uranus.State.Db
use uranus.State.Db.{StateDb}
use uranus.State.Journal.{snapshot, revert_to_snapshot}
use uranus.State.Run
use uranus.State.Run.{Op, run}
use uranus.State.Ops
use uranus.State.Getters
use uranus.State.View.{AccountView, IsSound, view}
use uranus.State.Revert.Restores.{IsNumbered, Restored, revert_to_snapshot-run}
use uranus.State.Revert.Once.{revert_to_snapshot-again}
use uranus.State.Revert.Unjournaled.{undelegate_timestamp-revert}

abbrev pub test_backend : Backend
test_backend = record {
  open_storage = λ a root k. if k == 7 then 70 else 0;
  storage_root = λ t. t 7;
  contract_code = λ h. none;
  code_hash_of = λ code. length code;
  empty_code_hash = 0;
}

abbrev rich_account : Account
rich_account = record {
  unlocked_balance = some (pos 0);
  undelegate_timestamp = some (pos 0);
  locked_balance = some (pos 5);
  delegate_timestamp = some (pos 0);
  nonce = 4;
  balance = some (pos 1000000);
  root = 9;
  code_hash = none;
}

abbrev pub test_db : StateDb
test_db = record {
  trie = λ a. if a == 1 then some rich_account else none;
  state_objects = λ a. none;
  state_objects_dirty = λ a. false;
  refund = 0;
  thash = 0;
  bhash = 0;
  tx_index = 0;
  logs = λ h. [];
  log_size = 0;
  preimages = λ h. none;
  entries = [];
  dirties = λ a. 0;
  revisions = [];
  next_revision_id = 0;
}

-- Two reads, a transfer, a new account, storage, an inner snapshot that is reverted, and a suicide.
abbrev test_ops : List Op
test_ops =
    Run.read_storage 1 7
    ∷ Run.read_code 1
    ∷ Run.sub_balance 1 (pos 30)
    ∷ Run.add_balance 2 (pos 30)
    ∷ Run.set_storage 1 7 71
    ∷ Run.take_snapshot
    ∷ Run.set_nonce 1 5
    ∷ Run.create_account 2
    ∷ Run.revert_to 1
    ∷ Run.suicide 1
    ∷ []

-- What is seen of the first account.
abbrev test_view : AccountView
test_view = record {
  address = 1;
  unlocked_balance = some (pos 0);
  undelegate_timestamp = some (pos 0);
  locked_balance = pos 5;
  delegate_timestamp = pos 0;
  nonce = 4;
  balance = pos 1000000;
  root = 9;
  code_hash = 0;
  code = none;
  storage = λ k. if k == 7 then 70 else 0;
  suicided = false;
}

pub IsSound-test_db : IsSound test_db
IsSound-test_db = record {
  placed = λ a o found. absurd (cc);
  gone = λ a o found. absurd (cc);
  counted = omega arith;
  restorable = tt;
}

pub IsNumbered-test_db : IsNumbered test_db
IsNumbered-test_db = record { below = tt }

-- The state that the calls leave.
abbrev test_ran : StateDb
test_ran = elim (run test_backend test_ops (snapshot test_db).1) [ ok s ↦ s | panic p ↦ test_db ]

revert_to_snapshot-run_example :
    (t : StateDb) × (revert_to_snapshot test_backend 0 test_ran ≡ ok t)
    × Restored test_backend test_db t
unfolding run Run.apply Ops.sub_balance Ops.add_balance Ops.set_storage Ops.set_nonce
    Ops.create_account Ops.suicide snapshot revert_to_snapshot Db.create_object Ops.write_change
    Db.get_or_new_state_object Object.get_state Ops.object_add_balance Ops.object_set_balance
    Ops.object_sub_balance Object.new_object Getters.get_storage Getters.get_contract_code
    Object.get_code
revert_to_snapshot-run_example =
    revert_to_snapshot-run test_backend test_db test_ops IsSound-test_db IsNumbered-test_db
      (tt, (tt, (tt, (tt, (tt, (tt, (tt, (tt, (omega arith, (tt, tt)))))))))) refl

undelegate_timestamp-revert_example :
    (t : StateDb) × (revert_to_snapshot test_backend 0
        (Ops.set_undelegate_timestamp test_backend 1 (pos 8) (snapshot test_db).1)
      ≡ ok t)
    × (view test_backend t 1 ≡ some (record test_view { undelegate_timestamp = some (pos 8) }))
unfolding view Object.new_object
undelegate_timestamp-revert_example =
    undelegate_timestamp-revert test_backend test_db 1 (pos 8) test_view IsSound-test_db
      IsNumbered-test_db refl

revert_to_snapshot-again_example :
    (t : StateDb) × (revert_to_snapshot test_backend 0 test_ran ≡ ok t)
    × (revert_to_snapshot test_backend 0 t ≡ panic unknown_revision)
unfolding run Run.apply Ops.sub_balance Ops.add_balance Ops.set_storage Ops.set_nonce
    Ops.create_account Ops.suicide snapshot revert_to_snapshot Db.create_object Ops.write_change
    Db.get_or_new_state_object Object.get_state Ops.object_add_balance Ops.object_set_balance
    Ops.object_sub_balance Object.new_object Getters.get_storage Getters.get_contract_code
    Object.get_code
revert_to_snapshot-again_example =
    revert_to_snapshot-again test_backend test_db test_ops IsSound-test_db IsNumbered-test_db
      (tt, (tt, (tt, (tt, (tt, (tt, (tt, (tt, (omega arith, (tt, tt)))))))))) refl
