-- ===== src/State/Revert/Accounts.antt =====
-- The lemmas on views and on obtaining an account that are used outside this folder.
pub use uranus.State.Revert.Creation.{
  Obtained, get_or_new_state_object-Obtained, view_found, view-append, address-find_object,
}
pub use uranus.State.Revert.Congruence.{find_object-deleted, Same-get_state_object}
pub use uranus.State.Revert.Views.{
  view-set_state_object, view-get_state_object, get_state_object-eq-find_object,
}
pub use uranus.State.Revert.Steps.{Step, Step-trans, Step-get_state_object}
pub use uranus.State.Revert.Operations.{Step-sub_balance, Step-set_nonce}
pub use uranus.State.Revert.Others.{Step-add_balance}
