-- ===== src/Consensus/Confirmed.antt =====
-- consensus/dpos/dpos.go, updateConfirmedBlockHeader: the block that is confirmed by the miners of the
-- blocks on top of it. The chain is the list of the headers from the current one to the first.
use uranus.Prelude.{
  ℕ, ◌≤◌, ◌<◌, ◌≡◌, Bool, true, false, ◌||◌, List, [], ◌∷◌, ◌++◌, length, leb, ◌==◌, if◌then◌else◌,
  All, elem,
}
use uranus.State.Object.{Address}

pub record Header : Type 0 where
  pub height : ℕ
  pub miner : Address

-- What the walk along the chain ends with: the confirmed header stays, another one is confirmed, or a
-- parent is missing.
pub data Walk : Type 0 where
  unchanged : Walk
  confirms : Header → Walk
  nil_block_header : Walk

-- `validatorMap[miner] = true`
abbrev pub add_miner : Address → List Address → List Address
add_miner a miners = if elem a miners then miners else a ∷ miners

-- The loop of `updateConfirmedBlockHeader`, with the height that is confirmed and the miners so far.
unfoldable pub walk : ℕ → ℕ → List Address → List Header → Walk
walk size confirmed miners [] = nil_block_header
walk size confirmed miners (cur ∷ chain) =
    let miners' = add_miner cur.miner miners in
    let rest = walk size confirmed miners' chain in
    if leb confirmed cur.height
    then (if leb size (length miners')
        then (if confirmed == cur.height then unchanged else confirms cur)
        else rest)
    else unchanged

-- No address twice.
abbrev pub IsDistinct : List Address → Type 0
IsDistinct [] = Unit
IsDistinct (a ∷ miners) = (elem a miners ≡ false) × IsDistinct miners

abbrev pub mines : Address → List Header → Bool
mines a [] = false
mines a (h ∷ headers) = (a == h.miner) || mines a headers

-- The address made one of the blocks.
abbrev pub IsMiner : List Header → Address → Type 0
IsMiner headers a = mines a headers ≡ true

-- The chain from its head down to the header, which is above the confirmed height, with enough
-- different miners.
pub record Confirms (size confirmed : ℕ) (chain : List Header) (h : Header) : Type 0 where
  pub newer : List Header
  pub older : List Header
  pub on_chain : chain ≡ newer ++ h ∷ older
  pub above : confirmed < h.height
  pub miners : List Address
  pub distinct : IsDistinct miners
  pub enough : size ≤ length miners
  pub mined : All (IsMiner (newer ++ h ∷ [])) miners
