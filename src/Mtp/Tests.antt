-- ===== src/Mtp/Tests.antt =====
-- A trie whose root has not been loaded yet, and the theorems about tries applied to it.
use uranus.Prelude.{ℕ, ◌≡◌, refl, true, Option, none, some, List, [], ◌∷◌, if◌then◌else◌, arith}
use uranus.Mtp.Node.{Node, value, short, hash, ok}
use uranus.Mtp.Keys.{same, keybytes_to_hex, hex_to_compact, compact_to_hex}
use uranus.Mtp.Content.{content}
use uranus.Mtp.Map.{
  TrieMap, TrieOp, get, upd, del, trie_answers, Represents, trie_answers-map_answers,
}
use uranus.Mtp.Compact.{compact_to_hex-hex_to_compact}

-- The node of the hash 7 leads from the key 0x12 to the value 5.
abbrev test_node : Node
test_node = short (1 ∷ 2 ∷ 16 ∷ []) (value (5 ∷ []))

test_load : List ℕ → Option Node
unfolding same
test_load h = if same h (7 ∷ []) then some test_node else none

abbrev test_root : Node
test_root = hash (7 ∷ [])

abbrev test_map : TrieMap
test_map key = content test_load 1 test_root (keybytes_to_hex key)

abbrev test_ops : List TrieOp
test_ops =
    get (0x12 ∷ [])
    ∷ upd (0x13 ∷ []) (6 ∷ [])
    ∷ get (0x13 ∷ [])
    ∷ del (0x12 ∷ [])
    ∷ upd (0x45 ∷ 0x67 ∷ []) (8 ∷ [])
    ∷ get (0x12 ∷ [])
    ∷ upd (0x13 ∷ []) []
    ∷ get (0x13 ∷ [])
    ∷ get (0x45 ∷ 0x67 ∷ [])
    ∷ []

test_root-Represents : Represents test_load 1 test_root test_map
unfolding test_load
test_root-Represents = record {
  shape = (
    test_node,
    refl,
    ((λ e. cc), (true, (omega arith, (omega arith, (omega arith, refl))), refl)),
  );
  holds = λ key h. refl;
}

trie_answers-map_answers_example :
    trie_answers test_load 1 test_root test_ops
    ≡ ok (some (5 ∷ []) ∷ some (6 ∷ []) ∷ none ∷ none ∷ some (8 ∷ []) ∷ [])
unfolding test_load content keybytes_to_hex
trie_answers-map_answers_example =
    trie_answers-map_answers test_load 1 test_root test_map test_ops test_root-Represents
      (omega arith)

-- Three nibbles, an odd number.
compact_to_hex-hex_to_compact_example :
    (compact_to_hex (hex_to_compact (1 ∷ 2 ∷ 3 ∷ [])) ≡ 1 ∷ 2 ∷ 3 ∷ [])
    × (compact_to_hex (hex_to_compact (1 ∷ 2 ∷ 3 ∷ 16 ∷ [])) ≡ 1 ∷ 2 ∷ 3 ∷ 16 ∷ [])
compact_to_hex-hex_to_compact_example = compact_to_hex-hex_to_compact (1 ∷ 2 ∷ 3 ∷ []) (omega arith)
